-- ===== src/Glob/Classes.antt =====
-- What a character class of a glob pattern means, and the proof that `matchClass` decides it
-- (internal/store/helpers.go).
use voltkv.Base.{
  ℕ, ◌≡◌, ◌≢◌, ◌≤◌, ◌⊎◌, refl, ap, ◌∙◌, sym, Bool, true, false, not, ◌&&◌, ◌||◌, Option, none, some,
  List, [], ◌∷◌, leb, ◌==◌, ==_iff, Bytes, arith, Bool-cases, inl, inr,
}
use voltkv.Glob.{class_loop, match_class, negate_with}

-- What stands in a class: a character, or a first and a last one.
pub data Item : Type 0 where
  single : ℕ → Item
  range : ℕ → ℕ → Item

abbrev pub Covers : ℕ → Item → Type 0
Covers c (single a) = c ≡ a
Covers c (range a b) = (a ≤ c) × (c ≤ b)

abbrev pub CoversAny : ℕ → List Item → Type 0
CoversAny c [] = ⊥
CoversAny c (x ∷ items) = Covers c x ⊎ CoversAny c items

-- The rest of a pattern behind a character that makes a range with it.
abbrev pub ToLast : Bytes → Type 0
ToLast [] = ⊥
ToLast (d ∷ []) = ⊥
ToLast (d ∷ b ∷ p) = (d ≡ b'-') × (b ≢ b']')

-- The items up to the first bracket that closes the class, and the pattern behind it.
pub data IsClass : List Item → Bytes → Bytes → Type 0 where
  closed : {a : ℕ} {rest : Bytes} → a ≡ b']' → IsClass [] (a ∷ rest) rest
  with_range :
      {a d b : ℕ} {items : List Item} {p rest : Bytes}
      → a ≢ b']'
      → d ≡ b'-'
      → b ≢ b']'
      → IsClass items p rest
      → IsClass (range a b ∷ items) (a ∷ d ∷ b ∷ p) rest
  with_single :
      {a : ℕ} {items : List Item} {p rest : Bytes}
      → a ≢ b']'
      → ¬ ToLast p
      → IsClass items p rest
      → IsClass (single a ∷ items) (a ∷ p) rest

-- A character that the class behind a bracket takes, and the pattern behind the class.
pub data Accepts (c : ℕ) : Bytes → Bytes → Type 0 where
  among :
      {a : ℕ} {items : List Item} {p rest : Bytes}
      → a ≢ b'^'
      → IsClass items (a ∷ p) rest
      → CoversAny c items
      → Accepts c (a ∷ p) rest
  outside :
      {a : ℕ} {items : List Item} {p rest : Bytes}
      → a ≡ b'^'
      → IsClass items p rest
      → ¬ CoversAny c items
      → Accepts c (a ∷ p) rest

-- What the loop has found behind the items.
abbrev hits : ℕ → List Item → Bool → Bool
hits c [] found = found
hits c (single a ∷ items) found = hits c items (found || a == c)
hits c (range a b ∷ items) found = hits c items (found || (leb a c && leb c b))

hits_found : (c : ℕ) (items : List Item) → hits c items true ≡ true
hits_found c [] = refl
hits_found c (single a ∷ items) = hits_found c items
hits_found c (range a b ∷ items) = hits_found c items

hits_sound :
    (c : ℕ) (items : List Item) (found : Bool)
    → hits c items found ≡ true
    → (found ≡ true) ⊎ CoversAny c items
hits_sound c [] found h = inl h
hits_sound c (single a ∷ items) found h = elim (hits_sound c items (found || a == c) h) [
  | inl e ↦ elim (Bool-cases found) [
    | inl f ↦ inl f
    | inr f ↦ inr (inl (ground (arith, e, f, ==_iff a c)))
  ]
  | inr k ↦ inr (inr k)
]
hits_sound c (range a b ∷ items) found h =
    elim (hits_sound c items (found || (leb a c && leb c b)) h) [
      | inl e ↦ elim (Bool-cases found) [
        | inl f ↦ inl f
        | inr f ↦ inr (inl (ground (arith, e, f), ground (arith, e, f)))
      ]
      | inr k ↦ inr (inr k)
    ]

covered : (c : ℕ) (items : List Item) (found : Bool) → CoversAny c items → hits c items found ≡ true
covered c [] found h = absurd h
covered c (single a ∷ items) found (inl e) =
    ap (hits c items) (ground (arith, e, ==_iff a c)) ∙ hits_found c items
covered c (single a ∷ items) found (inr k) = covered c items (found || a == c) k
covered c (range a b ∷ items) found (inl (l, u)) =
    ap (hits c items) (ground (arith, l, u)) ∙ hits_found c items
covered c (range a b ∷ items) found (inr k) = covered c items (found || (leb a c && leb c b)) k

-- The loop reads a class and answers for its items.
abbrev Read : ℕ → Bytes → Bool → Option (Bool × Bytes) → Type 0
Read c p found none = Unit
Read c p found (some (b, rest)) =
    (items : List Item) × IsClass items p rest × (b ≡ hits c items found)

single-Read :
    (c a : ℕ) (p : Bytes) (found : Bool) (r : Option (Bool × Bytes))
    → a ≢ b']'
    → ¬ ToLast p
    → Read c p (found || a == c) r
    → Read c (a ∷ p) found r
single-Read c a p found none n l h = tt
single-Read c a p found (some (b, rest)) n l (items, k, e) =
    (single a ∷ items, with_single n l k, e)

range-Read :
    (c a d b : ℕ) (p : Bytes) (found : Bool) (r : Option (Bool × Bytes))
    → a ≢ b']'
    → d ≡ b'-'
    → b ≢ b']'
    → Read c p (found || (leb a c && leb c b)) r
    → Read c (a ∷ d ∷ b ∷ p) found r
range-Read c a d b p found none n l m h = tt
range-Read c a d b p found (some (x, rest)) n l m (items, k, e) =
    (range a b ∷ items, with_range n l m k, e)

class_loop-Read : (c : ℕ) (p : Bytes) (found : Bool) → Read c p found (class_loop c p found)
unfolding class_loop
class_loop-Read c [] found = tt
class_loop-Read c (a ∷ []) found = elim (Bool-cases (a == b']')) [
  | inl e ↦ rw e ([], closed ((==_iff _ _).0 e), refl)
  | inr e ↦ rw e tt
]
class_loop-Read c (a ∷ d ∷ []) found = elim (Bool-cases (a == b']')) [
  | inl e ↦ rw e ([], closed ((==_iff _ _).0 e), refl)
  | inr e ↦ rw e (
      single-Read c a (d ∷ []) found _ (ground (arith, e)) (λ x. x)
        (class_loop-Read c (d ∷ []) (found || a == c)))
]
class_loop-Read c (a ∷ d ∷ b ∷ p) found = elim (Bool-cases (a == b']')) [
  | inl e ↦ rw e ([], closed ((==_iff _ _).0 e), refl)
  | inr e ↦ elim (Bool-cases (d == b'-' && not (b == b']'))) [
    | inl q ↦
        rw (e, q)
          (range-Read c a d b p found _ (ground (arith, e)) (ground (arith, q)) (ground (arith, q))
            (class_loop-Read c p (found || (leb a c && leb c b))))
    | inr q ↦
        rw (e, q)
          (single-Read c a (d ∷ b ∷ p) found _ (ground (arith, e))
            (λ (l, m). absurd (ground (arith, q, l, m)))
            (class_loop-Read c (d ∷ b ∷ p) (found || a == c)))
  ]
]

class_loop-closed :
    (c a : ℕ) (rest : Bytes) (found : Bool)
    → a ≡ b']'
    → class_loop c (a ∷ rest) found ≡ some (found, rest)
unfolding class_loop
class_loop-closed c a [] found e = ground (arith, e)
class_loop-closed c a (d ∷ []) found e = ground (arith, e)
class_loop-closed c a (d ∷ b ∷ p) found e = ground (arith, e)

class_loop-single :
    (c a : ℕ) (p : Bytes) (found : Bool)
    → a ≢ b']'
    → ¬ ToLast p
    → class_loop c (a ∷ p) found ≡ class_loop c p (found || a == c)
unfolding class_loop
class_loop-single c a [] found n l = ground (arith, n)
class_loop-single c a (d ∷ []) found n l = ground (arith, n)
class_loop-single c a (d ∷ b ∷ p) found n l = elim (Bool-cases (d == b'-' && not (b == b']'))) [
  | inl q ↦ absurd (l (ground (arith, q), ground (arith, q)))
  | inr q ↦ rw q (ground (arith, n))
]

class_loop-hits :
    (c : ℕ) {items : List Item} {p rest : Bytes} (found : Bool)
    → IsClass items p rest
    → class_loop c p found ≡ some (hits c items found, rest)
unfolding class_loop
class_loop-hits c found (closed {a} {rest} e) = class_loop-closed c a rest found e
class_loop-hits c found (with_range {a} {b} n l m k) =
    ground (arith, l, n, m, class_loop-hits c (found || (leb a c && leb c b)) k)
class_loop-hits c found (with_single {a} {p} n l k) =
    class_loop-single c a p found n l ∙ class_loop-hits c (found || a == c) k

abbrev Answers : ℕ → Bytes → Option (Bool × Bytes) → Type 0
Answers c p (some (true, rest)) = Accepts c p rest
Answers c p _ = Unit

negated-Answers :
    (c a : ℕ) (p : Bytes) (r : Option (Bool × Bytes))
    → a ≡ b'^'
    → Read c p false r
    → Answers c (a ∷ p) (negate_with true r)
negated-Answers c a p none e h = tt
negated-Answers c a p (some (true, rest)) e h = tt
negated-Answers c a p (some (false, rest)) e (items, k, b) =
    outside e k (λ m. absurd (ground (arith, b, covered c items false m)))

plain-Answers :
    (c a : ℕ) (p : Bytes) (r : Option (Bool × Bytes))
    → a ≢ b'^'
    → Read c (a ∷ p) false r
    → Answers c (a ∷ p) (negate_with false r)
plain-Answers c a p none e h = tt
plain-Answers c a p (some (false, rest)) e h = tt
plain-Answers c a p (some (true, rest)) e (items, k, b) = elim (hits_sound c items false (sym b)) [
  | inl f ↦ absurd (ground (arith, f))
  | inr m ↦ among e k m
]

match_class-Answers : (c : ℕ) (p : Bytes) → Answers c p (match_class p c)
unfolding match_class
match_class-Answers c [] = tt
match_class-Answers c (a ∷ p) = elim (Bool-cases (a == b'^')) [
  | inl e ↦ rw e (negated-Answers c a p _ ((==_iff _ _).0 e) (class_loop-Read c p false))
  | inr e ↦ rw e (plain-Answers c a p _ (ground (arith, e)) (class_loop-Read c (a ∷ p) false))
]

-- What `matchClass` takes.
pub match_class_sound :
    (c : ℕ) (p rest : Bytes) → match_class p c ≡ some (true, rest) → Accepts c p rest
match_class_sound c p rest e = rw e at (match_class-Answers c p)

no_hits : (c : ℕ) (items : List Item) → ¬ CoversAny c items → hits c items false ≡ false
no_hits c items n = elim (Bool-cases (hits c items false)) [
  | inl e ↦ elim (hits_sound c items false e) [
    | inl f ↦ absurd (ground (arith, f))
    | inr m ↦ absurd (n m)
  ]
  | inr e ↦ e
]

-- And it takes all that the class accepts.
pub match_class_complete :
    (c : ℕ) (p rest : Bytes) → Accepts c p rest → match_class p c ≡ some (true, rest)
unfolding match_class
match_class_complete c p rest (among {a} {items} n k m) =
    let read = class_loop-hits c false k in ground (arith, n, read, covered c items false m)
match_class_complete c p rest (outside {a} {items} e k n) =
    let read = class_loop-hits c false k in ground (arith, e, read, no_hits c items n)
