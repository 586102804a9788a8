-- ===== src/Glob/Spec.antt =====
-- What it means for a text to match a glob pattern, with no search order in it, and the proof that
-- `globMatch` decides it (internal/store/helpers.go).
use voltkv.Base.{
  ℕ, zero, suc, ◌+◌, ◌≡◌, ◌≢◌, ◌≤◌, ◌<◌, refl, ◌∙◌, ◌↔◌, Bool, true, false, ◌&&◌, ◌||◌, Option,
  none, some, [], ◌∷◌, length, leb, ◌==◌, ==_iff, false≢true, Bytes, arith, Bool-cases,
  Option-cases, inl, inr,
}
use voltkv.Glob.Classes.{Accepts, match_class_sound, match_class_complete}
use voltkv.Glob.{
  Matcher, class_loop, match_class, collapse, any_suffix, star_step, any_step, class_result,
  class_step, literal_step, escape_step, step, match_here, glob_match, backslash,
}

-- Neither `*`, `?`, `[` nor a backslash.
abbrev pub IsPlain : ℕ → Type 0
IsPlain a = (a ≢ b'*') × (a ≢ b'?') × (a ≢ b'[') × (a ≢ backslash)

pub data Matches : Bytes → Bytes → Type 0 where
  done : Matches [] []
  star_skip : {a : ℕ} {p s : Bytes} → a ≡ b'*' → Matches p s → Matches (a ∷ p) s
  star_take : {a c : ℕ} {p s : Bytes} → a ≡ b'*' → Matches (a ∷ p) s → Matches (a ∷ p) (c ∷ s)
  any : {a c : ℕ} {p s : Bytes} → a ≡ b'?' → Matches p s → Matches (a ∷ p) (c ∷ s)
  class :
      {a c : ℕ} {p rest s : Bytes}
      → a ≡ b'['
      → Accepts c p rest
      → Matches rest s
      → Matches (a ∷ p) (c ∷ s)
  escaped :
      {a c x : ℕ} {p s : Bytes} → a ≡ backslash → c ≡ x → Matches p s → Matches (a ∷ x ∷ p) (c ∷ s)
  backslash_at_end : {a c : ℕ} → a ≡ backslash → c ≡ a → Matches (a ∷ []) (c ∷ [])
  literal : {a c : ℕ} {p s : Bytes} → IsPlain a → c ≡ a → Matches p s → Matches (a ∷ p) (c ∷ s)

-- A class leaves a shorter pattern.
class_loop-shorter :
    (c : ℕ) (p : Bytes) (found b : Bool) (rest : Bytes)
    → class_loop c p found ≡ some (b, rest)
    → length rest < length p
unfolding class_loop
class_loop-shorter c [] found b rest h = cc
class_loop-shorter c (a ∷ d ∷ x ∷ p) found b rest h = ground (
  arith,
  class_loop-shorter c p (found || (leb a c && leb c x)) b rest,
  class_loop-shorter c (d ∷ x ∷ p) (found || a == c) b rest,
)
class_loop-shorter c (a ∷ p) found b rest h =
    ground (arith, class_loop-shorter c p (found || a == c) b rest)

-- The same, read off the result.
abbrev Shorter : ℕ → Option (Bool × Bytes) → Type 0
Shorter n none = Unit
Shorter n (some (b, rest)) = length rest < n

class_loop-result : (c : ℕ) (p : Bytes) (found : Bool) → Shorter (length p) (class_loop c p found)
class_loop-result c p found = elim (Option-cases (class_loop c p found)) [
  | inl e ↦ rw e tt
  | inr ((b, rest), e) ↦ rw e (class_loop-shorter c p found b rest e)
]

match_class-shorter :
    (c : ℕ) (p : Bytes) (b : Bool) (rest : Bytes)
    → match_class p c ≡ some (b, rest)
    → length rest < length p
unfolding match_class
match_class-shorter c [] b rest h = cc
match_class-shorter c (a ∷ p) b rest h =
    ground (arith, class_loop-result c p false, class_loop-result c (a ∷ p) false)

length-collapse : (p : Bytes) → length (collapse p) ≤ length p
unfolding collapse
length-collapse [] = omega arith
length-collapse (c ∷ p) = ground (arith, length-collapse p)

-- What a star in front of `p` asks: some suffix of the text matches `p`.
data OnSuffix (p : Bytes) : Bytes → Type 0 where
  here : {s : Bytes} → Matches p s → OnSuffix p s
  later : {c : ℕ} {s : Bytes} → OnSuffix p s → OnSuffix p (c ∷ s)

star→OnSuffix : {a : ℕ} {p s : Bytes} → a ≡ b'*' → Matches (a ∷ p) s → OnSuffix p s
star→OnSuffix e (star_skip _ m) = here m
star→OnSuffix e (star_take _ m) = later (star→OnSuffix e m)
star→OnSuffix e (any q m) = absurd (omega arith)
star→OnSuffix e (class q _ m) = absurd (omega arith)
star→OnSuffix e (escaped q _ m) = absurd (omega arith)
star→OnSuffix e (backslash_at_end q _) = absurd (omega arith)
star→OnSuffix e (literal q _ m) = absurd (q.0 e)

OnSuffix→star : {a : ℕ} {p s : Bytes} → a ≡ b'*' → OnSuffix p s → Matches (a ∷ p) s
OnSuffix→star e (here m) = star_skip e m
OnSuffix→star e (later m) = star_take e (OnSuffix→star e m)

flatten : {a : ℕ} {p s : Bytes} → a ≡ b'*' → OnSuffix (a ∷ p) s → OnSuffix p s
flatten e (here m) = star→OnSuffix e m
flatten e (later m) = later (flatten e m)

collapse_sound : (p s : Bytes) → OnSuffix (collapse p) s → OnSuffix p s
unfolding collapse
collapse_sound [] s m = m
collapse_sound (c ∷ p) s m = elim (Bool-cases (c == b'*')) [
  | inl star ↦ here (OnSuffix→star ((==_iff _ _).0 star) (collapse_sound p s (rw star at m)))
  | inr other ↦ rw other at m
]

collapse_complete : (p s : Bytes) → OnSuffix p s → OnSuffix (collapse p) s
unfolding collapse
collapse_complete [] s m = m
collapse_complete (c ∷ p) s m = elim (Bool-cases (c == b'*')) [
  | inl star ↦ rw star (collapse_complete p s (flatten ((==_iff _ _).0 star) m))
  | inr other ↦ rw other m
]

OnSuffix-nil : (s : Bytes) → OnSuffix [] s
OnSuffix-nil [] = here done
OnSuffix-nil (c ∷ s) = later (OnSuffix-nil s)

-- `next` answers rightly for every pattern shorter than `n`.
abbrev Decides : ℕ → Matcher → Type 0
Decides n next = (q t : Bytes) → length q < n → (next q t ≡ true) ↔ Matches q t

any_suffix_sound :
    (test : Bytes → Bool) (p s : Bytes)
    → ((t : Bytes) → test t ≡ true → Matches p t)
    → any_suffix test s ≡ true
    → OnSuffix p s
unfolding any_suffix
any_suffix_sound test p [] k h = here (k [] h)
any_suffix_sound test p (c ∷ s) k h = elim (Bool-cases (test (c ∷ s))) [
  | inl found ↦ here (k (c ∷ s) found)
  | inr not_yet ↦ later (any_suffix_sound test p s k (rw not_yet at h))
]

any_suffix_complete :
    (test : Bytes → Bool) (p s : Bytes)
    → ((t : Bytes) → Matches p t → test t ≡ true)
    → OnSuffix p s
    → any_suffix test s ≡ true
unfolding any_suffix
any_suffix_complete test p [] k (here m) = k [] m
any_suffix_complete test p (c ∷ s) k (here m) = rw (k (c ∷ s) m)
any_suffix_complete test p (c ∷ s) k (later m) = ground (arith, any_suffix_complete test p s k m)

module _ (n : ℕ) (next : Matcher) (ih : Decides n next) where
  star_step_iff : (q s : Bytes) → length q < n → (star_step next q s ≡ true) ↔ OnSuffix q s
  star_step_iff [] s h = (λ _. OnSuffix-nil s, λ _. refl)
  star_step_iff (a ∷ q) s h = (
    any_suffix_sound _ (a ∷ q) s (λ t. (ih (a ∷ q) t h).0),
    any_suffix_complete _ (a ∷ q) s (λ t. (ih (a ∷ q) t h).1),
  )

  star_case :
      (a : ℕ) (p s : Bytes)
      → length p < n
      → a ≡ b'*'
      → (star_step next (collapse p) s ≡ true) ↔ Matches (a ∷ p) s
  star_case a p s h e =
      let (sound, complete) = star_step_iff (collapse p) s (omega (arith, length-collapse p)) in
      (
        λ r. OnSuffix→star e (collapse_sound p s (sound r)),
        λ m. complete (collapse_complete p s (star→OnSuffix e m)),
      )

  class_result_sound :
      (c : ℕ) (p s : Bytes) (r : Option (Bool × Bytes))
      → length p < n
      → match_class p c ≡ r
      → class_result next s r ≡ true
      → (rest : Bytes) × (match_class p c ≡ some (true, rest)) × Matches rest s
  class_result_sound c p s none h e t = absurd (false≢true t)
  class_result_sound c p s (some (false, rest)) h e t = absurd (false≢true t)
  class_result_sound c p s (some (true, rest)) h e t =
      (rest, e, (ih rest s (omega (arith, match_class-shorter c p true rest e))).0 t)

  literal_step_sound :
      (x : ℕ) (p s : Bytes)
      → length p < n
      → literal_step next x p s ≡ true
      → (c : ℕ) × (t : Bytes) × (s ≡ c ∷ t) × (c ≡ x) × Matches p t
  literal_step_sound x p [] h r = absurd (false≢true r)
  literal_step_sound x p (c ∷ s) h r = elim (Bool-cases (c == x)) [
    | inl same ↦ (c, s, refl, (==_iff _ _).0 same, (ih p s h).0 (rw same at r))
    | inr other ↦ absurd (false≢true (rw other at r))
  ]

  any_sound :
      (a : ℕ) (p s : Bytes) → length p < n → a ≡ b'?' → any_step next p s ≡ true → Matches (a ∷ p) s
  any_sound a p [] h e r = absurd (false≢true r)
  any_sound a p (c ∷ s) h e r = any e ((ih p s h).0 r)

  class_sound :
      (a : ℕ) (p s : Bytes)
      → length p < n
      → a ≡ b'['
      → class_step next p s ≡ true
      → Matches (a ∷ p) s
  class_sound a p [] h e r = absurd (false≢true r)
  class_sound a p (c ∷ s) h e r =
      let (rest, found, m) = class_result_sound c p s (match_class p c) h refl r in
      class e (match_class_sound c p rest found) m

  Matches-nil-only : (p t : Bytes) → p ≡ [] → Matches p t → t ≡ []
  Matches-nil-only p t e done = refl
  Matches-nil-only p t e _ = cc

  escape_sound :
      (a : ℕ) (p s : Bytes)
      → length p < n
      → a ≡ backslash
      → escape_step next a p s ≡ true
      → Matches (a ∷ p) s
  escape_sound a [] s h e r =
      let (c, t, split, same, m) = literal_step_sound a [] s h r in
      rw (split, Matches-nil-only [] t refl m) (backslash_at_end e same)
  escape_sound a (x ∷ p) s h e r =
      let (c, t, split, same, m) = literal_step_sound x p s (omega arith) r in
      rw split (escaped e same m)

  plain_sound :
      (a : ℕ) (p s : Bytes)
      → length p < n
      → IsPlain a
      → literal_step next a p s ≡ true
      → Matches (a ∷ p) s
  plain_sound a p s h e r =
      let (c, t, split, same, m) = literal_step_sound a p s h r in rw split (literal e same m)

  step_sound : (a : ℕ) (p s : Bytes) → length p < n → step next a p s ≡ true → Matches (a ∷ p) s
  unfolding step
  step_sound a p s h r = elim (Bool-cases (a == b'*')) [
    | inl q ↦
        let e = (==_iff _ _).0 q in
        OnSuffix→star e (
          collapse_sound p s
            ((star_step_iff (collapse p) s (omega (arith, length-collapse p))).0 (rw q at r)))
    | inr q ↦ elim (Bool-cases (a == b'?')) [
      | inl q' ↦ any_sound a p s h ((==_iff _ _).0 q') (rw (q, q') at r)
      | inr q' ↦ elim (Bool-cases (a == b'[')) [
        | inl q'' ↦ class_sound a p s h ((==_iff _ _).0 q'') (rw (q, q', q'') at r)
        | inr q'' ↦ elim (Bool-cases (a == backslash)) [
          | inl k ↦ escape_sound a p s h ((==_iff _ _).0 k) (rw (q, q', q'', k) at r)
          | inr k ↦ plain_sound a p s h (ground arith) (rw (q, q', q'', k) at r)
        ]
      ]
    ]
  ]

  step_plain : (a : ℕ) (p s : Bytes) → IsPlain a → step next a p s ≡ literal_step next a p s
  unfolding step
  step_plain a p s (h, k, l, m) = ground arith

  star_complete :
      (a : ℕ) (p s : Bytes) → length p < n → a ≡ b'*' → OnSuffix p s → step next a p s ≡ true
  unfolding step
  star_complete a p s h e m = rw e (
      (star_step_iff (collapse p) s (omega (arith, length-collapse p))).1 (collapse_complete p s m))

  step_complete : (a : ℕ) (p s : Bytes) → length p < n → Matches (a ∷ p) s → step next a p s ≡ true
  unfolding step
  step_complete a p s h (star_skip e m) = star_complete a p s h e (here m)
  step_complete a p s h (star_take e m) = star_complete a p s h e (later (star→OnSuffix e m))
  step_complete a p s h (any e m) = rw e ((ih p _ h).1 m)
  step_complete a p s h (class {c} {rest} e takes m) =
      let k = match_class_complete c p rest takes in
      rw e (rw k ((ih rest _ (omega (arith, match_class-shorter _ p true rest k))).1 m))
  step_complete a p s h (escaped {x} {p = q} {s = t} e k m) =
      rw e (ground (arith, (ih q t (omega arith)).1 m))
  step_complete a p s h (backslash_at_end e k) = rw e (ground (arith, (ih [] [] h).1 done))
  step_complete a p s h (literal {s = t} e k m) =
      step_plain a p _ e ∙ ground (arith, (ih p t h).1 m)

match_here_iff : (f : ℕ) (p s : Bytes) → length p < f → (match_here f p s ≡ true) ↔ Matches p s
unfolding match_here
match_here_iff zero p s h = absurd (omega arith)
match_here_iff (suc f) [] [] h = (λ _. done, λ _. refl)
match_here_iff (suc f) [] (c ∷ s) h = (λ r. absurd (false≢true r), λ m. elim m [ ])
match_here_iff (suc f) (a ∷ p) s h =
    let ih : Decides f (match_here f) = match_here_iff f in
    (
      step_sound f (match_here f) ih a p s (omega arith),
      step_complete f (match_here f) ih a p s (omega arith),
    )

-- `globMatch` answers true exactly on the texts that match the pattern; so its loops end within
-- the fuel, for every pattern and every text.
pub glob_match_iff : (p s : Bytes) → (glob_match p s ≡ true) ↔ Matches p s
unfolding glob_match
glob_match_iff p s = match_here_iff (length p + 1) p s (omega arith)
