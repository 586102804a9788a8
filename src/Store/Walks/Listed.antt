-- ===== src/Store/Walks/Listed.antt =====
-- What the walks find in one shard, and how the shards add up (internal/store/store.go).
use voltkv.Base.{
  ℕ, zero, suc, ◌+◌, ◌≡◌, ◌≢◌, ◌<◌, refl, ap, sym, ◌∙◌, Bool, true, false, ◌||◌, Option, none, List,
  [], ◌∷◌, ◌++◌, get_or, Bytes, arith, bytes_eq, bytes_eq_iff, bytes_eq_refl, false≢true, ◌==◌,
  Bool-cases, inl, inr,
}
use voltkv.Base.Dict.{lookup, Distinct}
use voltkv.Store.Entry.{Entry}
use voltkv.Store.Shards.{Shard, shard_index}
use voltkv.Store.Shards.Valid.{AtHome, Homes}
use voltkv.Store.Walks.{gather}

-- Whether a reply lists a key.
abbrev pub contains : List Bytes → Bytes → Bool
contains [] k = false
contains (j ∷ js) k = bytes_eq j k || contains js k

-- No key is listed twice.
abbrev pub NoRepeats : List Bytes → Type 0
NoRepeats [] = Unit
NoRepeats (j ∷ js) = (contains js j ≡ false) × NoRepeats js

pub contains-append :
    (xs ys : List Bytes) (k : Bytes) → contains (xs ++ ys) k ≡ (contains xs k || contains ys k)
contains-append [] ys k = refl
contains-append (x ∷ xs) ys k = ground (arith, contains-append xs ys k)

NoRepeats-append :
    (xs ys : List Bytes)
    → NoRepeats xs
    → NoRepeats ys
    → ((k : Bytes) → contains xs k ≡ true → contains ys k ≡ false)
    → NoRepeats (xs ++ ys)
NoRepeats-append [] ys h k d = k
NoRepeats-append (x ∷ xs) ys h k d = (
  contains-append xs ys x ∙ ground (arith, d x, bytes_eq_refl x),
  NoRepeats-append xs ys h.1 k (λ j m. d j (ground arith)),
)

-- A key of another shard is not in this one.
pub lookup_elsewhere :
    (mask i : ℕ) (k : Bytes) (sh : Shard)
    → AtHome mask i sh
    → shard_index mask k ≢ i
    → lookup k sh ≡ none
unfolding lookup
lookup_elsewhere mask i k [] h d = refl
lookup_elsewhere mask i k ((j, e) ∷ sh) h d =
    ground (arith, lookup_elsewhere mask i k sh h.1 d, bytes_eq_iff j k)

-- A body that lists a key exactly if a test of what the shard holds for it passes.
module _ (mask : ℕ) (f : Shard → List Bytes) (test : Bytes → Option Entry → Bool)
    (exact : (k : Bytes) (sh : Shard) → Distinct sh → contains (f sh) k ≡ test k (lookup k sh))
    (dead : (k : Bytes) → test k none ≡ false)
    (once : (sh : Shard) → Distinct sh → NoRepeats (f sh)) where
  gather_elsewhere :
      (i : ℕ) (k : Bytes) (shs : List Shard)
      → Homes mask i shs
      → shard_index mask k < i
      → contains (gather f shs) k ≡ false
  gather_elsewhere i k [] h lt = refl
  gather_elsewhere i k (sh ∷ shs) (d, a, h) lt =
      contains-append (f sh) (gather f shs) k
      ∙ ground (
        arith,
        exact k sh d,
        lookup_elsewhere mask i k sh a (omega arith),
        dead k,
        gather_elsewhere (suc i) k shs h (omega arith),
      )

  at_most :
      (i : ℕ) (k : Bytes) (sh : Shard)
      → Distinct sh
      → AtHome mask i sh
      → contains (f sh) k ≡ true
      → shard_index mask k < suc i
  at_most i k sh d a m = elim (Bool-cases (shard_index mask k == i)) [
    | inl here ↦ ground arith
    | inr away ↦ absurd (
        false≢true (
          sym (dead k)
          ∙ ap (test k) (sym (lookup_elsewhere mask i k sh a (ground arith)))
          ∙ sym (exact k sh d)
          ∙ m))
  ]

  pub contains-gather :
      (i n : ℕ) (k : Bytes) (shs : List Shard)
      → Homes mask i shs
      → shard_index mask k ≡ i + n
      → contains (gather f shs) k ≡ test k (lookup k (get_or shs n []))
  unfolding lookup
  contains-gather i n k [] h e = sym (dead k)
  contains-gather i zero k (sh ∷ shs) (d, a, h) e =
      contains-append (f sh) (gather f shs) k
      ∙ ground (arith, exact k sh d, gather_elsewhere (suc i) k shs h (omega arith))
  contains-gather i (suc n) k (sh ∷ shs) (d, a, h) e =
      contains-append (f sh) (gather f shs) k
      ∙ ground (
        arith,
        exact k sh d,
        lookup_elsewhere mask i k sh a (omega arith),
        dead k,
        contains-gather (suc i) n k shs h (omega arith),
      )

  pub gather-NoRepeats : (i : ℕ) (shs : List Shard) → Homes mask i shs → NoRepeats (gather f shs)
  gather-NoRepeats i [] h = tt
  gather-NoRepeats i (sh ∷ shs) (d, a, h) =
      NoRepeats-append (f sh) (gather f shs) (once sh d) (gather-NoRepeats (suc i) shs h)
        λ k m. gather_elsewhere (suc i) k shs h (at_most i k sh d a m)
