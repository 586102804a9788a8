-- ===== src/Base/Dict.antt =====
-- Go maps with string keys, as association lists. The order of a list stands for the order in
-- which `range` visits the map, which Go leaves open: what is proved does not rest on it.
use voltkv.Base.{
  ◌+◌, ◌≡◌, refl, Option, none, some, List, [], ◌∷◌, arith, Bytes, bytes_eq, bytes_eq_iff, length,
  is_some, if◌then◌else◌,
}

abbrev pub Dict {ℓ} : Type ℓ → Type ℓ
Dict V = List (Bytes × V)

module _ {ℓ} {V : Type ℓ} where
  -- `v, ok := m[k]`
  unfoldable pub lookup : Bytes → Dict V → Option V
  lookup k [] = none
  lookup k ((j, v) ∷ m) = if bytes_eq j k then some v else lookup k m

  -- `m[k] = v`
  unfoldable pub insert : Bytes → V → Dict V → Dict V
  insert k v [] = (k, v) ∷ []
  insert k v ((j, w) ∷ m) = if bytes_eq j k then (k, v) ∷ m else (j, w) ∷ insert k v m

  -- `delete(m, k)`
  unfoldable pub erase : Bytes → Dict V → Dict V
  erase k [] = []
  erase k ((j, w) ∷ m) = let rest = erase k m in if bytes_eq j k then rest else (j, w) ∷ rest

  -- A map holds a key once.
  abbrev pub Distinct : Dict V → Type ℓ
  Distinct [] = Unit
  Distinct ((k, v) ∷ m) = (lookup k m ≡ none) × Distinct m

  pub lookup-insert :
      (k j : Bytes) (v : V) (m : Dict V)
      → lookup j (insert k v m) ≡ (if bytes_eq k j then some v else lookup j m)
  unfolding lookup insert
  lookup-insert k j v [] = refl
  lookup-insert k j v ((i, w) ∷ m) =
      ground (arith, bytes_eq_iff k j, bytes_eq_iff i k, bytes_eq_iff i j, lookup-insert k j v m)

  pub lookup-erase :
      (k j : Bytes) (m : Dict V)
      → lookup j (erase k m) ≡ (if bytes_eq k j then none else lookup j m)
  unfolding lookup erase
  lookup-erase k j [] = ground arith
  lookup-erase k j ((i, w) ∷ m) =
      ground (arith, bytes_eq_iff k j, bytes_eq_iff i k, bytes_eq_iff i j, lookup-erase k j m)

  pub insert-Distinct : (k : Bytes) (v : V) (m : Dict V) → Distinct m → Distinct (insert k v m)
  unfolding lookup insert
  insert-Distinct k v [] h = (refl, tt)
  insert-Distinct k v ((j, w) ∷ m) (f, d) =
      ground
        (arith, bytes_eq_iff j k, bytes_eq_iff k j, lookup-insert k j v m, insert-Distinct k v m d)

  pub erase-Distinct : (k : Bytes) (m : Dict V) → Distinct m → Distinct (erase k m)
  unfolding lookup erase
  erase-Distinct k [] h = tt
  erase-Distinct k ((j, w) ∷ m) (f, d) = ground (arith, lookup-erase k j m, erase-Distinct k m d)

  pub length-insert :
      (k : Bytes) (v : V) (m : Dict V)
      → length (insert k v m) ≡ (if is_some (lookup k m) then length m else length m + 1)
  unfolding lookup insert
  length-insert k v [] = refl
  length-insert k v ((j, w) ∷ m) = ground (arith, length-insert k v m)

  pub erase_absent : (k : Bytes) (m : Dict V) → lookup k m ≡ none → erase k m ≡ m
  unfolding lookup erase
  erase_absent k [] h = refl
  erase_absent k ((j, w) ∷ m) h = ground (arith, erase_absent k m)

  pub length-erase :
      (k : Bytes) (m : Dict V)
      → Distinct m
      → length (erase k m) + (if is_some (lookup k m) then 1 else 0) ≡ length m
  unfolding lookup erase
  length-erase k [] h = refl
  length-erase k ((j, w) ∷ m) (f, d) =
      ground (arith, length-erase k m d, erase_absent k m, bytes_eq_iff j k)
