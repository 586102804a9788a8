-- ===== src/Store/Hashes/Fields.antt =====
-- The loops of `HSet` and `HDel` over the fields (internal/store/store.go).
use voltkv.Base.{
  ℕ, ◌+◌, ◌≡◌, refl, ap, ◌∙◌, Bool, true, false, Option, none, some, List, [], ◌∷◌, length, is_some,
  if◌then◌else◌, Bytes, bytes_eq, arith,
}
use voltkv.Base.Dict
use voltkv.Base.Dict.{
  Dict, Distinct, lookup-insert, length-insert, insert-Distinct, lookup-erase, length-erase,
  erase-Distinct, erase_absent,
}
use voltkv.Store.Hashes.{set_fields, delete_fields}

-- The value that the pairs give a field: that of its last pair, or what it had.
abbrev pub last_value : List (Bytes × Bytes) → Bytes → Option Bytes → Option Bytes
last_value [] f old = old
last_value ((g, v) ∷ pairs) f old = last_value pairs f (if bytes_eq g f then some v else old)

-- After HSET each field has the value of its last pair, and the fields that are not named have what
-- they had; the hash stays well formed, and the count is how many fields it gained.
pub set_fields_lem :
    (pairs : List (Bytes × Bytes)) (hash : Dict Bytes) (n : ℕ)
    → Distinct hash
    → ((f : Bytes)
        → Dict.lookup f (set_fields pairs hash n).0 ≡ last_value pairs f (Dict.lookup f hash))
      × Distinct (set_fields pairs hash n).0
      × (length (set_fields pairs hash n).0 + n ≡ length hash + (set_fields pairs hash n).1)
unfolding set_fields
set_fields_lem [] hash n d = (λ f. refl, d, refl)
set_fields_lem ((g, v) ∷ pairs) hash n d =
    let m = if is_some (Dict.lookup g hash) then n else n + 1 in
    let (values, distinct, count) =
      set_fields_lem pairs (Dict.insert g v hash) m (insert-Distinct g v hash d) in
    (
      λ f. values f ∙ ap (last_value pairs f) (lookup-insert g f v hash),
      distinct,
      ground (arith, length-insert g v hash),
    )

abbrev pub named : Bytes → List Bytes → Bool
named f [] = false
named f (g ∷ fields) = if bytes_eq g f then true else named f fields

-- After HDEL the fields named are gone, the others have what they had, and the count is how many
-- fields the hash lost.
pub delete_fields_lem :
    (fields : List Bytes) (hash : Dict Bytes) (n : ℕ)
    → Distinct hash
    → ((f : Bytes)
        → Dict.lookup f (delete_fields fields hash n).0
          ≡ (if named f fields then none else Dict.lookup f hash))
      × Distinct (delete_fields fields hash n).0
      × (length (delete_fields fields hash n).0 + (delete_fields fields hash n).1 ≡ length hash + n)
unfolding delete_fields
delete_fields_lem [] hash n d = (λ f. refl, d, refl)
delete_fields_lem (g ∷ fields) hash n d =
    let present = is_some (Dict.lookup g hash) in
    let rest = if present then Dict.erase g hash else hash in
    let m = if present then n + 1 else n in
    let e : rest ≡ Dict.erase g hash = ground (arith, erase_absent g hash) in
    let d' : Distinct rest = rw e (erase-Distinct g hash d) in
    let (values, distinct, count) = delete_fields_lem fields rest m d' in
    let gone : length rest + (if present then 1 else 0) ≡ length hash =
      rw e (length-erase g hash d) in
    (
      λ f.
          values f
          ∙ ap (λ h. if named f fields then none else Dict.lookup f h) e
          ∙ ground (arith, lookup-erase g f hash),
      distinct,
      ground arith,
    )
