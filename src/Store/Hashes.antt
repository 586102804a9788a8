-- ===== src/Store/Hashes.antt =====
-- The hash methods of the store (internal/store/store.go).
pub mod Fields
use voltkv.Base.{
  ℕ, zero, suc, ◌+◌, ◌==◌, Bool, true, false, not, Option, none, some, List, [], ◌∷◌, length,
  is_some, if◌then◌else◌, Bytes,
}
use voltkv.Base.Dict
use voltkv.Base.Dict.{Dict}
use voltkv.Store.Time.{Time}
use voltkv.Store.Entry.{Entry, kind_hash, kind_eq, empty_entry, Result, ok, err, wrong_type}
use voltkv.Store.Shards.{Store, get_live, write, remove}

-- The loop of `HSet` over the pairs: the fields, and how many are new.
unfoldable pub set_fields : List (Bytes × Bytes) → Dict Bytes → ℕ → Dict Bytes × ℕ
set_fields [] hash added = (hash, added)
set_fields ((f, v) ∷ pairs) hash added =
    set_fields pairs (Dict.insert f v hash)
      (if is_some (Dict.lookup f hash) then added else added + 1)

abbrev pub h_set_into : Bytes → List (Bytes × Bytes) → Store → Entry → Store × Result ℕ
h_set_into key pairs s e =
    let (hash, added) = set_fields pairs e.hash 0 in
    (write s key (record e { hash = hash }), ok added)

-- `HSet`.
unfoldable pub h_set : Bytes → List (Bytes × Bytes) → Time → Store → Store × Result ℕ
h_set key pairs now s = elim (get_live s key now) [
  | none ↦ h_set_into key pairs s (empty_entry kind_hash)
  | some e ↦
      if not (kind_eq e.kind kind_hash) then (s, err wrong_type) else h_set_into key pairs s e
]

-- The loop of `HDel` over the fields: what is left, and how many went.
unfoldable pub delete_fields : List Bytes → Dict Bytes → ℕ → Dict Bytes × ℕ
delete_fields [] hash removed = (hash, removed)
delete_fields (f ∷ fields) hash removed =
    let present = is_some (Dict.lookup f hash) in
    delete_fields fields (if present then Dict.erase f hash else hash)
      (if present then removed + 1 else removed)

abbrev pub h_del_from : Bytes → List Bytes → Store → Entry → Store × Result ℕ
h_del_from key fields s e =
    let (hash, removed) = delete_fields fields e.hash 0 in
    (if length hash == 0 then remove s key else write s key (record e { hash = hash }), ok removed)

-- `HDel`.
unfoldable pub h_del : Bytes → List Bytes → Time → Store → Store × Result ℕ
h_del key fields now s = elim (get_live s key now) [
  | none ↦ (s, ok 0)
  | some e ↦
      if not (kind_eq e.kind kind_hash) then (s, err wrong_type) else h_del_from key fields s e
]

-- What the reading methods share: `absent` for a dead key, an error for another kind, and a
-- function of the fields.
abbrev pub read_hash {ℓ} : {A : Type ℓ} → Bytes → Time → Store → A → (Dict Bytes → A) → Result A
read_hash key now s absent f = elim (get_live s key now) [
  | none ↦ ok absent
  | some e ↦ if not (kind_eq e.kind kind_hash) then err wrong_type else ok (f e.hash)
]

-- `HGet`.
unfoldable pub h_get : Bytes → Bytes → Time → Store → Result (Option Bytes)
h_get key field now s = read_hash key now s none (Dict.lookup field)

abbrev pub flattened : Dict Bytes → List Bytes
flattened [] = []
flattened ((f, v) ∷ hash) = f ∷ v ∷ flattened hash

abbrev pub fields_of : Dict Bytes → List Bytes
fields_of [] = []
fields_of ((f, v) ∷ hash) = f ∷ fields_of hash

abbrev pub values_of : Dict Bytes → List Bytes
values_of [] = []
values_of ((f, v) ∷ hash) = v ∷ values_of hash

-- `HGetAll`.
unfoldable pub h_get_all : Bytes → Time → Store → Result (List Bytes)
h_get_all key now s = read_hash key now s [] flattened

-- `HKeys`.
unfoldable pub h_keys : Bytes → Time → Store → Result (List Bytes)
h_keys key now s = read_hash key now s [] fields_of

-- `HVals`.
unfoldable pub h_vals : Bytes → Time → Store → Result (List Bytes)
h_vals key now s = read_hash key now s [] values_of

-- `HLen`.
unfoldable pub h_len : Bytes → Time → Store → Result ℕ
h_len key now s = read_hash key now s 0 length

-- `HExists`.
unfoldable pub h_exists : Bytes → Bytes → Time → Store → Result Bool
h_exists key field now s = read_hash key now s false (λ hash. is_some (Dict.lookup field hash))
