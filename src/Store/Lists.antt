-- ===== src/Store/Lists.antt =====
-- The list methods of the store (internal/store/store.go).
pub mod Ends
pub mod Slices
use voltkv.Base.{
  ℕ, zero, suc, ◌+◌, ◌-◌, ◌==◌, Bool, true, false, not, ◌||◌, Option, none, some, List, [], ◌∷◌,
  ◌++◌, length, get_elem?, take, drop, ltb, leb, if◌then◌else◌, Bytes,
}
use voltkv.Base.Int.{ℤ, pos, negsuc, pos_part, ltb_ℤ, ◌+ℤ◌, ◌-ℤ◌}
use voltkv.Store.Time.{Time}
use voltkv.Store.Entry.{Entry, kind_list, kind_eq, empty_entry, Result, ok, err, wrong_type}
use voltkv.Store.Shards.{Store, get_live, write, remove}

-- The loop of `LPush`: each value goes to the front, so the last ends up first.
unfoldable pub prepend : List Bytes → List Bytes → List Bytes
prepend [] list = list
prepend (v ∷ values) list = prepend values (v ∷ list)

-- What both pushes do with the live entry or a new one.
abbrev pub push_with : (List Bytes → List Bytes) → Bytes → Time → Store → Store × Result ℕ
push_with grow key now s = elim (get_live s key now) [
  | none ↦ (write s key (record (empty_entry kind_list) { list = grow [] }), ok (length (grow [])))
  | some e ↦
      if not (kind_eq e.kind kind_list)
      then (s, err wrong_type)
      else (write s key (record e { list = grow e.list }), ok (length (grow e.list)))
]

-- `LPush`.
unfoldable pub l_push : Bytes → List Bytes → Time → Store → Store × Result ℕ
l_push key values now s = push_with (prepend values) key now s

-- `RPush`.
unfoldable pub r_push : Bytes → List Bytes → Time → Store → Store × Result ℕ
r_push key values now s = push_with (λ list. list ++ values) key now s

-- The first or the last element, and the rest.
unfoldable pub split_left : List Bytes → Option (Bytes × List Bytes)
split_left [] = none
split_left (v ∷ list) = some (v, list)

unfoldable pub split_right : List Bytes → Option (Bytes × List Bytes)
split_right [] = none
split_right (v ∷ list) = elim (split_right list) [
  | none ↦ some (v, [])
  | some (last, front) ↦ some (last, v ∷ front)
]

abbrev pub pop_from :
    Bytes → Store → Entry → Option (Bytes × List Bytes) → Store × Result (Option Bytes)
pop_from key s e none = (s, ok none)
pop_from key s e (some (v, list)) =
    (if length list == 0 then remove s key else write s key (record e { list = list }), ok (some v))

-- `pop`.
unfoldable pub pop : Bytes → Bool → Time → Store → Store × Result (Option Bytes)
pop key left now s = elim (get_live s key now) [
  | none ↦ (s, ok none)
  | some e ↦
      if not (kind_eq e.kind kind_list)
      then (s, err wrong_type)
      else pop_from key s e (if left then split_left e.list else split_right e.list)
]

-- `LPop` and `RPop`.
unfoldable pub l_pop : Bytes → Time → Store → Store × Result (Option Bytes)
unfolding pop
l_pop key now s = pop key true now s

unfoldable pub r_pop : Bytes → Time → Store → Store × Result (Option Bytes)
unfolding pop
r_pop key now s = pop key false now s

abbrev pub read_list {ℓ} : {A : Type ℓ} → Bytes → Time → Store → A → (List Bytes → A) → Result A
read_list key now s absent f = elim (get_live s key now) [
  | none ↦ ok absent
  | some e ↦ if not (kind_eq e.kind kind_list) then err wrong_type else ok (f e.list)
]

-- `LLen`.
unfoldable pub l_len : Bytes → Time → Store → Result ℕ
l_len key now s = read_list key now s 0 length

-- `normalizeIndex`.
unfoldable pub normalize_index : ℤ → ℕ → ℤ
unfolding ◌+ℤ◌
normalize_index i length = if ltb_ℤ i (pos 0) then pos length +ℤ i else i

-- `e.list[i]` behind the bounds test of `LIndex`.
abbrev pub element : List Bytes → ℤ → Option Bytes
element list (negsuc n) = none
element list (pos n) = get_elem? list n

unfoldable pub index_list : ℤ → List Bytes → Option Bytes
unfolding normalize_index
index_list index list = element list (normalize_index index (length list))

-- `LIndex`.
unfoldable pub l_index : Bytes → ℤ → Time → Store → Result (Option Bytes)
unfolding index_list
l_index key index now s = read_list key now s none (index_list index)

-- `if lo < 0 { lo = 0 }` and `if hi >= n { hi = n - 1 }`.
unfoldable pub clamp_low : ℤ → ℤ
clamp_low lo = if ltb_ℤ lo (pos 0) then pos 0 else lo

unfoldable pub clamp_high : ℤ → ℕ → ℤ
unfolding ◌-ℤ◌
clamp_high hi n = if ltb_ℤ hi (pos n) then hi else pos n -ℤ pos 1

-- The slice from `lo` to `hi`, both in it.
unfoldable pub slice_between : ℤ → ℤ → List Bytes → List Bytes
unfolding ◌-ℤ◌ ◌+ℤ◌
slice_between lo hi list =
    if ltb_ℤ hi lo || length list == 0
    then []
    else take (pos_part (hi -ℤ lo +ℤ pos 1)) (drop (pos_part lo) list)

-- The slice `LRange` returns.
unfoldable pub slice_list : ℤ → ℤ → List Bytes → List Bytes
unfolding normalize_index clamp_low clamp_high slice_between
slice_list start stop list =
    let n = length list in
    slice_between (clamp_low (normalize_index start n)) (clamp_high (normalize_index stop n) n) list

-- `LRange`.
unfoldable pub l_range : Bytes → ℤ → ℤ → Time → Store → Result (List Bytes)
unfolding slice_list
l_range key start stop now s = read_list key now s [] (slice_list start stop)
