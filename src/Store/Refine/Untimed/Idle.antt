-- ===== src/Store/Refine/Untimed/Idle.antt =====
-- The replies that tell that a method changed nothing, and what GETSET and INCR store
-- (internal/store/store.go).
use voltkv.Base.{
  ℕ, ◌+◌, ◌<◌, ◌≡◌, refl, subst, ap, ◌∙◌, false, Option, none, some, List, [], ◌∷◌, length, ◌≤◌,
  ◌⊎◌, Bytes, arith, Bool-cases, inl, inr,
}
use voltkv.Base.Int.{ℤ, pos, ◌+ℤ◌}
use voltkv.Base.Dict.{Dict, erase}
use voltkv.Number.{format_int, parse_int64}
use voltkv.Store.Time.{Time, zero_time}
use voltkv.Store.Entry.{
  Entry, kind_string, kind_hash, kind_eq, string_entry, StoreError, Result, ok, err,
}
use voltkv.Store.Strings.{would_overflow}
use voltkv.Store.Hashes.{delete_fields}
use voltkv.Store.Lists.{split_left, split_right}
use voltkv.Store.Refine.{
  Call, set_nx, set_xx, get, str_len, del, persist, append, get_set, incr_by, h_set, h_del, l_pop,
  r_pop, l_push, r_push, Reply, flag, text, number, integer, Cell, added_number, popped, deleted,
  promise, on_absent, on_entry,
}
use voltkv.Store.Refine.Typed.{CellTyped, Contents, IsTyped, of_kind}
use voltkv.Store.Refine.Untimed.{CellUntimed}

-- The call leaves the cell, if it replies so.
abbrev pub Idle : Call → Reply → Type 0
Idle c r =
    (o : Cell) (now : Time)
    → CellTyped o
    → CellUntimed o
    → (promise c now o).1 ≡ r
    → (promise c now o).0 ≡ o

pub set_nx-Idle : (v : Bytes) (d : ℤ) → Idle (set_nx v d) (flag false)
unfolding promise on_absent on_entry
set_nx-Idle v d none now t u h = ground arith
set_nx-Idle v d (some e) now t u h = refl

pub set_xx-Idle : (v : Bytes) (d : ℤ) → Idle (set_xx v d) (flag false)
unfolding promise on_absent on_entry
set_xx-Idle v d none now t u h = refl
set_xx-Idle v d (some e) now t u h = ground arith

pub append-Idle : (x : Bytes) (e : StoreError) → Idle (append x) (number (err e))
unfolding promise on_absent on_entry
append-Idle x e none now t u h = ground arith
append-Idle x e (some c) now t u h = ground arith

pub get-Idle : (r : Reply) → Idle get r
unfolding promise on_absent on_entry
get-Idle r none now t u h = refl
get-Idle r (some e) now t u h = ground arith

pub str_len-Idle : (r : Reply) → Idle str_len r
unfolding promise on_absent on_entry
str_len-Idle r none now t u h = refl
str_len-Idle r (some e) now t u h = ground arith

pub persist-Idle : (r : Reply) → Idle persist r
unfolding promise on_absent on_entry
persist-Idle r none now t u h = refl
persist-Idle r (some e) now t u h = ground arith

pub del-Idle : Idle del (flag false)
unfolding promise on_absent on_entry
del-Idle none now t u h = refl
del-Idle (some e) now t u h = ground arith

pub get_set-Idle : (v : Bytes) (e : StoreError) → Idle (get_set v) (text (err e))
unfolding promise on_absent on_entry
get_set-Idle v e none now t u h = ground arith
get_set-Idle v e (some c) now t u h = ground arith

pub h_set-Idle : (ps : List (Bytes × Bytes)) (e : StoreError) → Idle (h_set ps) (number (err e))
unfolding promise on_absent on_entry
h_set-Idle ps e none now t u h = ground arith
h_set-Idle ps e (some c) now t u h = ground arith

pub l_push-Idle : (vs : List Bytes) (e : StoreError) → Idle (l_push vs) (number (err e))
unfolding promise on_absent on_entry
l_push-Idle vs e none now t u h = ground arith
l_push-Idle vs e (some c) now t u h = ground arith

pub r_push-Idle : (vs : List Bytes) (e : StoreError) → Idle (r_push vs) (number (err e))
unfolding promise on_absent on_entry
r_push-Idle vs e none now t u h = ground arith
r_push-Idle vs e (some c) now t u h = ground arith

added_idle :
    (c : Entry) (d : ℤ) (o : Option ℤ) (e : StoreError)
    → (added_number c d o).1 ≡ integer (err e)
    → (added_number c d o).0 ≡ some c
added_idle c d none e h = refl
added_idle c d (some n) e h = ground arith

pub incr_by-Idle : (d : ℤ) (e : StoreError) → Idle (incr_by d) (integer (err e))
unfolding promise on_absent on_entry
incr_by-Idle d e none now t u h = ground arith
incr_by-Idle d e (some c) now t u h = ground (arith, added_idle c d (parse_int64 c.str) e)

popped_idle :
    (c : Entry) (o : Option (Bytes × List Bytes)) (r : Result (Option Bytes))
    → r ≡ ok none ⊎ ((e : StoreError) × (r ≡ err e))
    → (popped c o).1 ≡ text r
    → (popped c o).0 ≡ some c
popped_idle c none r i h = refl
popped_idle c (some (v, l)) r (inl i) h = ground arith
popped_idle c (some (v, l)) r (inr (e, i)) h = ground arith

module _ (r : Result (Option Bytes)) (i : r ≡ ok none ⊎ ((e : StoreError) × (r ≡ err e))) where
  pub l_pop-Idle : Idle l_pop (text r)
  unfolding promise on_absent on_entry
  l_pop-Idle none now t u h = refl
  l_pop-Idle (some c) now t u h = ground (arith, popped_idle c (split_left c.list) r i)

  pub r_pop-Idle : Idle r_pop (text r)
  unfolding promise on_absent on_entry
  r_pop-Idle none now t u h = refl
  r_pop-Idle (some c) now t u h = ground (arith, popped_idle c (split_right c.list) r i)

delete_fields_le : (fs : List Bytes) (h : Dict Bytes) (n : ℕ) → n ≤ (delete_fields fs h n).1
unfolding delete_fields
delete_fields_le [] h n = omega arith
delete_fields_le (f ∷ fs) h n =
    ground (arith, delete_fields_le fs (erase f h) (n + 1), delete_fields_le fs h n)

delete_fields_idle :
    (fs : List Bytes) (h : Dict Bytes) (n : ℕ)
    → (delete_fields fs h n).1 ≡ n
    → (delete_fields fs h n).0 ≡ h
unfolding delete_fields
delete_fields_idle [] h n e = refl
delete_fields_idle (f ∷ fs) h n e =
    ground (arith, delete_fields_le fs (erase f h) (n + 1), delete_fields_idle fs h n)

deleted_idle :
    (c : Entry) (r : Dict Bytes × ℕ) → 0 < length c.hash → r.0 ≡ c.hash → (deleted c r).0 ≡ some c
deleted_idle c (h, n) lt e = rw e (ground arith)

pub h_del-Idle : (fs : List Bytes) → Idle (h_del fs) (number (ok 0))
unfolding promise on_absent on_entry
h_del-Idle fs none now t u h = refl
h_del-Idle fs (some c) now t u h = elim (Bool-cases (kind_eq c.kind kind_hash)) [
  | inr other ↦ rw other refl
  | inl same ↦
      let (_, _, filled, _) : Contents kind_hash c.str c.hash c.list =
        subst (λ k. Contents k c.str c.hash c.list) (of_kind c.kind kind_hash same) t in
      let none_gone : (delete_fields fs c.hash 0).1 ≡ 0 = ground arith in
      rw same (
        deleted_idle c (delete_fields fs c.hash 0) filled
          (delete_fields_idle fs c.hash 0 none_gone))
]

pub h_del_err-Idle : (fs : List Bytes) (e : StoreError) → Idle (h_del fs) (number (err e))
unfolding promise on_absent on_entry
h_del_err-Idle fs e none now t u h = refl
h_del_err-Idle fs e (some c) now t u h = ground arith

-- GETSET that replies with the old value stores what a plain SET stores.
pub get_set-Stores :
    (v : Bytes) (o : Cell) (old : Option Bytes) (now later : Time)
    → (promise (get_set v) now o).1 ≡ text (ok old)
    → (promise (get_set v) now o).0 ≡ some (string_entry v (pos 0) later)
unfolding promise on_absent on_entry string_entry
get_set-Stores v none old now later h = refl
get_set-Stores v (some c) old now later h = ground arith

-- The entry of a string without a deadline.
with_text_plain :
    (c : Entry) (v : Bytes) (later : Time)
    → IsTyped c
    → c.kind ≡ kind_string
    → c.expires_at ≡ zero_time
    → record c { str = v } ≡ string_entry v (pos 0) later
unfolding string_entry
with_text_plain c v later t q u =
    let (no_hash, no_list) : Contents kind_string c.str c.hash c.list =
      subst (λ k. Contents k c.str c.hash c.list) q t in
    rw (q, u, no_hash, no_list) refl

added_stores :
    (c : Entry) (d : ℤ) (o : Option ℤ) (n : ℤ)
    → (added_number c d o).1 ≡ integer (ok n)
    → (added_number c d o).0 ≡ some (record c { str = format_int n })
added_stores c d none n h = ground arith
added_stores c d (some m) n h = elim (Bool-cases (would_overflow m d)) [
  | inl over ↦ ground arith
  | inr fine ↦ let sum : m +ℤ d ≡ n = ground arith in rw (fine, sum) refl
]

-- INCR that replies with a number stores what a plain SET of its digits stores.
pub incr_by-Stores :
    (d n : ℤ) (o : Cell) (now later : Time)
    → CellTyped o
    → CellUntimed o
    → (promise (incr_by d) now o).1 ≡ integer (ok n)
    → (promise (incr_by d) now o).0 ≡ some (string_entry (format_int n) (pos 0) later)
unfolding promise on_absent on_entry string_entry
incr_by-Stores d n none now later t u h = ground arith
incr_by-Stores d n (some c) now later t u h = elim (Bool-cases (kind_eq c.kind kind_string)) [
  | inr other ↦ ground arith
  | inl same ↦
      let went : (added_number c d (parse_int64 c.str)).1 ≡ integer (ok n) = ground arith in
      rw same (
        added_stores c d (parse_int64 c.str) n went
        ∙ ap some (with_text_plain c (format_int n) later t (of_kind c.kind kind_string same) u))
]
