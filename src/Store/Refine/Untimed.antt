-- ===== src/Store/Refine/Untimed.antt =====
-- Calls that set no deadline: on entries without one the clock decides nothing
-- (internal/store/store.go).
pub mod Twins
pub mod Idle
use voltkv.Base.{
  ℕ, ◌≡◌, refl, ap, Bool, true, false, Option, none, some, List, [], ◌∷◌, length, Bytes, Bool-cases,
  inl, inr, arith,
}
use voltkv.Base.Int.{ℤ, pos}
use voltkv.Base.Dict.{Dict}
use voltkv.Number.{parse_int64}
use voltkv.Store.Time.{Time, zero_time, is_zero, is_positive}
use voltkv.Store.Entry.{
  Entry, Kind, kind_string, kind_hash, kind_list, kind_eq, string_entry, Result, expired,
}
use voltkv.Store.Shards.{if_live}
use voltkv.Store.Strings.{would_overflow}
use voltkv.Store.Hashes.{set_fields, delete_fields}
use voltkv.Store.Lists.{split_left, split_right}
use voltkv.Store.Refine.{
  Call, set, set_nx, set_xx, get, str_len, del, exists, type_of, persist, ttl, append, get_set,
  incr_by, expire, h_set, h_del, h_get, h_exists, h_get_all, h_keys, h_vals, h_len, l_pop, r_pop,
  l_len, l_push, r_push, l_index, l_range, Reply, done, flag, text, number, integer, test, strings,
  Cell, typed, popped, deleted, added_number, promise, on_absent, on_entry,
}

-- The call sets no deadline.
abbrev pub IsUntimed : Call → Type 0
IsUntimed (set v d) = is_positive d ≡ false
IsUntimed (set_nx v d) = is_positive d ≡ false
IsUntimed (set_xx v d) = is_positive d ≡ false
IsUntimed (expire d) = ⊥
IsUntimed _ = Unit

-- The cell has no deadline.
abbrev pub CellUntimed : Cell → Type 0
CellUntimed none = Unit
CellUntimed (some e) = e.expires_at ≡ zero_time

-- An entry without a deadline is live at any time.
pub live-CellUntimed : (o : Cell) (now : Time) → CellUntimed o → if_live o now ≡ o
unfolding expired
live-CellUntimed none now h = refl
live-CellUntimed (some e) now h = rw h refl

string_entry_untimed :
    (v : Bytes) (d : ℤ) (now : Time)
    → is_positive d ≡ false
    → (string_entry v d now).expires_at ≡ zero_time
unfolding string_entry
string_entry_untimed v d now h = rw h refl

pub string_entry_any :
    (v : Bytes) (d : ℤ) (now later : Time)
    → is_positive d ≡ false
    → string_entry v d now ≡ string_entry v d later
unfolding string_entry
string_entry_any v d now later h = rw h refl

typed-CellUntimed :
    {A : Type 0} (k : Kind) (f : Result A → Reply) (e : Entry) (r : Cell × Reply)
    → e.expires_at ≡ zero_time
    → CellUntimed r.0
    → CellUntimed (typed k f e r).0
typed-CellUntimed k f e r t h = elim (Bool-cases (kind_eq e.kind k)) [
  | inl same ↦ rw same h
  | inr other ↦ rw other t
]

added-CellUntimed :
    (e : Entry) (d : ℤ) (o : Option ℤ)
    → e.expires_at ≡ zero_time
    → CellUntimed (added_number e d o).0
added-CellUntimed e d none t = t
added-CellUntimed e d (some n) t = elim (Bool-cases (would_overflow n d)) [
  | inl over ↦ rw over t
  | inr fine ↦ rw fine t
]

popped-CellUntimed :
    (e : Entry) (o : Option (Bytes × List Bytes))
    → e.expires_at ≡ zero_time
    → CellUntimed (popped e o).0
popped-CellUntimed e none t = t
popped-CellUntimed e (some (v, [])) t = tt
popped-CellUntimed e (some (v, x ∷ l)) t = ground arith

deleted-CellUntimed :
    (e : Entry) (h : Dict Bytes) (n : ℕ)
    → e.expires_at ≡ zero_time
    → CellUntimed (deleted e (h, n)).0
deleted-CellUntimed e [] n t = tt
deleted-CellUntimed e (x ∷ h) n t = ground arith

module _ (now : Time) where
  absent-CellUntimed : (c : Call) → IsUntimed c → CellUntimed (on_absent c now).0
  unfolding on_absent
  absent-CellUntimed (set v d) h = string_entry_untimed v d now h
  absent-CellUntimed (set_nx v d) h = string_entry_untimed v d now h
  absent-CellUntimed (append x) h = refl
  absent-CellUntimed (get_set v) h = refl
  absent-CellUntimed (incr_by d) h = elim (Bool-cases (would_overflow (pos 0) d)) [
    | inl over ↦ rw over tt
    | inr fine ↦ rw fine refl
  ]
  absent-CellUntimed (h_set ps) h = refl
  absent-CellUntimed (l_push vs) h = refl
  absent-CellUntimed (r_push vs) h = refl
  absent-CellUntimed (expire d) h = tt
  absent-CellUntimed _ h = tt

  entry-CellUntimed :
      (c : Call) (e : Entry)
      → IsUntimed c
      → e.expires_at ≡ zero_time
      → CellUntimed (on_entry c now e).0
  unfolding on_entry
  entry-CellUntimed (set v d) e h t = string_entry_untimed v d now h
  entry-CellUntimed (set_xx v d) e h t = string_entry_untimed v d now h
  entry-CellUntimed del e h t = tt
  entry-CellUntimed persist e h t = rw t refl
  entry-CellUntimed (ttl later) e h t = rw t refl
  entry-CellUntimed (append x) e h t = typed-CellUntimed kind_string number e _ t t
  entry-CellUntimed (get_set v) e h t = typed-CellUntimed kind_string text e _ t refl
  entry-CellUntimed (incr_by d) e h t =
      typed-CellUntimed kind_string integer e _ t (added-CellUntimed e d (parse_int64 e.str) t)
  entry-CellUntimed (h_set ps) e h t = typed-CellUntimed kind_hash number e _ t t
  entry-CellUntimed (h_del fs) e h t =
      typed-CellUntimed kind_hash number e _ t
        (deleted-CellUntimed e _ (delete_fields fs e.hash 0).1 t)
  entry-CellUntimed l_pop e h t =
      typed-CellUntimed kind_list text e _ t (popped-CellUntimed e (split_left e.list) t)
  entry-CellUntimed r_pop e h t =
      typed-CellUntimed kind_list text e _ t (popped-CellUntimed e (split_right e.list) t)
  entry-CellUntimed (l_push vs) e h t = typed-CellUntimed kind_list number e _ t t
  entry-CellUntimed (r_push vs) e h t = typed-CellUntimed kind_list number e _ t t
  entry-CellUntimed get e h t = typed-CellUntimed kind_string text e _ t t
  entry-CellUntimed str_len e h t = typed-CellUntimed kind_string number e _ t t
  entry-CellUntimed (h_get f) e h t = typed-CellUntimed kind_hash text e _ t t
  entry-CellUntimed (h_exists f) e h t = typed-CellUntimed kind_hash test e _ t t
  entry-CellUntimed h_get_all e h t = typed-CellUntimed kind_hash strings e _ t t
  entry-CellUntimed h_keys e h t = typed-CellUntimed kind_hash strings e _ t t
  entry-CellUntimed h_vals e h t = typed-CellUntimed kind_hash strings e _ t t
  entry-CellUntimed h_len e h t = typed-CellUntimed kind_hash number e _ t t
  entry-CellUntimed l_len e h t = typed-CellUntimed kind_list number e _ t t
  entry-CellUntimed (l_index i) e h t = typed-CellUntimed kind_list text e _ t t
  entry-CellUntimed (l_range i j) e h t = typed-CellUntimed kind_list strings e _ t t
  entry-CellUntimed (expire d) e h t = absurd h
  entry-CellUntimed _ e h t = t

  -- What an untimed call makes of a cell without a deadline has none.
  pub promise-CellUntimed :
      (c : Call) (o : Cell) → IsUntimed c → CellUntimed o → CellUntimed (promise c now o).0
  unfolding promise
  promise-CellUntimed c none h t = absent-CellUntimed c h
  promise-CellUntimed c (some e) h t = entry-CellUntimed c e h t

-- An untimed call promises the same at any time.
pub promise_any :
    (c : Call) (o : Cell) (now later : Time) → IsUntimed c → promise c now o ≡ promise c later o
unfolding promise on_absent on_entry
promise_any (set v d) none now later h = ap (λ e. (some e, done)) (string_entry_any v d now later h)
promise_any (set v d) (some e) now later h =
    ap (λ e. (some e, done)) (string_entry_any v d now later h)
promise_any (set_nx v d) none now later h =
    ap (λ e. (some e, flag true)) (string_entry_any v d now later h)
promise_any (set_xx v d) (some e) now later h =
    ap (λ e. (some e, flag true)) (string_entry_any v d now later h)
promise_any (expire d) o now later h = absurd h
promise_any c none now later h = refl
promise_any c (some e) now later h = refl
