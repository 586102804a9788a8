-- ===== src/Store/Strings.antt =====
-- The string methods of the store (internal/store/store.go).
pub mod Bounds
use voltkv.Base.{
  ◌≡◌, Bool, true, false, ◌&&◌, ◌||◌, not, Option, none, some, ◌++◌, length, is_some, if◌then◌else◌,
  Bytes, ℕ, [],
}
use voltkv.Base.Int.{ℤ, pos, ltb_ℤ, ◌+ℤ◌, ◌-ℤ◌}
use voltkv.Number.{parse_int64, format_int, max_int64, min_int64}
use voltkv.Store.Time.{Time, Duration}
use voltkv.Store.Entry.{
  Entry, Kind, kind_string, kind_eq, empty_entry, expired, string_entry, Result, ok, err,
  StoreError, wrong_type, not_integer, overflow,
}
use voltkv.Store.Shards.{Store, entry_at, get_live, write, remove}

-- `Set`.
unfoldable pub set : Bytes → Bytes → Duration → Time → Store → Store
set key value ttl now s = write s key (string_entry value ttl now)

-- `SetNX`.
unfoldable pub set_nx : Bytes → Bytes → Duration → Time → Store → Store × Bool
set_nx key value ttl now s =
    if is_some (get_live s key now)
    then (s, false)
    else (write s key (string_entry value ttl now), true)

-- `SetXX`.
unfoldable pub set_xx : Bytes → Bytes → Duration → Time → Store → Store × Bool
set_xx key value ttl now s =
    if is_some (get_live s key now)
    then (write s key (string_entry value ttl now), true)
    else (s, false)

-- `lazyDelete`; the store may have changed since the caller looked.
unfoldable pub lazy_delete : Bytes → Time → Store → Store
lazy_delete key now s = elim (entry_at s key) [
  | none ↦ s
  | some cur ↦ if expired cur now then remove s key else s
]

-- `Get` on what it read under the read lock.
abbrev pub get_read : Bytes → Time → Store → Option Entry → Store × Result (Option Bytes)
get_read key now s none = (s, ok none)
get_read key now s (some e) =
    if expired e now
    then (lazy_delete key now s, ok none)
    else if not (kind_eq e.kind kind_string)
    then (s, err wrong_type)
    else (s, ok (some e.str))

-- `Get`.
unfoldable pub get : Bytes → Time → Store → Store × Result (Option Bytes)
get key now s = get_read key now s (entry_at s key)

-- The assignment at the end of `Append`, to the live entry or a new one.
abbrev pub append_to : Bytes → Bytes → Store → Entry → Store × Result ℕ
append_to key suffix s e =
    let str = e.str ++ suffix in (write s key (record e { str = str }), ok (length str))

-- `Append`.
unfoldable pub append : Bytes → Bytes → Time → Store → Store × Result ℕ
append key suffix now s = elim (get_live s key now) [
  | none ↦ append_to key suffix s (empty_entry kind_string)
  | some e ↦
      if not (kind_eq e.kind kind_string) then (s, err wrong_type) else append_to key suffix s e
]

-- `GetSet`.
unfoldable pub get_set : Bytes → Bytes → Time → Store → Store × Result (Option Bytes)
get_set key value now s =
    let plain = write s key (record (empty_entry kind_string) { str = value }) in
    elim (get_live s key now) [
      | none ↦ (plain, ok none)
      | some e ↦
          if not (kind_eq e.kind kind_string) then (s, err wrong_type) else (plain, ok (some e.str))
    ]

abbrev pub length_of : Result (Option Bytes) → Result ℕ
length_of (ok (some v)) = ok (length v)
length_of (ok none) = ok 0
length_of (err e) = err e

-- `StrLen`.
unfoldable pub str_len : Bytes → Time → Store → Store × Result ℕ
unfolding get
str_len key now s = let (s', r) = get key now s in (s', length_of r)

-- The overflow guard of `IncrBy`.
unfoldable pub would_overflow : ℤ → ℤ → Bool
unfolding ◌-ℤ◌
would_overflow cur delta =
    ltb_ℤ (pos 0) delta && ltb_ℤ (max_int64 -ℤ delta) cur
    || ltb_ℤ delta (pos 0) && ltb_ℤ cur (min_int64 -ℤ delta)

-- `IncrBy` from the guard on, at the entry `e` whose number is `cur`.
abbrev pub add_to : Bytes → ℤ → Store → Entry → ℤ → Store × Result ℤ
add_to key delta s e cur =
    if would_overflow cur delta
    then (s, err overflow)
    else let sum = cur +ℤ delta in (write s key (record e { str = format_int sum }), ok sum)

abbrev pub add_parsed : Bytes → ℤ → Store → Entry → Option ℤ → Store × Result ℤ
add_parsed key delta s e none = (s, err not_integer)
add_parsed key delta s e (some n) = add_to key delta s e n

-- `IncrBy`.
unfoldable pub incr_by : Bytes → ℤ → Time → Store → Store × Result ℤ
incr_by key delta now s = elim (get_live s key now) [
  | none ↦ add_to key delta s (empty_entry kind_string) (pos 0)
  | some e ↦
      if not (kind_eq e.kind kind_string)
      then (s, err wrong_type)
      else add_parsed key delta s e (parse_int64 e.str)
]
