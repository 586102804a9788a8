-- ===== src/Store/Refine.antt =====
-- The methods on one key as calls with replies, and what each promises for a plain map from keys to
-- entries, with no shards, no hashing and no expired entries in it (internal/store/store.go).
pub mod Steps
pub mod Traces
pub mod Errors
pub mod Expiry
pub mod Typed
pub mod Untimed
use voltkv.Base.{
  ℕ, ◌+◌, ◌==◌, Bool, true, false, not, Option, none, some, List, [], ◌∷◌, ◌++◌, reverse, length,
  is_some, if◌then◌else◌, Bytes, bytes_eq,
}
use voltkv.Base.Int.{ℤ, pos, ◌+ℤ◌}
use voltkv.Base.Dict
use voltkv.Base.Dict.{Dict}
use voltkv.Number.{parse_int64, format_int}
use voltkv.Store.Time.{Time, Duration, zero_time, is_zero, add, until}
use voltkv.Store.Entry.{
  Entry, Kind, kind_none, kind_string, kind_hash, kind_list, kind_eq, empty_entry, string_entry,
  StoreError, Result, ok, err, wrong_type, not_integer, overflow,
}
use voltkv.Store.Shards.{Store, if_live}
use voltkv.Store.Strings
use voltkv.Store.Strings.{would_overflow}
use voltkv.Store.Generic
use voltkv.Store.Generic.{Remaining, no_key, no_expiry, left}
use voltkv.Store.Hashes
use voltkv.Store.Hashes.{set_fields, delete_fields, flattened, fields_of, values_of}
use voltkv.Store.Lists
use voltkv.Store.Lists.{split_left, split_right, index_list, slice_list}

pub data Call : Type 0 where
  set set_nx set_xx : Bytes → Duration → Call
  get str_len del exists type_of persist : Call
  ttl : Time → Call
  append get_set : Bytes → Call
  incr_by : ℤ → Call
  expire : Duration → Call
  h_set : List (Bytes × Bytes) → Call
  h_del : List Bytes → Call
  h_get h_exists : Bytes → Call
  h_get_all h_keys h_vals h_len l_pop r_pop l_len : Call
  l_push r_push : List Bytes → Call
  l_index : ℤ → Call
  l_range : ℤ → ℤ → Call

pub data Reply : Type 0 where
  done : Reply
  flag : Bool → Reply
  text : Result (Option Bytes) → Reply
  number : Result ℕ → Reply
  integer : Result ℤ → Reply
  strings : Result (List Bytes) → Reply
  test : Result Bool → Reply
  kind : Kind → Reply
  remaining : Remaining → Reply

abbrev with_reply {ℓ} : {A : Type ℓ} → (A → Reply) → Store × A → Store × Reply
with_reply f (s, a) = (s, f a)

-- The methods of the store, on `key` at `now`.
unfoldable pub run : Call → Bytes → Time → Store → Store × Reply
run (set v d) k now s = (Strings.set k v d now s, done)
run (set_nx v d) k now s = with_reply flag (Strings.set_nx k v d now s)
run (set_xx v d) k now s = with_reply flag (Strings.set_xx k v d now s)
run get k now s = with_reply text (Strings.get k now s)
run str_len k now s = with_reply number (Strings.str_len k now s)
run del k now s = with_reply flag (Generic.del k now s)
run exists k now s = (s, flag (Generic.exists k now s))
run type_of k now s = (s, kind (Generic.type_of k now s))
run persist k now s = with_reply flag (Generic.persist k now s)
run (ttl later) k now s = (s, remaining (Generic.ttl k now later s))
run (append x) k now s = with_reply number (Strings.append k x now s)
run (get_set v) k now s = with_reply text (Strings.get_set k v now s)
run (incr_by d) k now s = with_reply integer (Strings.incr_by k d now s)
run (expire d) k now s = with_reply flag (Generic.expire k d now s)
run (h_set ps) k now s = with_reply number (Hashes.h_set k ps now s)
run (h_del fs) k now s = with_reply number (Hashes.h_del k fs now s)
run (h_get f) k now s = (s, text (Hashes.h_get k f now s))
run (h_exists f) k now s = (s, test (Hashes.h_exists k f now s))
run h_get_all k now s = (s, strings (Hashes.h_get_all k now s))
run h_keys k now s = (s, strings (Hashes.h_keys k now s))
run h_vals k now s = (s, strings (Hashes.h_vals k now s))
run h_len k now s = (s, number (Hashes.h_len k now s))
run l_pop k now s = with_reply text (Lists.l_pop k now s)
run r_pop k now s = with_reply text (Lists.r_pop k now s)
run l_len k now s = (s, number (Lists.l_len k now s))
run (l_push vs) k now s = with_reply number (Lists.l_push k vs now s)
run (r_push vs) k now s = with_reply number (Lists.r_push k vs now s)
run (l_index i) k now s = (s, text (Lists.l_index k i now s))
run (l_range i j) k now s = (s, strings (Lists.l_range k i j now s))

-- What a cell of the plain map becomes, and the reply. The cell holds nothing or a live entry.
abbrev pub Cell : Type 0
Cell = Option Entry

-- A call on an entry of one kind: another kind is an error and changes nothing.
abbrev pub typed {ℓ} :
    {A : Type ℓ} → Kind → (Result A → Reply) → Entry → Cell × Reply → Cell × Reply
typed k f e result = if kind_eq e.kind k then result else (some e, f (err wrong_type))

abbrev with_text : Entry → Bytes → Entry
with_text e v = record e { str = v }

abbrev with_table : Entry → Dict Bytes → Entry
with_table e h = record e { hash = h }

abbrev with_items : Entry → List Bytes → Entry
with_items e l = record e { list = l }

-- An entry that would be empty goes away.
abbrev pub unless_empty : ℕ → Entry → Cell
unless_empty size e = if size == 0 then none else some e

abbrev pub added_number : Entry → ℤ → Option ℤ → Cell × Reply
added_number e d none = (some e, integer (err not_integer))
added_number e d (some n) =
    if would_overflow n d
    then (some e, integer (err overflow))
    else (some (with_text e (format_int (n +ℤ d))), integer (ok (n +ℤ d)))

abbrev pub popped : Entry → Option (Bytes × List Bytes) → Cell × Reply
popped e none = (some e, text (ok none))
popped e (some (v, l)) = (unless_empty (length l) (with_items e l), text (ok (some v)))

abbrev pub deleted : Entry → Dict Bytes × ℕ → Cell × Reply
deleted e (h, n) = (unless_empty (length h) (with_table e h), number (ok n))

abbrev pub merged : Entry → Dict Bytes × ℕ → Cell × Reply
merged e (h, n) = (some (with_table e h), number (ok n))

-- What each call promises where the key is absent.
pub on_absent : Call → Time → Cell × Reply
on_absent (set v d) now = (some (string_entry v d now), done)
on_absent (set_nx v d) now = (some (string_entry v d now), flag true)
on_absent (set_xx v d) now = (none, flag false)
on_absent get now = (none, text (ok none))
on_absent str_len now = (none, number (ok 0))
on_absent del now = (none, flag false)
on_absent exists now = (none, flag false)
on_absent type_of now = (none, kind kind_none)
on_absent persist now = (none, flag false)
on_absent (ttl later) now = (none, remaining no_key)
on_absent (append x) now = (some (with_text (empty_entry kind_string) x), number (ok (length x)))
on_absent (get_set v) now = (some (with_text (empty_entry kind_string) v), text (ok none))
on_absent (incr_by d) now = if would_overflow (pos 0) d then (none, integer (err overflow)) else (
  some (with_text (empty_entry kind_string) (format_int (pos 0 +ℤ d))),
  integer (ok (pos 0 +ℤ d)),
)
on_absent (expire d) now = (none, flag false)
on_absent (h_set ps) now = merged (empty_entry kind_hash) (set_fields ps [] 0)
on_absent (h_del fs) now = (none, number (ok 0))
on_absent (h_get f) now = (none, text (ok none))
on_absent (h_exists f) now = (none, test (ok false))
on_absent h_get_all now = (none, strings (ok []))
on_absent h_keys now = (none, strings (ok []))
on_absent h_vals now = (none, strings (ok []))
on_absent h_len now = (none, number (ok 0))
on_absent l_pop now = (none, text (ok none))
on_absent r_pop now = (none, text (ok none))
on_absent l_len now = (none, number (ok 0))
on_absent (l_push vs) now =
    (some (with_items (empty_entry kind_list) (reverse vs)), number (ok (length vs)))
on_absent (r_push vs) now = (some (with_items (empty_entry kind_list) vs), number (ok (length vs)))
on_absent (l_index i) now = (none, text (ok none))
on_absent (l_range i j) now = (none, strings (ok []))

-- What each call promises where the key holds the live entry `e`.
pub on_entry : Call → Time → Entry → Cell × Reply
on_entry (set v d) now e = (some (string_entry v d now), done)
on_entry (set_nx v d) now e = (some e, flag false)
on_entry (set_xx v d) now e = (some (string_entry v d now), flag true)
on_entry get now e = typed kind_string text e (some e, text (ok (some e.str)))
on_entry str_len now e = typed kind_string number e (some e, number (ok (length e.str)))
on_entry del now e = (none, flag true)
on_entry exists now e = (some e, flag true)
on_entry type_of now e = (some e, kind e.kind)
on_entry persist now e =
    if is_zero e.expires_at
    then (some e, flag false)
    else (some (record e { expires_at = zero_time }), flag true)
on_entry (ttl later) now e =
    if is_zero e.expires_at
    then (some e, remaining no_expiry)
    else (some e, remaining (left (until e.expires_at later)))
on_entry (append x) now e =
    typed kind_string number e (some (with_text e (e.str ++ x)), number (ok (length (e.str ++ x))))
on_entry (get_set v) now e =
    typed kind_string text e (some (with_text (empty_entry kind_string) v), text (ok (some e.str)))
on_entry (incr_by d) now e = typed kind_string integer e (added_number e d (parse_int64 e.str))
on_entry (expire d) now e = (some (record e { expires_at = add now d }), flag true)
on_entry (h_set ps) now e = typed kind_hash number e (merged e (set_fields ps e.hash 0))
on_entry (h_del fs) now e = typed kind_hash number e (deleted e (delete_fields fs e.hash 0))
on_entry (h_get f) now e = typed kind_hash text e (some e, text (ok (Dict.lookup f e.hash)))
on_entry (h_exists f) now e =
    typed kind_hash test e (some e, test (ok (is_some (Dict.lookup f e.hash))))
on_entry h_get_all now e = typed kind_hash strings e (some e, strings (ok (flattened e.hash)))
on_entry h_keys now e = typed kind_hash strings e (some e, strings (ok (fields_of e.hash)))
on_entry h_vals now e = typed kind_hash strings e (some e, strings (ok (values_of e.hash)))
on_entry h_len now e = typed kind_hash number e (some e, number (ok (length e.hash)))
on_entry l_pop now e = typed kind_list text e (popped e (split_left e.list))
on_entry r_pop now e = typed kind_list text e (popped e (split_right e.list))
on_entry l_len now e = typed kind_list number e (some e, number (ok (length e.list)))
on_entry (l_push vs) now e =
    typed kind_list number e
      (some (with_items e (reverse vs ++ e.list)), number (ok (length (reverse vs ++ e.list))))
on_entry (r_push vs) now e =
    typed kind_list number e
      (some (with_items e (e.list ++ vs)), number (ok (length (e.list ++ vs))))
on_entry (l_index i) now e = typed kind_list text e (some e, text (ok (index_list i e.list)))
on_entry (l_range i j) now e =
    typed kind_list strings e (some e, strings (ok (slice_list i j e.list)))

pub promise : Call → Time → Cell → Cell × Reply
unfolding on_absent on_entry
promise c now none = on_absent c now
promise c now (some e) = on_entry c now e
