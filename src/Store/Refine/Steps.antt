-- ===== src/Store/Refine/Steps.antt =====
-- Each method does to the live entry of its key what the plain map promises, and nothing to the
-- other keys (internal/store/store.go).
pub mod Shapes
pub mod Pushes
mod Reads
mod Lazy
mod Items
mod Strings
use voltkv.Base.{
  ℕ, ◌+◌, ◌≡◌, refl, sym, ap, ◌∙◌, ◌==◌, Bool, true, false, not, Option, none, some, List, [], ◌∷◌,
  ◌++◌, reverse, length, is_some, if◌then◌else◌, Bytes, bytes_eq, Option-cases, Bool-cases, inl,
  inr, arith,
}
use voltkv.Base.Int.{ℤ, pos, ◌+ℤ◌}
use voltkv.Base.Dict
use voltkv.Base.Dict.{Dict}
use voltkv.Number.{parse_int64, format_int}
use voltkv.Store.Time.{Time, Duration, zero_time, is_zero, add, until}
use voltkv.Store.Entry.{
  Entry, Kind, kind_none, kind_string, kind_hash, kind_list, kind_eq, empty_entry, string_entry,
  StoreError, Result, ok, err, wrong_type, not_integer, overflow, expired,
}
use voltkv.Store.Shards.{Store, if_live, get_live, entry_at, write, remove}
use voltkv.Store.Generic
use voltkv.Store.Generic.{no_key, no_expiry, left}
use voltkv.Store.Hashes
use voltkv.Store.Lists
use voltkv.Store.Lists.{pop_from, split_left, split_right}
use voltkv.Store.Refine.{
  Call, set, set_nx, set_xx, get, str_len, del, exists, type_of, persist, ttl, append, get_set,
  incr_by, expire, h_set, h_del, h_get, h_exists, h_get_all, h_keys, h_vals, h_len, l_pop, r_pop,
  l_len, l_push, r_push, l_index, l_range, Reply, text, number, integer, test, strings, remaining,
  flag, popped, added_number, with_items, typed, run, Cell, promise, with_reply,
}
use Shapes.{Follows, Runs}
use Reads.{
  exists-Follows, h_exists-Follows, h_get-Follows, h_get_all-Follows, h_keys-Follows, h_len-Follows,
  h_vals-Follows, l_index-Follows, l_len-Follows, l_range-Follows, ttl-Follows, type_of-Follows,
}
use Lazy.{del-Follows, get-Follows, str_len-Follows}
use Items.{
  h_del-Follows, h_set-Follows, l_pop-Follows, l_push-Follows, r_pop-Follows, r_push-Follows,
}
use Strings.{
  append-Follows, expire-Follows, get_set-Follows, incr_by-Follows, persist-Follows, set-Follows,
  set_nx-Follows, set_xx-Follows,
}

-- Every run of a call follows what is promised of it.
pub run-Follows :
    (c : Call) (s : Store) (k : Bytes) (now : Time)
    → Follows s k now (run c k now s) (promise c now (get_live s k now))
run-Follows (set v d) s k now = set-Follows s k now v d
run-Follows (set_nx v d) s k now = set_nx-Follows s k now v d
run-Follows (set_xx v d) s k now = set_xx-Follows s k now v d
run-Follows get s k now = get-Follows s k now
run-Follows str_len s k now = str_len-Follows s k now
run-Follows del s k now = del-Follows s k now
run-Follows exists s k now = exists-Follows s k now
run-Follows type_of s k now = type_of-Follows s k now
run-Follows persist s k now = persist-Follows s k now
run-Follows (ttl later) s k now = ttl-Follows s k now later
run-Follows (append x) s k now = append-Follows s k now x
run-Follows (get_set v) s k now = get_set-Follows s k now v
run-Follows (incr_by d) s k now = incr_by-Follows s k now d
run-Follows (expire d) s k now = expire-Follows s k now d
run-Follows (h_set ps) s k now = h_set-Follows s k now ps
run-Follows (h_del fs) s k now = h_del-Follows s k now fs
run-Follows (h_get f) s k now = h_get-Follows s k now f
run-Follows (h_exists f) s k now = h_exists-Follows s k now f
run-Follows h_get_all s k now = h_get_all-Follows s k now
run-Follows h_keys s k now = h_keys-Follows s k now
run-Follows h_vals s k now = h_vals-Follows s k now
run-Follows h_len s k now = h_len-Follows s k now
run-Follows l_pop s k now = l_pop-Follows s k now
run-Follows r_pop s k now = r_pop-Follows s k now
run-Follows l_len s k now = l_len-Follows s k now
run-Follows (l_push vs) s k now = l_push-Follows s k now vs
run-Follows (r_push vs) s k now = r_push-Follows s k now vs
run-Follows (l_index i) s k now = l_index-Follows s k now i
run-Follows (l_range i j) s k now = l_range-Follows s k now i j
