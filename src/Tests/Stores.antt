-- ===== src/Tests/Stores.antt =====
-- The store (internal/store) at concrete inputs.
use voltkv.Base.{◌≡◌, refl, true, ◌&&◌, none, List, [], ◌∷◌, bytes_eq, codes, arith}
use voltkv.Base.Int.{pos, ◌+ℤ◌}
use voltkv.Glob.{glob_match}
use voltkv.Store.Time.{Time}
use voltkv.Base.Dict
use voltkv.Store.Entry.{string_entry, expired}
use voltkv.Store.Shards.{
  Store, new, next_pow2, fnv32a, shard_for, shard_index, entry_at, get_live, write,
}
use voltkv.Store.Shards.Valid.{IsValid}
use voltkv.Store.Shards.New.{new-IsValid}
use voltkv.Store.Strings
use voltkv.Store.Hashes
use voltkv.Store.Generic.{exists}
use voltkv.Store.Refine.{set, get, h_len, l_push, incr_by, run}
use voltkv.Store.Refine.Traces.{Request, replies, flat_replies, replies-new, run-IsValid}
use voltkv.Store.Refine.Errors.{is_error, run_error}
use voltkv.Store.Refine.Expiry.{lazy_delete-get_live}
use voltkv.Store.Walks.{keys, snapshot_all, sweep_expired}
use voltkv.Store.Walks.Listed.{contains, NoRepeats}
use voltkv.Store.Walks.Exact.{contains-keys, keys-NoRepeats}
use voltkv.Store.Walks.Snapshots.{find, IsSnapshot, find-snapshot_all}
use voltkv.Store.Walks.Sweep.{entry_at-sweep_expired}

abbrev at_noon : Time
at_noon = pos 1000

abbrev calls : List Request
calls =
    record { time = at_noon; key = codes "a"; call = set (codes "41") (pos 5) }
    ∷ record { time = at_noon; key = codes "a"; call = incr_by (pos 1) }
    ∷ record { time = pos 1006; key = codes "a"; call = get }
    ∷ []

replies-new_example : replies calls (new (pos 4)) ≡ flat_replies calls (λ k. none)
replies-new_example =
    replies-new (pos 4) calls at_noon (omega arith) (omega arith, (omega arith, (omega arith, tt)))

-- A store of four shards with one string in it, which expires.
abbrev one_string : Store
one_string = (run (set (codes "7") (pos 5)) (codes "a") at_noon (new (pos 4))).0

one_string-IsValid : IsValid one_string
one_string-IsValid =
    run-IsValid (new-IsValid (pos 4) (omega arith)) (set (codes "7") (pos 5)) (codes "a") at_noon

run-IsValid_example : IsValid (run (l_push (codes "x" ∷ [])) (codes "b") at_noon (new (pos 4))).0
run-IsValid_example =
    run-IsValid (new-IsValid (pos 4) (omega arith)) (l_push (codes "x" ∷ [])) (codes "b") at_noon

one_string-h_len : is_error (run h_len (codes "a") at_noon one_string).1 ≡ true
unfolding run Strings.set Hashes.h_len get_live entry_at shard_for shard_index fnv32a write new
    next_pow2 Dict.lookup Dict.insert bytes_eq string_entry expired ◌+ℤ◌
one_string-h_len = refl

run_error_example :
    get_live (run h_len (codes "a") at_noon one_string).0 (codes "a") at_noon
    ≡ get_live one_string (codes "a") at_noon
run_error_example =
    run_error one_string-IsValid h_len (codes "a") at_noon one_string-h_len (codes "a")

contains-keys_example :
    contains (keys (codes "*") at_noon one_string) (codes "a")
    ≡ (exists (codes "a") at_noon one_string && glob_match (codes "*") (codes "a"))
contains-keys_example = contains-keys (codes "*") at_noon one_string-IsValid (codes "a")

keys-NoRepeats_example : NoRepeats (keys (codes "*") at_noon one_string)
keys-NoRepeats_example = keys-NoRepeats (codes "*") at_noon one_string-IsValid

find-snapshot_all_example :
    IsSnapshot
      (codes "a")
      (get_live one_string (codes "a") at_noon)
      (find (codes "a") (snapshot_all at_noon one_string))
find-snapshot_all_example = find-snapshot_all one_string-IsValid at_noon (codes "a")

entry_at-sweep_expired_example :
    entry_at (sweep_expired at_noon one_string).0 (codes "a")
    ≡ get_live one_string (codes "a") at_noon
entry_at-sweep_expired_example = entry_at-sweep_expired one_string-IsValid at_noon (codes "a")

lazy_delete-get_live_example :
    get_live (Strings.lazy_delete (codes "a") (pos 2000) one_string) (codes "a") (pos 3000)
    ≡ get_live one_string (codes "a") (pos 3000)
lazy_delete-get_live_example =
    lazy_delete-get_live one_string-IsValid (codes "a") (codes "a") (pos 2000) (pos 3000)
      (omega arith)
