-- ===== src/Store/Walks/Snapshots.antt =====
-- The snapshot that a rewrite of the log starts from (internal/store/store.go).
use voltkv.Base.{
  ℕ, zero, suc, ◌+◌, ◌≡◌, ◌<◌, refl, ◌∙◌, Option, none, some, List, [], ◌∷◌, ◌++◌, get_or,
  if◌then◌else◌, Bytes, arith, bytes_eq, bytes_eq_iff,
}
use voltkv.Base.Dict.{lookup, Distinct}
use voltkv.Store.Time.{Time}
use voltkv.Store.Entry.{Entry, Kind, kind_none, kind_string, kind_hash, kind_list}
use voltkv.Store.Shards.{Store, Shard, shard_index, shard_for, entry_at, get_live, if_live}
use voltkv.Store.Shards.Valid.{IsValid, Homes}
use voltkv.Store.Walks.{gather, Snapshot, snapshot_of, bare, fill, shard_snapshots, snapshot_all}
use voltkv.Store.Walks.Listed.{lookup_elsewhere}

-- The first snapshot of a key.
unfoldable pub find : Bytes → List Snapshot → Option Snapshot
find k [] = none
find k (snap ∷ snaps) = if bytes_eq snap.key k then some snap else find k snaps

abbrev or_else : Option Snapshot → Option Snapshot → Option Snapshot
or_else none o = o
or_else (some x) o = some x

abbrev pub snapshot_at : Bytes → Option Entry → Option Snapshot
snapshot_at k none = none
snapshot_at k (some e) = some (snapshot_of k e)

key-fill : (kind : Kind) (e : Entry) (snap : Snapshot) → (fill kind e snap).key ≡ snap.key
key-fill kind_none e snap = refl
key-fill kind_string e snap = refl
key-fill kind_hash e snap = refl
key-fill kind_list e snap = refl

pub key-snapshot_of : (k : Bytes) (e : Entry) → (snapshot_of k e).key ≡ k
unfolding snapshot_of
key-snapshot_of k e = key-fill e.kind e (bare k e)

find-append :
    (k : Bytes) (xs ys : List Snapshot) → find k (xs ++ ys) ≡ or_else (find k xs) (find k ys)
unfolding find
find-append k [] ys = refl
find-append k (x ∷ xs) ys = ground (arith, find-append k xs ys)

module _ (now : Time) where
  find_absent :
      (k : Bytes) (sh : Shard) → lookup k sh ≡ none → find k (shard_snapshots now sh) ≡ none
  unfolding lookup find shard_snapshots
  find_absent k [] h = refl
  find_absent k ((j, e) ∷ sh) h = ground (arith, find_absent k sh, key-snapshot_of j e)

  find-shard_snapshots :
      (k : Bytes) (sh : Shard)
      → Distinct sh
      → find k (shard_snapshots now sh) ≡ snapshot_at k (if_live (lookup k sh) now)
  unfolding lookup find shard_snapshots
  find-shard_snapshots k [] d = refl
  find-shard_snapshots k ((j, e) ∷ sh) (f, d) =
      ground (
        arith,
        find-shard_snapshots k sh d,
        find_absent k sh,
        key-snapshot_of j e,
        bytes_eq_iff j k,
      )

  module _ (mask : ℕ) where
    find_elsewhere :
        (i : ℕ) (k : Bytes) (shs : List Shard)
        → Homes mask i shs
        → shard_index mask k < i
        → find k (gather (shard_snapshots now) shs) ≡ none
    unfolding find
    find_elsewhere i k [] h lt = refl
    find_elsewhere i k (sh ∷ shs) (d, a, h) lt =
        find-append k (shard_snapshots now sh) _
        ∙ ground (
          arith,
          find_absent k sh (lookup_elsewhere mask i k sh a (omega arith)),
          find_elsewhere (suc i) k shs h (omega arith),
        )

    find-gather :
        (i n : ℕ) (k : Bytes) (shs : List Shard)
        → Homes mask i shs
        → shard_index mask k ≡ i + n
        → find k (gather (shard_snapshots now) shs)
          ≡ snapshot_at k (if_live (lookup k (get_or shs n [])) now)
    unfolding find lookup
    find-gather i n k [] h e = refl
    find-gather i zero k (sh ∷ shs) (d, a, h) e =
        find-append k (shard_snapshots now sh) _
        ∙ ground (arith, find-shard_snapshots k sh d, find_elsewhere (suc i) k shs h (omega arith))
    find-gather i (suc n) k (sh ∷ shs) (d, a, h) e =
        find-append k (shard_snapshots now sh) _
        ∙ ground (
          arith,
          find_absent k sh (lookup_elsewhere mask i k sh a (omega arith)),
          find-gather (suc i) n k shs h (omega arith),
        )

-- The first snapshot of each key is that of its live entry.
pub find-live :
    {s : Store} (v : IsValid s) (now : Time) (k : Bytes)
    → find k (snapshot_all now s) ≡ snapshot_at k (get_live s k now)
unfolding snapshot_all get_live entry_at shard_for
find-live {s} v now k =
    find-gather now s.mask 0 (shard_index s.mask k) k s.shards v.homes (omega arith)

-- The contents that an entry of a kind has.
abbrev pub SameContents : Kind → Entry → Snapshot → Type 0
SameContents kind_none e snap = Unit
SameContents kind_string e snap = snap.str ≡ e.str
SameContents kind_hash e snap = snap.hash ≡ e.hash
SameContents kind_list e snap = snap.list ≡ e.list

-- A snapshot of an entry under a key, or of none.
abbrev pub IsSnapshot : Bytes → Option Entry → Option Snapshot → Type 0
IsSnapshot k none none = Unit
IsSnapshot k (some e) (some snap) =
    (snap.key ≡ k)
    × (snap.kind ≡ e.kind)
    × (snap.expires_at ≡ e.expires_at)
    × SameContents e.kind e snap
IsSnapshot k _ _ = ⊥

fill-SameContents :
    (kind : Kind) (e : Entry) (snap : Snapshot)
    → ((fill kind e snap).key ≡ snap.key)
      × ((fill kind e snap).kind ≡ snap.kind)
      × ((fill kind e snap).expires_at ≡ snap.expires_at)
      × SameContents kind e (fill kind e snap)
fill-SameContents kind_none e snap = (refl, refl, refl, tt)
fill-SameContents kind_string e snap = (refl, refl, refl, refl)
fill-SameContents kind_hash e snap = (refl, refl, refl, refl)
fill-SameContents kind_list e snap = (refl, refl, refl, refl)

snapshot_at-IsSnapshot : (k : Bytes) (o : Option Entry) → IsSnapshot k o (snapshot_at k o)
unfolding snapshot_of
snapshot_at-IsSnapshot k none = tt
snapshot_at-IsSnapshot k (some e) = fill-SameContents e.kind e (bare k e)

-- A snapshot of a valid store has, for each key with a live entry, that key with the kind, the deadline
-- and the contents of the entry, and nothing for a key that is missing or expired.
pub find-snapshot_all :
    {s : Store} (v : IsValid s) (now : Time) (k : Bytes)
    → IsSnapshot k (get_live s k now) (find k (snapshot_all now s))
find-snapshot_all {s} v now k = rw (find-live v now k) (snapshot_at-IsSnapshot k (get_live s k now))
