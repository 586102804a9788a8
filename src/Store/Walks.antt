-- ===== src/Store/Walks.antt =====
-- The methods that walk every shard (internal/store/store.go). They lock the shards in turn; here
-- a walk is one step, as it is while no other client writes. A list of pairs stands for the order
-- in which `range` visits a map.
pub mod Listed
pub mod Exact
pub mod Sweep
pub mod Snapshots
use voltkv.Base.{
  ℕ, zero, suc, ◌+◌, Bool, true, false, ◌&&◌, List, [], ◌∷◌, ◌++◌, map, length, if◌then◌else◌,
  Bytes,
}
use voltkv.Base.Dict.{Dict}
use voltkv.Glob.{glob_match}
use voltkv.Store.Time.{Time}
use voltkv.Store.Entry.{Entry, Kind, kind_none, kind_string, kind_hash, kind_list, expired}
use voltkv.Store.Shards.{Store, Shard}

-- The loop over the shards, where the body appends to a slice.
abbrev pub gather {ℓ} : {A : Type ℓ} → (Shard → List A) → List Shard → List A
gather f [] = []
gather f (sh ∷ shards) = f sh ++ gather f shards

-- The body of the loop of `Keys`.
unfoldable pub matching_keys : Bytes → Time → Shard → List Bytes
matching_keys pattern now [] = []
matching_keys pattern now ((k, e) ∷ sh) =
    let rest = matching_keys pattern now sh in
    if expired e now then rest else if glob_match pattern k then k ∷ rest else rest

-- `Keys`.
unfoldable pub keys : Bytes → Time → Store → List Bytes
keys pattern now s = gather (matching_keys pattern now) s.shards

-- `FlushDB`.
unfoldable pub flush_db : Store → Store
flush_db s = record s { shards = map (λ sh. []) s.shards }

-- The loops of `DBSize`.
unfoldable pub live_count : Time → Shard → ℕ
live_count now [] = 0
live_count now ((k, e) ∷ sh) =
    let rest = live_count now sh in if expired e now then rest else rest + 1

abbrev pub total : (Shard → ℕ) → List Shard → ℕ
total f [] = 0
total f (sh ∷ shards) = f sh + total f shards

-- `DBSize`.
unfoldable pub db_size : Time → Store → ℕ
db_size now s = total (live_count now) s.shards

-- The inner loop of `SweepExpired`: what stays, and how many entries go.
unfoldable pub swept : Time → Shard → Shard
swept now [] = []
swept now ((k, e) ∷ sh) = let rest = swept now sh in if expired e now then rest else (k, e) ∷ rest

unfoldable pub expired_count : Time → Shard → ℕ
expired_count now [] = 0
expired_count now ((k, e) ∷ sh) =
    let rest = expired_count now sh in if expired e now then rest + 1 else rest

-- `SweepExpired`.
unfoldable pub sweep_expired : Time → Store → Store × ℕ
sweep_expired now s =
    (record s { shards = map (swept now) s.shards }, total (expired_count now) s.shards)

pub record Snapshot : Type 0 where
  pub key : Bytes
  pub kind : Kind
  pub str : Bytes
  pub hash : Dict Bytes
  pub list : List Bytes
  pub expires_at : Time

abbrev pub bare : Bytes → Entry → Snapshot
bare k e = record {
  key = k;
  kind = e.kind;
  str = [];
  hash = [];
  list = [];
  expires_at = e.expires_at;
}

-- The `switch` on the kind.
abbrev pub fill : Kind → Entry → Snapshot → Snapshot
fill kind_none e snap = snap
fill kind_string e snap = record snap { str = e.str }
fill kind_hash e snap = record snap { hash = e.hash }
fill kind_list e snap = record snap { list = e.list }

unfoldable pub snapshot_of : Bytes → Entry → Snapshot
snapshot_of k e = fill e.kind e (bare k e)

unfoldable pub shard_snapshots : Time → Shard → List Snapshot
shard_snapshots now [] = []
shard_snapshots now ((k, e) ∷ sh) =
    let rest = shard_snapshots now sh in if expired e now then rest else snapshot_of k e ∷ rest

-- `SnapshotAll`.
unfoldable pub snapshot_all : Time → Store → List Snapshot
snapshot_all now s = gather (shard_snapshots now) s.shards
