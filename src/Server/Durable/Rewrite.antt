-- ===== src/Server/Durable/Rewrite.antt =====
-- A restart of the server from a rewritten log (internal/aof/aof.go, internal/aof/helpers.go).
use voltkv.Base.{
  ℕ, ◌<◌, ◌^◌, ◌≡◌, refl, sym, ap, ap₂, ◌∙◌, subst, some, List, [], ◌∷◌, ◌++◌, length, All, Bytes,
  codes, arith,
}
use voltkv.Base.Int.{pos, ◌≤ℤ◌}
use voltkv.Store.Time.{Time}
use voltkv.Store.Shards.{Store, Shard, entry_at}
use voltkv.Store.Walks.{Snapshot, snapshot_all, shard_snapshots, keys, matching_keys, gather}
use voltkv.Store.Walks.Listed.{NoRepeats}
use voltkv.Store.Walks.Exact.{keys-NoRepeats, glob_match_star}
use voltkv.Store.Walks.Snapshots.{snapshot_at, key-snapshot_of, find-live}
use voltkv.Store.Refine.Typed.{CellTyped}
use voltkv.Store.Refine.Untimed.{CellUntimed}
use voltkv.Store.Refine.Untimed.Twins.{IsLasting, live-IsLasting}
use voltkv.Aof.{rewrite, finished}
use voltkv.Server.Start.{silent_world, start_up}
use voltkv.Server.{Config, Server, new}
use voltkv.Aof.Replays.{IsCommand}
use voltkv.Server.Durable.Restart.{start_up-executed, entry_at-new, new-IsLasting}
use voltkv.Server.Durable.Depicts.{
  names, commands_of, rewrite-commands_of, over, over-none, Depicts, commands_of-Rewritten,
}

names-append : (xs ys : List Snapshot) → names (xs ++ ys) ≡ names xs ++ names ys
names-append [] ys = refl
names-append (x ∷ xs) ys = ap (λ js. x.key ∷ js) (names-append xs ys)

names-shard_snapshots :
    (now : Time) (sh : Shard) → names (shard_snapshots now sh) ≡ matching_keys (codes "*") now sh
unfolding shard_snapshots matching_keys
names-shard_snapshots now [] = refl
names-shard_snapshots now ((k, e) ∷ sh) =
    ground (arith, names-shard_snapshots now sh, glob_match_star k, key-snapshot_of k e)

names-gather :
    (now : Time) (shs : List Shard)
    → names (gather (shard_snapshots now) shs) ≡ gather (matching_keys (codes "*") now) shs
names-gather now [] = refl
names-gather now (sh ∷ shs) =
    names-append (shard_snapshots now sh) (gather (shard_snapshots now) shs)
    ∙ ap₂ ◌++◌ (names-shard_snapshots now sh) (names-gather now shs)

snapshot_all-Depicts :
    {s : Store} (l : IsLasting s) (now : Time) → Depicts (entry_at s) (snapshot_all now s)
unfolding snapshot_all keys
snapshot_all-Depicts {s} l now = record {
  once = subst NoRepeats (sym (names-gather now s.shards)) (keys-NoRepeats (codes "*") now l.valid);
  exact = λ k. find-live l.valid now k ∙ ap (snapshot_at k) (live-IsLasting l k now);
  lasts = λ k e h. (subst CellTyped h (l.typed.at k), subst CellUntimed h (l.untimed k));
}

-- A log is rewritten from a snapshot of a valid store in which every entry has the contents of its
-- kind and none has a deadline. A server with at most 2 ^ 32 shards asked for and a path for its log
-- that starts from the new log, whose commands are of sizes that Go can allocate, holds under every
-- key what the store holds, whatever its number of shards and the times of the snapshot, the rewrite
-- and the start.
pub rewrite_recovers :
    (cfg : Config) (now taken written : Time) (clock : ℕ → Time) {s : Store}
    → IsLasting s
    → cfg.shards ≤ℤ pos (2 ^ 32)
    → 0 < length cfg.aof_path
    → All IsCommand (commands_of (snapshot_all taken s) written)
    → (sv : Server) × (start_up (some (rewrite (snapshot_all taken s) written)) clock (new cfg now)
        ≡ finished sv)
      × ((k : Bytes) → entry_at sv.store k ≡ entry_at s k)
rewrite_recovers cfg now taken written clock {s} l small logs cs =
    let snaps = snapshot_all taken s in
    let fresh = entry_at-new cfg now in
    let r =
      commands_of-Rewritten written snaps (entry_at s) (silent_world clock (new cfg now))
        (snapshot_all-Depicts l taken) (new-IsLasting cfg now small) refl (λ k h. fresh k) in
    (
      _,
      ap (λ file. start_up (some file) clock (new cfg now))
            (sym (rewrite-commands_of snaps written))
          ∙ start_up-executed cfg now clock (commands_of snaps written) r.last small logs cs r.runs,
      λ k. r.entries k ∙ ap (over (entry_at s k)) (fresh k) ∙ over-none (entry_at s k),
    )
