-- ===== src/Tests/Restarts.antt =====
-- A run of the server and its restart at concrete inputs.
use voltkv.Base.{
  sym, subst, ℕ, ◌+◌, ◌≡◌, refl, true, false, some, List, [], ◌∷◌, ◌++◌, Bytes, codes, arith, All,
  bytes_eq,
}
use voltkv.Base.Int.{pos, ◌+ℤ◌}
use voltkv.Base.Dict
use voltkv.Resp.{crlf}
use voltkv.Resp.Reader.{read_command, read_string, trim_end}
use voltkv.Resp.Inline.{split_inline}
use voltkv.Store.Time.{Time, second}
use voltkv.Store.Entry.{expired}
use voltkv.Store.Shards
use voltkv.Store.Shards.{
  Store, entry_at, get_live, shard_for, shard_index, fnv32a, write, next_pow2,
}
use voltkv.Store.Hashes
use voltkv.Store.Hashes.{set_fields}
use voltkv.Store.Walks.{snapshot_all, shard_snapshots, snapshot_of}
use voltkv.Store.Refine.{run, h_set}
use voltkv.Store.Refine.Untimed.Twins.{IsLasting, run-IsLasting}
use voltkv.Server.Durable.Depicts.{commands_of}
use voltkv.Server.Durable.Rewrite.{rewrite_recovers}
use voltkv.Aof.{finished, write_commands, rewrite, snapshot_commands}
use voltkv.Aof.Replays.{IsCommand}
use voltkv.Command.World.{to_upper}
use voltkv.Command.Keeps.{Returns}
use voltkv.Command.Typed.{SafeTyped, execute-SafeTyped}
use voltkv.Command.Options.{parse_set_opts, options_loop}
use voltkv.Command.Strings.{cmd_set}
use voltkv.Command.Execute.{execute}
use voltkv.Server.{Config, Server, new, Env, turn, accepted}
use voltkv.Server.System.{System, Reach, here, next, accept, begin, round}
use voltkv.Server.Start.{silent_world, start_up}
use voltkv.Server.Recovery.{new-IsSafe}
use voltkv.Server.Durable.Rounds.{RunDeadlineless}
use voltkv.Server.Durable.Restart.{restart_recovers, new-IsLasting}

abbrev config : Config
config = record {
  addr = codes ":6380";
  shards = pos 4;
  sweep_every = second;
  aof_path = codes "volt.aof";
  max_clients = pos 0;
}

-- The same server with twice the shards.
abbrev wider : Config
wider = record config { shards = pos 8 }

abbrev later_tick : ℕ → Time
later_tick n = pos (n + 5)

abbrev set_b : List Bytes
set_b = codes "SET" ∷ codes "b" ∷ codes "2" ∷ []

set_b-IsCommand : IsCommand set_b
set_b-IsCommand = record {
  named = omega arith;
  few = omega arith;
  fits = (omega arith, (omega arith, (omega arith, tt)));
}

execute-SafeTyped_example :
    Returns (SafeTyped []) (execute set_b (silent_world later_tick (new config (pos 0))))
execute-SafeTyped_example =
    execute-SafeTyped [] set_b (silent_world later_tick (new config (pos 0)))
      (new-IsSafe config (pos 0) (omega arith)) (new-IsLasting config (pos 0) (omega arith)).typed

abbrev served : Env
served = record { cancelled = false; flushed = true; clock = later_tick; size = pos 0 }

-- A client sets a key.
set_run :
    (sys : System) × (r : Reach (record (new config (pos 0)) { aof = some [] }) sys)
    × RunDeadlineless r
    × (sys.server.aof ≡ some (set_b ∷ []))
unfolding new accepted ◌+ℤ◌ turn read_command read_string split_inline trim_end execute bytes_eq
    cmd_set parse_set_opts options_loop to_upper
set_run =
    let input = codes "SET b 2" ++ crlf in
    (
      _,
      next (next (next here (accept input)) (begin 0 refl refl)) (round 0 served refl refl refl),
      (((tt, tt), tt), record { expire = refl; pexpire = refl; set = λ e. refl }),
      refl,
    )

restart_recovers_example :
    (s : Server) × (start_up (some (write_commands (set_b ∷ []))) later_tick (new wider (pos 9))
      ≡ finished s)
    × ((k : Bytes) → entry_at s.store k ≡ entry_at set_run.0.server.store k)
restart_recovers_example =
    restart_recovers config wider (pos 0) (pos 9) later_tick (set_b ∷ []) set_run.1 (omega arith)
      (omega arith) (omega arith) set_run.2 set_run.3 (set_b-IsCommand, tt)

-- A store that holds one hash.
abbrev one_hash : Store
one_hash =
    (run (h_set ((codes "f", codes "1") ∷ [])) (codes "h") (pos 3) (new config (pos 0)).store).0

one_hash-IsLasting : IsLasting one_hash
one_hash-IsLasting =
    run-IsLasting (new-IsLasting config (pos 0) (omega arith)) (h_set ((codes "f", codes "1") ∷ []))
      (codes "h") (pos 3) (omega arith) tt

abbrev hset_h : List Bytes
hset_h = codes "HSET" ∷ codes "h" ∷ codes "f" ∷ codes "1" ∷ []

one_hash-commands_of : commands_of (snapshot_all (pos 4) one_hash) (pos 5) ≡ hset_h ∷ []
unfolding new run Hashes.h_set set_fields get_live entry_at shard_for shard_index fnv32a write
    next_pow2 Shards.new Dict.lookup Dict.insert bytes_eq expired snapshot_all shard_snapshots
    snapshot_of snapshot_commands
one_hash-commands_of = refl

hset_h-IsCommand : IsCommand hset_h
hset_h-IsCommand = record {
  named = omega arith;
  few = omega arith;
  fits = (omega arith, (omega arith, (omega arith, (omega arith, tt))));
}

rewrite_recovers_example :
    (sv : Server) × (start_up
        (some (rewrite (snapshot_all (pos 4) one_hash) (pos 5)))
        later_tick
        (new wider (pos 9))
      ≡ finished sv)
    × ((k : Bytes) → entry_at sv.store k ≡ entry_at one_hash k)
rewrite_recovers_example =
    rewrite_recovers wider (pos 9) (pos 4) (pos 5) later_tick one_hash-IsLasting (omega arith)
      (omega arith) (subst (All IsCommand) (sym one_hash-commands_of) (hset_h-IsCommand, tt))
