-- ===== src/Tests/Streams.antt =====
-- The protocol and the log (internal/resp, internal/aof) at concrete inputs.
use voltkv.Base.{◌+◌, ◌≡◌, ◌∙◌, refl, some, bytes_eq, ◌∷◌, [], ◌++◌, List, Bytes, codes, arith}
use voltkv.Number.{format_nat}
use voltkv.Resp.{string_array, array_header, bulk_strings, bulk_string, crlf}
use voltkv.Resp.Reader.{got, read_command}
use voltkv.Resp.RoundTrip.{read_command-string_array}
use voltkv.Resp.Torn.{IsError, read_command-torn}
use voltkv.Base.Int.{pos, ◌+ℤ◌, ◌≤ℤ◌}
use voltkv.Store.Time.{Time, second, zero_time}
use voltkv.Store.Entry.{expired, Entry, kind_string}
use voltkv.Store.Walks.{Snapshot}
use voltkv.Aof.Log.{Log, Runs, open_log, opened, append_one, write_one, spill}
use voltkv.Aof.Log.Crash.{crash_consistent}
use voltkv.Aof.Deadlines.{snapshot_commands_permanent}
use voltkv.Aof.Restored.{snapshot_commands_timed}
use voltkv.Command.World.{World, nil}
use voltkv.Command.Execute.{execute}
use voltkv.Server.{Config, new}
use voltkv.Server.Start.{silent_world}
use voltkv.Base.Dict
use voltkv.Store.Shards
use voltkv.Store.Shards.{next_pow2, entry_at, get_live, write, shard_for, shard_index, fnv32a}
use voltkv.Aof.{write_command, snapshot_commands, value_commands, write_commands, replay, finished}
use voltkv.Aof.Replays.{IsCommand, apply_all, replay_torn, write_command-string_array}

-- An executor that keeps the commands.
abbrev keep : List Bytes → List (List Bytes) → List (List Bytes)
keep args log = args ∷ log

abbrev get_a : List Bytes
get_a = codes "GET" ∷ codes "a" ∷ []

get_a-IsCommand : IsCommand get_a
get_a-IsCommand = record {
  named = omega arith;
  few = omega arith;
  fits = (omega arith, (omega arith, tt));
}

-- What follows `*2` and the carriage return in the array.
abbrev back : Bytes
back = 10 ∷ codes "$3" ++ crlf ++ codes "GET" ++ crlf ++ codes "$1" ++ crlf ++ codes "a" ++ crlf

get_a-split : string_array get_a ≡ codes "*2" ++ 13 ∷ back
unfolding string_array array_header bulk_strings bulk_string format_nat
get_a-split = refl

read_command-string_array_example :
    read_command (string_array get_a ++ codes "rest") ≡ got get_a (codes "rest")
read_command-string_array_example =
    read_command-string_array get_a (codes "rest") (omega arith, (omega arith, tt)) (omega arith)

read_command-torn_example : IsError (read_command (codes "*2"))
read_command-torn_example =
    read_command-torn get_a (codes "*2") 13 back (omega arith, (omega arith, tt)) (omega arith)
      get_a-split

replay_torn_example :
    replay keep (write_commands (get_a ∷ []) ++ codes "*2") []
    ≡ finished (apply_all keep (get_a ∷ []) [])
replay_torn_example =
    replay_torn keep (get_a ∷ []) get_a (codes "*2") 13 back [] (get_a-IsCommand, tt)
      get_a-IsCommand (write_command-string_array get_a ∙ get_a-split)

-- Two commands are appended; the first is written, and two of its bytes have reached the file.
spilled_run : (l : Log) × Runs (open_log (write_commands [])) (get_a ∷ get_a ∷ []) l
unfolding write_commands write_command array_header bulk_strings bulk_string format_nat
spilled_run =
    let queued = append_one get_a (append_one get_a opened refl (omega arith)) refl (omega arith) in
    (_, spill (codes "*2") (13 ∷ back) (write_one get_a (get_a ∷ []) queued refl) refl)

crash_consistent_example :
    (done : List (List Bytes)) × (later : List (List Bytes)) × (get_a ∷ get_a ∷ [] ≡ done ++ later)
    × (replay keep spilled_run.0.file [] ≡ finished (apply_all keep ([] ++ done) []))
crash_consistent_example =
    crash_consistent keep [] [] (get_a ∷ get_a ∷ []) spilled_run.1 tt
      (get_a-IsCommand, (get_a-IsCommand, tt))

abbrev config : Config
config = record {
  addr = codes ":6380";
  shards = pos 4;
  sweep_every = second;
  aof_path = codes "volt.aof";
  max_clients = pos 1;
}

abbrev timed : Snapshot
timed = record {
  key = codes "a";
  kind = kind_string;
  str = codes "1";
  hash = [];
  list = [];
  expires_at = pos 2_500_007;
}

abbrev stored_a : Entry
stored_a = record {
  kind = kind_string;
  str = codes "1";
  hash = [];
  list = [];
  expires_at = zero_time;
}

-- The replay of its value.
abbrev replayed : World
replayed = record (silent_world (λ n. pos (90 + n)) (new config (pos 0))) {
  store = write (new config (pos 0)).store (codes "a") stored_a;
}

replayed-live : get_live replayed.store (codes "a") (pos 90) ≡ some stored_a
unfolding new get_live entry_at write shard_for shard_index fnv32a Dict.insert Dict.lookup bytes_eq
    Shards.new next_pow2 expired
replayed-live = refl

snapshot_commands_timed_example :
    (last : List Bytes) × (snapshot_commands timed (pos 7)
      ≡ ((codes "SET" ∷ codes "a" ∷ codes "1" ∷ []) ∷ []) ++ last ∷ [])
    × (deadline : Time) × (w' : World) × (execute last replayed ≡ some (nil, w'))
    × (w'.store ≡ write replayed.store (codes "a") (record stored_a { expires_at = deadline }))
    × (deadline ≤ℤ pos 90 +ℤ pos 2_500_000)
    × (pos 90 +ℤ pos 2_500_000 ≤ℤ deadline +ℤ pos 999_999)
unfolding ◌+ℤ◌
snapshot_commands_timed_example =
    snapshot_commands_timed timed (pos 7) 2_500_000 _ [] replayed stored_a refl refl (omega arith)
      (omega arith) refl refl replayed-live

abbrev short_lived : Snapshot
short_lived = record {
  key = codes "a";
  kind = kind_string;
  str = codes "1";
  hash = [];
  list = [];
  expires_at = pos 7 +ℤ pos 900_000;
}

snapshot_commands_permanent_example :
    snapshot_commands short_lived (pos 7) ≡ value_commands kind_string short_lived
snapshot_commands_permanent_example =
    snapshot_commands_permanent short_lived (pos 7) 900_000 refl (omega arith)
