-- ===== src/Server/Start.antt =====
-- What `Run` does before it listens: `replayAOF`, and the log opened (internal/server/server.go).
use voltkv.Base.{ℕ, Option, none, some, List, [], ◌∷◌, Bytes}
use voltkv.Store.Time.{Time}
use voltkv.Aof.{Replay, finished, crashed, unfinished, replay}
use voltkv.Command.World.{World, GoError}
use voltkv.Command.Execute.{execute}
use voltkv.Server.{Server}

-- The dependencies and the connection of a replay: no log, no counters, no subscriptions.
-- `Deliver` is nil: the subscriptions in `delivering` are handed to nobody.
abbrev pub silent_world : (ℕ → Time) → Server → World
silent_world clock s = record {
  store = s.store;
  aof = none;
  broker = s.broker;
  subs = [];
  delivering = [];
  out = [];
  clock = clock;
  reads = 0;
  stats = none;
  aof_size = none;
}

-- What a command leaves, its error dropped; `none` is a panic.
abbrev pub left : Option (GoError × World) → Option World
left none = none
left (some (e, w)) = some w

-- The executor of a replay: `_ = command.Execute(deps, cs, sink, args)`.
abbrev pub silent : List Bytes → Option World → Option World
silent args none = none
silent args (some w) = left (execute args w)

-- The server after a replay, with its log open.
abbrev pub resumed : Server → Replay (Option World) → Replay Server
resumed s (finished (some w)) =
    finished (record s { store = w.store; broker = w.broker; aof = some [] })
resumed s (finished none) = crashed
resumed s crashed = crashed
resumed s unfinished = unfinished

-- `replayAOF`: `none` is a file that does not exist.
abbrev pub replay_aof : Option Bytes → (ℕ → Time) → Server → Replay (Option World)
replay_aof none clock s = finished (some (silent_world clock s))
replay_aof (some file) clock s = replay silent file (some (silent_world clock s))

-- The server as `Run` begins to listen: with its log where a path is configured.
abbrev pub start_at : Bytes → Option Bytes → (ℕ → Time) → Server → Replay Server
start_at [] file clock s = finished s
start_at (c ∷ path) file clock s = resumed s (replay_aof file clock s)

abbrev pub start_up : Option Bytes → (ℕ → Time) → Server → Replay Server
start_up file clock s = start_at s.cfg.aof_path file clock s
