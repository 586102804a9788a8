-- ===== src/Server.antt =====
-- The server: its counters, the replay at the start, and what it does for one connection
-- (internal/server/server.go).
pub mod System
pub mod Owners
pub mod Counts
pub mod Turns
pub mod Pushes
pub mod Sound
pub mod Reachable
pub mod Limit
pub mod Prompt
pub mod Start
pub mod Recovery
pub mod Durable
pub mod Serving
pub mod Follows
pub mod Closing
pub mod Drained
pub mod Shutdown
use voltkv.Base.{
  ℕ, ◌+◌, Bool, true, false, not, ◌&&◌, ◌||◌, Option, none, some, List, [], ◌∷◌, ◌++◌, get_elem?,
  set, if◌then◌else◌, Bytes, codes, is_some,
}
use voltkv.Base.Int.{ℤ, pos, ltb_ℤ, ◌+ℤ◌, ◌-ℤ◌}
use voltkv.Base.Dict
use voltkv.Base.Dict.{Dict}
use voltkv.Resp
use voltkv.Resp.Reader.{read_command, got, fail, panic}
use voltkv.Store.Time.{Time, Duration, second, until, is_positive}
use voltkv.Store.Shards
use voltkv.Store.Shards.{Store}
use voltkv.Pubsub
use voltkv.Pubsub.{Broker, Subscription, Message}
use voltkv.Command.World.{World, Stats, GoError, nil, empty_command}
use voltkv.Command.Execute.{execute}

pub record Config : Type 0 where
  pub addr : Bytes
  pub shards : ℤ
  pub sweep_every : Duration
  pub aof_path : Bytes
  pub max_clients : ℤ

-- `aof` holds the commands sent to the log since it was opened; `none` is a nil log.
pub record Server : Type 0 where
  pub cfg : Config
  pub store : Store
  pub broker : Broker
  pub aof : Option (List (List Bytes))
  pub started_at : Time
  pub clients : ℤ
  pub total_commands : ℤ

-- `New`.
unfoldable pub new : Config → Time → Server
new cfg now =
    let shards = if is_positive cfg.shards then cfg.shards else pos 16 in
    record {
      cfg = record cfg {
        shards = shards;
        sweep_every = if is_positive cfg.sweep_every then cfg.sweep_every else second;
      };
      store = Shards.new shards;
      broker = Pubsub.new;
      aof = none;
      started_at = now;
      clients = pos 0;
      total_commands = pos 0;
    }

-- `Snapshot`.
abbrev pub snapshot : Time → Server → Stats
snapshot now s = record {
  uptime = until now s.started_at;
  clients = s.clients;
  commands = s.total_commands;
}

-- `Enabled`, and `Size` where it is asked for; the size of the file is not the model's to know.
abbrev pub size_if_enabled : ℤ → Option (List (List Bytes)) → Option ℤ
size_if_enabled size none = none
size_if_enabled size (some cmds) = some size

-- A connection: `handleConn` has been started for it, runs, has returned from its loop, or is done.
pub data Phase : Type 0 where
  spawned running leaving gone : Phase

-- `input` is what the client is still going to send.
pub record Conn : Type 0 where
  pub phase : Phase
  pub input : Bytes
  pub subs : Dict ℕ
  pub delivering : List ℕ
  pub out : Bytes

abbrev pub conn_of : Phase → Bytes → Bytes → Conn
conn_of phase input out = record {
  phase = phase;
  input = input;
  subs = [];
  delivering = [];
  out = out;
}

-- `deps` and the state of the connection, as a command finds them: `clock` is what the clock says
-- at each look from then on, and `size` the size of the log.
unfoldable pub world_of : (ℕ → Time) → ℤ → Server → Conn → World
world_of clock size s c = record {
  store = s.store;
  aof = s.aof;
  broker = s.broker;
  subs = c.subs;
  delivering = c.delivering;
  out = c.out;
  clock = clock;
  reads = 0;
  stats = some (snapshot (clock 0) s);
  aof_size = size_if_enabled size s.aof;
}

-- What a command left, put back.
abbrev pub server_after : World → Server → Server
server_after w s = record s { store = w.store; aof = w.aof; broker = w.broker }

abbrev pub conn_after : World → Conn → Conn
conn_after w c = record c { subs = w.subs; delivering = w.delivering; out = w.out }

-- A round of the loop of `handleConn`: the loop goes on, or it returns, or the program panics.
pub data Turn : Type 0 where
  again : Server → Conn → Turn
  leave : Server → Conn → Turn
  crash : Turn

-- `if execErr != nil || flushErr != nil { return }`.
abbrev pub settle : Bool → Server → Conn → Option (GoError × World) → Turn
settle flushed s c none = crash
settle flushed s c (some (nil, w)) =
    if flushed
    then again (server_after w s) (conn_after w c)
    else leave (server_after w s) (conn_after w c)
settle flushed s c (some (empty_command, w)) = leave (server_after w s) (conn_after w c)

-- What the environment decides in a round: whether the context is cancelled, whether the client
-- still takes the reply, the clock and the size of the log.
pub record Env : Type 0 where
  pub cancelled : Bool
  pub flushed : Bool
  pub clock : ℕ → Time
  pub size : ℤ

-- The body behind `ReadCommand`.
abbrev pub run_command : Env → List Bytes → Server → Conn → Turn
run_command env [] s c = again s c
run_command env (a ∷ args) s c =
    let s' = record s { total_commands = s.total_commands +ℤ pos 1 } in
    settle env.flushed s' c (execute (a ∷ args) (world_of env.clock env.size s' c))

-- A round of the loop.
unfoldable pub turn : Env → Server → Conn → Turn
unfolding world_of
turn env s c = if env.cancelled then leave s c else elim (read_command c.input) [
  | got args rest ↦ run_command env args s (record c { input = rest })
  | fail e ↦ leave s c
  | panic ↦ crash
]

-- The push that the delivery goroutine writes for a message.
unfoldable pub push_message : Message → Bytes
push_message msg =
    Resp.array_header 3
    ++ (Resp.bulk_string (codes "message")
        ++ (Resp.bulk_string msg.channel ++ Resp.bulk_string msg.payload))

-- A round of `for msg := range sub.C`: the oldest message goes to the client.
abbrev pub receive_from : ℕ → Server → Conn → Subscription → List Message → Server × Conn
receive_from id s c sub [] = (s, c)
receive_from id s c sub (msg ∷ rest) = (
  record s {
    broker = record s.broker { made = set s.broker.made id (record sub { buffer = rest }) };
  },
  record c { out = c.out ++ push_message msg },
)

abbrev pub receive_at : ℕ → Server → Conn → Option Subscription → Server × Conn
receive_at id s c none = (s, c)
receive_at id s c (some sub) = receive_from id s c sub sub.buffer

unfoldable pub receive : ℕ → Server → Conn → Server × Conn
unfolding push_message
receive id s c = receive_at id s c (get_elem? s.broker.made id)

-- The goroutine of a subscription ends when the channel is closed and empty.
abbrev pub is_drained : Option Subscription → Bool
is_drained none = true
is_drained (some sub) = elim sub.buffer [ [] ↦ sub.closed | _ ↦ false ]

-- `MaxClients > 0 && clients >= MaxClients`.
abbrev pub is_full : Server → Bool
is_full s = is_positive s.cfg.max_clients && not (ltb_ℤ s.clients s.cfg.max_clients)

-- What the accept loop does with a connection.
unfoldable pub accepted : Server → Bytes → Conn
accepted s input =
    if is_full s
    then conn_of gone input (Resp.error_reply (codes "ERR max number of clients reached"))
    else conn_of spawned input []
