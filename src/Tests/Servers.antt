-- ===== src/Tests/Servers.antt =====
-- The broker, the commands and the server at concrete inputs.
use voltkv.Base.{
  Option, none, ◌<◌, ◌^◌, ◌≢◌, ◌↔◌, ap, ℕ, ◌≡◌, ◌⊎◌, ◌+◌, refl, true, false, some, List, [], ◌∷◌,
  ◌++◌, length, get_elem?, Bytes, codes, arith, ◌∙◌,
}
use voltkv.Base.Int.{pos, ◌+ℤ◌, ◌-ℤ◌, ◌≤ℤ◌}
use voltkv.Base.Dict
use voltkv.Resp.{crlf, string_array, array_header, bulk_strings, bulk_string}
use voltkv.Resp.Reader.{read_command, read_string, trim_end}
use voltkv.Resp.Inline.{split_inline}
use voltkv.Command.Channels.{cmd_subscribe}
use voltkv.Base.{Option, bytes_eq}
use voltkv.Number.{format_nat}
use voltkv.Store.Time.{Time, second}
use voltkv.Pubsub
use voltkv.Pubsub.{Broker, subscribe, snapshot, publish, sent}
use voltkv.Pubsub.Valid.{new-IsValid, subscribe-IsValid, listens}
use voltkv.Pubsub.Delivery.{room_count, received, publish_exact}
use voltkv.Aof.{finished, crashed, write_commands}
use voltkv.Aof.Replays.{IsCommand, write_command-string_array}
use voltkv.Command.World.{World}
use voltkv.Command.Keeps.{Returns}
use voltkv.Command.Safety.{Safe, execute-IsSafe}
use voltkv.Command.Execute.{execute}
use voltkv.Base.Int.{ℤ}
use voltkv.Number.{parse_int64, format_nat}
use voltkv.Resp.RoundTrip.{parse_int64-format_nat}
use voltkv.Resp.{bulk_string}
use voltkv.Demo.{handle_get, found}
use voltkv.Demo.Pages.{handle_get_iff}
use voltkv.Server.{Conn, leaving, Config, Server, new, conn_of, running, Env, Turn, turn, accepted}
use voltkv.Server.System.{System, Reach, here, next, accept, begin, round, stop, drop, close}
use voltkv.Server.Sound.{IsSound}
use voltkv.Server.Reachable.{IsFresh, reach-IsSound, no_leak}
use voltkv.Server.Closing.{CanClose, can_close}
use voltkv.Server.Limit.{over_limit}
use voltkv.Server.Prompt.{IsPrompt, limit_kept}
use voltkv.Server.Start.{silent_world, replay_aof, start_up}
use voltkv.Server.Recovery.{
  start_up-IsFresh, IsReady, new-IsSafe, executed, start_up_ends, restart_torn,
}
use voltkv.Server.Serving.{serve, serve_ends}

abbrev one_subscriber : Broker
one_subscriber = (subscribe (codes "news") Pubsub.new).0

publish_exact_example :
    (b : Broker) × (publish (codes "news") (codes "hi") one_subscriber
      ≡ sent (b, room_count (snapshot (codes "news") one_subscriber) one_subscriber.made))
    × (b.subs ≡ one_subscriber.subs)
    × ((id : ℕ)
        → get_elem? b.made id
          ≡ received
              (record { channel = codes "news"; payload = codes "hi" })
              (listens (codes "news") (get_elem? one_subscriber.made id))
              (get_elem? one_subscriber.made id))
publish_exact_example =
    publish_exact (subscribe-IsValid new-IsValid (codes "news")) (codes "news") (codes "hi")

abbrev config : Config
config = record {
  addr = codes ":6380";
  shards = pos 4;
  sweep_every = second;
  aof_path = codes "volt.aof";
  max_clients = pos 1;
}

abbrev tick : ℕ → Time
tick n = pos (n + 1)

abbrev empty_world : World
empty_world = silent_world tick (new config (pos 0))

abbrev set_a : List Bytes
set_a = codes "SET" ∷ codes "a" ∷ codes "1" ∷ []

execute-IsSafe_example : Returns (Safe []) (execute set_a empty_world)
execute-IsSafe_example =
    execute-IsSafe [] set_a empty_world (new-IsSafe config (pos 0) (omega arith))

-- A server that has started with no log there.
abbrev logging : Server
logging = record (new config (pos 0)) { aof = some [] }

logging-IsFresh : IsFresh logging
unfolding new
logging-IsFresh = start_up-IsFresh config (pos 0) none tick (omega arith) refl (λ id. refl)

-- A connection is accepted and counted.
abbrev subscribing : Bytes
subscribing = codes "SUBSCRIBE news" ++ crlf

abbrev connected : System
connected = record {
  server = record logging { clients = pos 1 };
  conns = conn_of running subscribing [] ∷ [];
}

connected_run : (r : Reach logging connected) × IsPrompt r
unfolding new accepted ◌+ℤ◌
connected_run = (next (next here (accept subscribing)) (begin 0 refl refl), (refl, tt))

reach-IsSound_example : IsSound connected
reach-IsSound_example = reach-IsSound logging-IsFresh connected_run.0

limit_kept_example : connected.server.clients ≤ℤ pos 1
unfolding new
limit_kept_example = limit_kept logging-IsFresh refl connected_run.0 connected_run.1

abbrev calm : Env
calm = record { cancelled = false; flushed = true; clock = tick; size = pos 0 }

-- It subscribes, and its client closes its side.
leaving_run :
    (sys : System) × (c : Conn) × Reach logging sys
    × (get_elem? sys.conns 0 ≡ some c)
    × (c.phase ≡ leaving)
unfolding new accepted ◌+ℤ◌ turn read_command read_string split_inline trim_end execute bytes_eq
    cmd_subscribe Dict.lookup Dict.insert subscribe
leaving_run =
    let subscribed = next connected_run.0 (round 0 calm refl refl refl) in
    (_, _, next subscribed (stop 0 calm refl refl refl), refl, refl)

can_close_example : CanClose 0 leaving_run.0
can_close_example = can_close logging-IsFresh 0 leaving_run.2 leaving_run.3 leaving_run.4

-- It subscribes, and its client closes its side.
left_run : (sys : System) × Reach logging sys × (sys.server.clients ≡ pos 0)
unfolding new accepted ◌+ℤ◌ ◌-ℤ◌ turn read_command read_string split_inline trim_end execute
    bytes_eq cmd_subscribe Dict.lookup Dict.insert subscribe Dict.erase Pubsub.unsubscribe
left_run =
    let r = next connected_run.0 (round 0 calm refl refl refl) in
    let r1 = next r (stop 0 calm refl refl refl) in
    let r2 = next r1 (drop 0 (codes "news") 0 refl refl refl) in
    (_, next r2 (close 0 refl refl refl (refl, tt)), refl)

no_leak_example : snapshot (codes "news") left_run.0.server.broker ≡ []
no_leak_example = no_leak (codes "news") logging-IsFresh left_run.1 left_run.2

over_limit_example : (sys : System) × Reach (new config (pos 0)) sys × (sys.server.clients ≡ pos 3)
over_limit_example = over_limit config (pos 0) 3

abbrev flush_log : Bytes
flush_log = codes "FLUSHDB" ++ crlf

start_up_ends_example :
    ((s : Server) × (start_up (some flush_log) tick (new config (pos 0)) ≡ finished s) × IsReady s)
    ⊎ (replay_aof (some flush_log) tick (new config (pos 0)) ≡ crashed)
start_up_ends_example = start_up_ends config (pos 0) (some flush_log) tick (omega arith)

-- What follows `*3` and the carriage return in the array.
abbrev set_back : Bytes
set_back =
    10 ∷ codes "$3"
    ++ crlf
    ++ codes "SET"
    ++ crlf
    ++ codes "$1"
    ++ crlf
    ++ codes "a"
    ++ crlf
    ++ codes "$1"
    ++ crlf
    ++ codes "1"
    ++ crlf

set_a-split : string_array set_a ≡ codes "*3" ++ 13 ∷ set_back
unfolding string_array array_header bulk_strings bulk_string format_nat
set_a-split = refl

set_a-IsCommand : IsCommand set_a
set_a-IsCommand = record {
  named = omega arith;
  few = omega arith;
  fits = (omega arith, (omega arith, (omega arith, tt)));
}

restart_torn_example :
    (w : World) × (executed (set_a ∷ []) empty_world ≡ some w)
    × (start_up (some (write_commands (set_a ∷ []) ++ codes "*3")) tick (new config (pos 0))
        ≡ finished
            (record (new config (pos 0)) { store = w.store; broker = w.broker; aof = some [] }))
restart_torn_example =
    restart_torn config (pos 0) tick (set_a ∷ []) set_a (codes "*3") 13 set_back (omega arith)
      (omega arith) (set_a-IsCommand, tt) set_a-IsCommand
      (write_command-string_array set_a ∙ set_a-split)

serve_ends_example :
    (t : Turn) × (serve
        (λ n. calm)
        (λ n s. s)
        (length subscribing + 1)
        0
        connected.server
        (conn_of running subscribing [])
      ≡ some t)
serve_ends_example =
    serve_ends (λ n. calm) (λ n s. s) 0 connected.server (conn_of running subscribing [])

abbrev or_zero : Option ℤ → ℤ
or_zero none = pos 0
or_zero (some z) = z

abbrev scan_number : Bytes → ℤ
scan_number s = or_zero (parse_int64 s)

scan_number-format_nat : (n : ℕ) → n < 2 ^ 63 → scan_number (format_nat n) ≡ pos n
scan_number-format_nat n h = ap or_zero (parse_int64-format_nat n h)

-- A server that has one answer.
abbrev greeting : Bytes → Bytes
greeting request = bulk_string (codes "hello")

handle_get_iff_example :
    (handle_get scan_number greeting (codes "k") ≡ found (codes "k") (codes "hello"))
    ↔ (codes "hello" ≢ codes "$-1")
handle_get_iff_example =
    handle_get_iff scan_number scan_number-format_nat greeting b'k' [] (codes "hello") refl
      (omega arith)
