-- ===== src/Tests/Shutdowns.antt =====
-- The shutdown at concrete inputs.
use voltkv.Base.{◌+◌, ◌++◌, ◌≡◌, refl, Bool, true, false, [], ◌∷◌, Bytes, codes, arith}
use voltkv.Base.Int.{pos, ◌+ℤ◌, ◌-ℤ◌}
use voltkv.Resp.{crlf}
use voltkv.Resp.Reader.{read_command, read_string, trim_end}
use voltkv.Resp.Inline.{split_inline}
use voltkv.Command.Execute.{execute}
use voltkv.Base.{bytes_eq}
use voltkv.Store.Time.{second}
use voltkv.Pubsub.{snapshot}
use voltkv.Server.{Config, new, running, conn_of, Env, turn, accepted}
use voltkv.Server.System.{accept, begin, round, stop, close}
use voltkv.Server.Shutdown.{
  Run, launch, mark, cancel, look, go, stop_accepting, stop_sweeping, return_nil, Runs, no_step,
  and_then,
}
use voltkv.Server.Reachable.{new-IsFresh}
use voltkv.Server.Shutdown.Stopped.{returned_stopped}
use voltkv.Server.Shutdown.Ends.{IsCalm}
use voltkv.Server.Shutdown.Finish.{CanReturn, can_return}

abbrev config : Config
config = record {
  addr = codes ":6380";
  shards = pos 4;
  sweep_every = second;
  aof_path = [];
  max_clients = pos 1;
}

-- What a round finds before the cancel, and behind it.
abbrev calm : Env
calm = record { cancelled = false; flushed = true; clock = λ n. pos (n + 1); size = pos 0 }

abbrev ending : Env
ending = record { cancelled = true; flushed = true; clock = λ n. pos (n + 1); size = pos 0 }

not_yet : {b : Bool} → false ≡ true → b ≡ true
not_yet e = absurd (cc)

abbrev pings : Bytes
pings = codes "PING" ++ crlf ++ codes "PING" ++ crlf

-- The client has sent two commands when the context is cancelled, and its connection waits for one.
abbrev waiting_run : Run
waiting_run = record {
  system = record {
    server = record (new config (pos 0)) { clients = pos 1 };
    conns = conn_of running pings [] ∷ [];
  };
  cancelled = true;
  accepting = true;
  sweeping = true;
  passed = mark 0 true λ i. false;
  returned = false;
}

-- A client comes, the context is cancelled, and everything ends.
returned_run : (r : Run) × Runs (launch (new config (pos 0))) r × (r.returned ≡ true)
unfolding new accepted turn ◌+ℤ◌ ◌-ℤ◌
returned_run =
    let served = and_then (and_then no_step (go (accept pings) refl)) (go (begin 0 refl refl) tt) in
    let left =
      and_then (and_then served cancel) (go (stop 0 ending refl refl refl) (refl, λ e. refl)) in
    let closed = and_then left (go (close 0 refl refl refl tt) tt) in
    (
      _,
      and_then (and_then (and_then closed (stop_accepting refl)) (stop_sweeping refl))
          (return_nil refl refl (refl, tt)),
      refl,
    )

-- The signal comes again.
returned_stopped_example :
    (returned_run.0.system ≡ returned_run.0.system)
    × (returned_run.0.system.server.clients ≡ pos 0)
    × (snapshot (codes "news") returned_run.0.system.server.broker ≡ [])
returned_stopped_example =
    returned_stopped (codes "news") (new-IsFresh config (pos 0) (omega arith)) returned_run.1
      returned_run.2 (and_then no_step cancel)

-- The context is cancelled while a client is being served and the next one has just come.
abbrev generous : Config
generous = record config { max_clients = pos 2 }

calm_run : (r : Run) × Runs (launch (new generous (pos 0))) r × IsCalm r
unfolding new accepted turn read_command read_string split_inline trim_end execute bytes_eq ◌+ℤ◌
calm_run =
    let served = and_then (and_then no_step (go (accept pings) refl)) (go (begin 0 refl refl) tt) in
    let looked = and_then served (look 0 refl refl refl) in
    let answered = and_then looked (go (round 0 calm refl refl refl) (refl, not_yet)) in
    let joined = and_then answered (go (accept pings) refl) in
    (_, and_then joined cancel, record { cancelled = refl; looks = λ j. ground arith })

can_return_example : CanReturn calm_run.0
can_return_example = can_return (new-IsFresh generous (pos 0) (omega arith)) calm_run.1 calm_run.2
