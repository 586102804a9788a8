-- ===== src/Server/Reachable.antt =====
-- The states that a server can reach from its start (internal/server/server.go).
use voltkv.Base.{
  ℕ, ◌≡◌, ◌^◌, refl, false, List, [], ◌∷◌, All, Bytes, arith, Bool-cases, inl, inr, ==_iff,
  get_elem?,
}
use voltkv.Base.Int.{pos, ◌≤ℤ◌}
use voltkv.Base.Dict.{Dict}
use voltkv.Store.Time.{Time, is_positive}
use voltkv.Store.Shards.New
use voltkv.Store.Shards.Valid
use voltkv.Pubsub
use voltkv.Pubsub.{snapshot, member}
use voltkv.Pubsub.Valid.{is_open, new-IsValid}
use voltkv.Command.Safety.{held}
use voltkv.Server.{Config, Server, new, Conn, running, leaving, spawned, gone, Phase}
use voltkv.Server.System.{System, Reach, here, next}
use voltkv.Server.Counts.{subs_of, counted, active_count}
use voltkv.Server.Sound.{IsSound, IsQuiet, step-IsSound}

-- A server that has just been made.
pub new-IsSound :
    (cfg : Config) (now : Time)
    → cfg.shards ≤ℤ pos (2 ^ 32)
    → IsSound (record { server = new cfg now; conns = [] })
unfolding new
new-IsSound cfg now h = record {
  clients = refl;
  store = elim (Bool-cases (is_positive cfg.shards)) [
    | inl e ↦ rw e (New.new-IsValid cfg.shards h)
    | inr e ↦ rw e (New.new-IsValid (pos 16) (omega arith))
  ];
  broker = new-IsValid;
  owned = record { split = λ id. refl; finds = tt; each = tt; apart = tt };
  quiet = tt;
}

-- A server before its first client: a well-formed store and broker, no client counted and no
-- subscription open. A SUBSCRIBE in a log that is replayed leaves one open that no connection has.
pub record IsFresh (s : Server) : Type 0 where
  pub clients : s.clients ≡ pos 0
  pub store : Valid.IsValid s.store
  pub broker : Pubsub.Valid.IsValid s.broker
  pub unheard : (id : ℕ) → is_open (get_elem? s.broker.made id) ≡ false

-- `New` gives one.
pub new-IsFresh : (cfg : Config) (now : Time) → cfg.shards ≤ℤ pos (2 ^ 32) → IsFresh (new cfg now)
unfolding new
new-IsFresh cfg now h = record {
  clients = refl;
  store = (new-IsSound cfg now h).store;
  broker = new-IsValid;
  unheard = λ id. refl;
}

fresh-IsSound : {s : Server} → IsFresh s → IsSound (record { server = s; conns = [] })
fresh-IsSound h = record {
  clients = h.clients;
  store = h.store;
  broker = h.broker;
  owned = record { split = h.unheard; finds = tt; each = tt; apart = tt };
  quiet = tt;
}

-- A server starts with a well-formed store and broker, no client counted and no subscription open. In
-- every state that it can reach, whatever its clients send and however the goroutines take turns, with
-- a round of a connection in one piece: the counter of clients is the number of connections between
-- their two updates of it; every shard and every set of the broker is well-formed; each open
-- subscription is in the hands of exactly one connection, and no connection that is not counted has
-- one.
pub reach-IsSound : {start : Server} {sys : System} → IsFresh start → Reach start sys → IsSound sys
reach-IsSound h here = fresh-IsSound h
reach-IsSound h (next r s) = step-IsSound s (reach-IsSound h r)

uncounted_quiet : (p : Phase) (subs : Dict ℕ) → IsQuiet p subs → counted p ≡ 0 → subs ≡ []
uncounted_quiet spawned subs h n = h
uncounted_quiet running subs h n = absurd (omega (arith, n))
uncounted_quiet leaving subs h n = absurd (omega (arith, n))
uncounted_quiet gone subs h n = h

none_held :
    (id : ℕ) (conns : List Conn)
    → All (λ c. IsQuiet c.phase c.subs) conns
    → active_count conns ≡ 0
    → held id (subs_of conns) ≡ false
none_held id [] h n = refl
none_held id (c ∷ conns) (h, hs) n =
    rw (uncounted_quiet c.phase c.subs h (omega (arith, n)))
      (none_held id conns hs (omega (arith, n)))

no_members : (ids : List ℕ) → ((id : ℕ) → member id ids ≡ false) → ids ≡ []
no_members [] h = refl
no_members (x ∷ ids) h = absurd (ground (arith, h x, ==_iff x x))

-- A server starts with a well-formed store and broker, no client counted and no subscription open. In
-- every state that it can reach in which its counter of clients is 0, the broker has no subscriber on
-- any channel: no subscription outlives its connection.
pub no_leak :
    {start : Server} {sys : System} (ch : Bytes)
    → IsFresh start
    → Reach start sys
    → sys.server.clients ≡ pos 0
    → snapshot ch sys.server.broker ≡ []
no_leak {sys = sys} ch h r n =
    let sound = reach-IsSound h r in
    let idle : active_count sys.conns ≡ 0 = ground (arith, sound.clients, n) in
    no_members (snapshot ch sys.server.broker) (λ id. ground (
      arith,
      sound.broker.exact ch id,
      sound.owned.split id,
      none_held id sys.conns sound.quiet idle,
    ))
