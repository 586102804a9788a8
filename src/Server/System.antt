-- ===== src/Server/System.antt =====
-- The server with its connections: every goroutine takes its steps when it likes
-- (internal/server/server.go).
use voltkv.Base.{ℕ, ◌≡◌, true, some, List, [], ◌∷◌, ◌++◌, All, get_elem?, set, Bytes}
use voltkv.Base.Int.{pos, ◌+ℤ◌, ◌-ℤ◌}
use voltkv.Base.Dict
use voltkv.Store.Time.{Time}
use voltkv.Store.Walks.{sweep_expired}
use voltkv.Pubsub
use voltkv.Server.{
  Server, Conn, spawned, running, leaving, gone, accepted, Env, turn, again, leave, receive,
  is_drained,
}

pub record System : Type 0 where
  pub server : Server
  pub conns : List Conn

pub data Step (sys : System) : System → Type 0 where
  -- `Accept` returns a connection, whose client is going to send `input`.
  accept :
      (input : Bytes)
      → Step sys (record sys { conns = sys.conns ++ accepted sys.server input ∷ [] })
  -- `handleConn` starts: `s.clients.Add(1)`.
  begin :
      (i : ℕ) {c : Conn}
      → get_elem? sys.conns i ≡ some c
      → c.phase ≡ spawned
      → Step sys (record {
        server = record sys.server { clients = sys.server.clients +ℤ pos 1 };
        conns = set sys.conns i (record c { phase = running });
      })
  -- A round of its loop.
  round :
      (i : ℕ) (env : Env) {c c' : Conn} {s : Server}
      → get_elem? sys.conns i ≡ some c
      → c.phase ≡ running
      → turn env sys.server c ≡ again s c'
      → Step sys (record { server = s; conns = set sys.conns i c' })
  -- The last round.
  stop :
      (i : ℕ) (env : Env) {c c' : Conn} {s : Server}
      → get_elem? sys.conns i ≡ some c
      → c.phase ≡ running
      → turn env sys.server c ≡ leave s c'
      → Step sys (record { server = s; conns = set sys.conns i (record c' { phase = leaving }) })
  -- A round of the deferred loop over `cs.Subs`.
  drop :
      (i : ℕ) (ch : Bytes) (id : ℕ) {c : Conn}
      → get_elem? sys.conns i ≡ some c
      → c.phase ≡ leaving
      → Dict.lookup ch c.subs ≡ some id
      → Step sys (record {
        server = record sys.server { broker = Pubsub.unsubscribe id sys.server.broker };
        conns = set sys.conns i (record c { subs = Dict.erase ch c.subs });
      })
  -- `deliverWG.Wait()` is over: `s.clients.Add(-1)`.
  close :
      (i : ℕ) {c : Conn}
      → get_elem? sys.conns i ≡ some c
      → c.phase ≡ leaving
      → c.subs ≡ []
      → All (λ id. is_drained (get_elem? sys.server.broker.made id) ≡ true) c.delivering
      → Step sys (record {
        server = record sys.server { clients = sys.server.clients -ℤ pos 1 };
        conns = set sys.conns i (record c { phase = gone });
      })
  -- A delivery goroutine of the connection takes a message.
  push :
      (i id : ℕ) {c : Conn}
      → get_elem? sys.conns i ≡ some c
      → Pubsub.member id c.delivering ≡ true
      → Step sys (record {
        server = (receive id sys.server c).0;
        conns = set sys.conns i (receive id sys.server c).1;
      })
  -- A tick of `sweepLoop`.
  sweep :
      (now : Time)
      → Step sys (record sys {
        server = record sys.server { store = (sweep_expired now sys.server.store).0 };
      })

-- From a server that has been started.
pub data Reach (start : Server) : System → Type 0 where
  here : Reach start (record { server = start; conns = [] })
  next : {sys sys' : System} → Reach start sys → Step sys sys' → Reach start sys'
