-- ===== src/Server/Recovery.antt =====
-- A start with whatever is in the log (internal/server/server.go, internal/aof/aof.go).
use voltkv.Base.{
  length, ◌<◌, ℕ, ◌≡◌, ◌^◌, ◌⊎◌, inl, inr, refl, ap, subst, ◌∙◌, Option, none, some, List, [], ◌∷◌,
  ◌++◌, All, Bytes, arith, get_elem?, false,
}
use voltkv.Base.Int.{pos, ◌≤ℤ◌}
use voltkv.Base.Dict
use voltkv.Base.Dict.{Dict}
use voltkv.Store.Time.{Time}
use voltkv.Store.Shards.Valid
use voltkv.Pubsub
use voltkv.Pubsub.Valid.{is_open}
use voltkv.Aof.{Replay, finished, crashed, replay, write_command, write_commands}
use voltkv.Aof.Termination.{replay_ends}
use voltkv.Aof.Replays.{IsCommand, apply_all, replay_torn}
use voltkv.Command.World.{World, GoError}
use voltkv.Command.Safety.{holds, IsSafe, Safe, execute-IsSafe}
use voltkv.Command.Keeps.{Returns}
use voltkv.Command.Execute.{execute}
use voltkv.Server.{Config, Server, new}
use voltkv.Server.Start.{silent_world, silent, left, resumed, replay_aof, start_at, start_up}
use voltkv.Server.Reachable.{IsFresh, new-IsSound}

-- The replay has not panicked, and its state is safe.
abbrev Alive : Option World → Type 0
Alive none = ⊥
Alive (some w) = Safe [] w

left-Alive : (r : Option (GoError × World)) → Returns (Safe []) r → Alive (left r)
left-Alive none h = absurd h
left-Alive (some (e, w)) h = h

silent-Alive : (args : List Bytes) (o : Option World) → Alive o → Alive (silent args o)
silent-Alive args none h = absurd h
silent-Alive args (some w) h = left-Alive (execute args w) (execute-IsSafe [] args w h)

-- A server that serves: well-formed, with no client.
pub record IsReady (s : Server) : Type 0 where
  pub store : Valid.IsValid s.store
  pub broker : Pubsub.Valid.IsValid s.broker
  pub clients : s.clients ≡ pos 0

resumed-IsReady :
    (s : Server) (r : Replay (Option World))
    → s.clients ≡ pos 0
    → ((o : Option World) × (r ≡ finished o) × Alive o) ⊎ (r ≡ crashed)
    → ((s' : Server) × (resumed s r ≡ finished s') × IsReady s') ⊎ (r ≡ crashed)
resumed-IsReady s r n (inl (none, e, h)) = absurd h
resumed-IsReady s r n (inl (some w, e, h)) = inl (
  record s { store = w.store; broker = w.broker; aof = some [] },
  rw e refl,
  record { store = h.store; broker = h.broker; clients = n },
)
resumed-IsReady s r n (inr e) = inr e

replay_aof-Alive :
    (file : Option Bytes) (clock : ℕ → Time) (s : Server)
    → IsSafe [] s.store s.broker []
    → ((o : Option World) × (replay_aof file clock s ≡ finished o) × Alive o)
      ⊎ (replay_aof file clock s ≡ crashed)
replay_aof-Alive none clock s h = inl (some (silent_world clock s), refl, h)
replay_aof-Alive (some file) clock s h =
    replay_ends silent Alive silent-Alive file (some (silent_world clock s)) h

start_at-IsReady :
    (path : Bytes) (file : Option Bytes) (clock : ℕ → Time) (s : Server)
    → IsSafe [] s.store s.broker []
    → s.clients ≡ pos 0
    → ((s' : Server) × (start_at path file clock s ≡ finished s') × IsReady s')
      ⊎ (replay_aof file clock s ≡ crashed)
start_at-IsReady [] file clock s h n =
    inl (s, refl, record { store = h.store; broker = h.broker; clients = n })
start_at-IsReady (c ∷ path) file clock s h n =
    resumed-IsReady s (replay_aof file clock s) n (replay_aof-Alive file clock s h)

pub new-IsSafe :
    (cfg : Config) (now : Time)
    → cfg.shards ≤ℤ pos (2 ^ 32)
    → IsSafe [] (new cfg now).store (new cfg now).broker []
unfolding Dict.lookup new
new-IsSafe cfg now h =
    let sound = new-IsSound cfg now h in
    record {
      store = sound.store;
      broker = sound.broker;
      distinct = tt;
      split = λ id. refl;
      apart = λ id. refl;
      channels = λ ch id. cc;
      frame = tt;
    }

-- Whatever bytes are in the log, and with or without one, a server with at most 2 ^ 32 shards asked
-- for starts: it comes to serve its first client with a well-formed store and broker and its counter
-- at 0, unless a panic of the reader ends the replay.
pub start_up_ends :
    (cfg : Config) (now : Time) (file : Option Bytes) (clock : ℕ → Time)
    → cfg.shards ≤ℤ pos (2 ^ 32)
    → ((s : Server) × (start_up file clock (new cfg now) ≡ finished s) × IsReady s)
      ⊎ (replay_aof file clock (new cfg now) ≡ crashed)
unfolding new
start_up_ends cfg now file clock h =
    start_at-IsReady cfg.aof_path file clock (new cfg now) (new-IsSafe cfg now h) refl

unheard-IsFresh :
    {s : Server} → IsReady s → ((id : ℕ) → is_open (get_elem? s.broker.made id) ≡ false) → IsFresh s
unheard-IsFresh r h = record {
  clients = r.clients;
  store = r.store;
  broker = r.broker;
  unheard = h;
}

crashed≢finished : {s : Server} → crashed ≡ finished s → ⊥
crashed≢finished h = cc

started-IsReady :
    (path : Bytes) (file : Option Bytes) (clock : ℕ → Time) (s₀ : Server) {s : Server}
    → IsReady s₀
    → IsSafe [] s₀.store s₀.broker []
    → start_at path file clock s₀ ≡ finished s
    → IsReady s
started-IsReady [] file clock s₀ {s} r h e = let same : s₀ ≡ s = cc in subst IsReady same r
started-IsReady (c ∷ path) file clock s₀ {s} r h e =
    elim (resumed-IsReady s₀ (replay_aof file clock s₀) r.clients
      (replay_aof-Alive file clock s₀ h)) [
        | inl (s', e', ready) ↦ let same : s' ≡ s = cc in subst IsReady same ready
        | inr stopped ↦ absurd (crashed≢finished (rw stopped at e))
      ]

-- A start with a log or without one gives a fresh server, if no subscription of the log is open.
pub start_up-IsFresh :
    (cfg : Config) (now : Time) (file : Option Bytes) (clock : ℕ → Time) {s : Server}
    → cfg.shards ≤ℤ pos (2 ^ 32)
    → start_up file clock (new cfg now) ≡ finished s
    → ((id : ℕ) → is_open (get_elem? s.broker.made id) ≡ false)
    → IsFresh s
unfolding new
start_up-IsFresh cfg now file clock h e unheard =
    unheard-IsFresh
      (started-IsReady cfg.aof_path file clock (new cfg now)
        (record {
          store = (new-IsSound cfg now h).store;
          broker = (new-IsSound cfg now h).broker;
          clients = refl;
        })
        (new-IsSafe cfg now h) e)
      unheard

-- The commands one after the other, as a replay executes them.
abbrev pub executed : List (List Bytes) → World → Option World
executed cmds w = apply_all silent cmds (some w)

executed-Alive :
    (cmds : List (List Bytes)) (o : Option World) → Alive o → Alive (apply_all silent cmds o)
executed-Alive [] o h = h
executed-Alive (cmd ∷ cmds) o h = executed-Alive cmds (silent cmd o) (silent-Alive cmd o h)

replayed_world : {w : World} (o : Option World) → Alive o → o ≡ some w → Safe [] w
replayed_world none h e = absurd h
replayed_world {w} (some x) h e = let same : x ≡ w = cc in subst (Safe []) same h

unsubscribed-IsFresh :
    (s : Server) (w : World)
    → Safe [] w
    → w.subs ≡ []
    → s.clients ≡ pos 0
    → IsFresh (record s { store = w.store; broker = w.broker; aof = some [] })
unsubscribed-IsFresh s w h q n = record {
  clients = n;
  store = h.store;
  broker = h.broker;
  unheard = λ id. h.split id ∙ ap (holds id) q;
}

-- A replay of whole commands that leaves its connection without a subscription gives a fresh server.
pub replayed-IsFresh :
    (cfg : Config) (now : Time) (clock : ℕ → Time) (cmds : List (List Bytes)) {w : World}
    → cfg.shards ≤ℤ pos (2 ^ 32)
    → executed cmds (silent_world clock (new cfg now)) ≡ some w
    → w.subs ≡ []
    → IsFresh (record (new cfg now) { store = w.store; broker = w.broker; aof = some [] })
unfolding new
replayed-IsFresh cfg now clock cmds {w} small e q =
    unsubscribed-IsFresh (new cfg now) w
      (replayed_world _ (executed-Alive cmds _ (new-IsSafe cfg now small)) e) q refl

some_of : (o : Option World) → Alive o → (w : World) × (o ≡ some w)
some_of none h = absurd h
some_of (some w) h = (w, refl)

start_at-finished :
    (path : Bytes) (file : Bytes) (clock : ℕ → Time) (s : Server) (w : World)
    → 0 < length path
    → replay silent file (some (silent_world clock s)) ≡ finished (some w)
    → start_at path (some file) clock s
      ≡ finished (record s { store = w.store; broker = w.broker; aof = some [] })
start_at-finished [] file clock s w h e = absurd (omega arith)
start_at-finished (c ∷ path) file clock s w h e = ap (resumed s) e

-- A server with a path for its log and at most 2 ^ 32 shards asked for, whose log holds whole commands
-- and after them the front of one that was cut off before its last byte, starts, with no panic, in
-- the state that the whole commands lead to one after the other from an empty store.
pub restart_torn :
    (cfg : Config) (now : Time) (clock : ℕ → Time) (cmds : List (List Bytes)) (last : List Bytes)
    (front : Bytes) (c : ℕ) (back : Bytes)
    → cfg.shards ≤ℤ pos (2 ^ 32)
    → 0 < length cfg.aof_path
    → All IsCommand cmds
    → IsCommand last
    → write_command last ≡ front ++ c ∷ back
    → (w : World) × (executed cmds (silent_world clock (new cfg now)) ≡ some w)
      × (start_up (some (write_commands cmds ++ front)) clock (new cfg now)
          ≡ finished (record (new cfg now) { store = w.store; broker = w.broker; aof = some [] }))
unfolding new
restart_torn cfg now clock cmds last front c back small logs cs l split =
    let w₀ = silent_world clock (new cfg now) in
    let (w, e) =
      some_of (executed cmds w₀) (executed-Alive cmds (some w₀) (new-IsSafe cfg now small)) in
    (
      w,
      e,
      start_at-finished cfg.aof_path _ clock (new cfg now) w logs
          (replay_torn silent cmds last front c back (some w₀) cs l split ∙ ap finished e),
    )
