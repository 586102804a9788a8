-- ===== src/Server/Durable/Restart.antt =====
-- A restart of the server from the log of the run before (internal/server/server.go,
-- internal/aof/aof.go).
use voltkv.Base.{
  ℕ, ◌<◌, ◌^◌, ◌≡◌, refl, sym, ap, ◌∙◌, subst, Option, none, some, List, [], ◌∷◌, append-nil,
  length, All, Bytes, codes, arith,
}
use voltkv.Base.Int.{pos, ◌≤ℤ◌}
use voltkv.Store.Time.{Time}
use voltkv.Store.Shards.{entry_at}
use voltkv.Store.Shards.New
use voltkv.Store.Refine.Typed.{CellTyped}
use voltkv.Store.Refine.Untimed.{CellUntimed}
use voltkv.Store.Refine.Untimed.Twins.{IsLasting, Twin}
use voltkv.Resp.{array_header}
use voltkv.Aof.{finished, write_command, write_commands}
use voltkv.Aof.Replays.{IsCommand}
use voltkv.Command.World.{World}
use voltkv.Server.{Config, Server, new}
use voltkv.Server.Start.{silent_world, start_up}
use voltkv.Server.Recovery.{executed, restart_torn, replayed-IsFresh}
use voltkv.Server.Reachable.{IsFresh, new-IsSound}
use voltkv.Server.System.{System, Reach}
use voltkv.Server.Durable.Rounds.{RunDeadlineless, reach-Between}

pub entry_at-new : (cfg : Config) (now : Time) (k : Bytes) → entry_at (new cfg now).store k ≡ none
unfolding new
entry_at-new cfg now k = New.entry_at-new _ k

pub new-IsLasting :
    (cfg : Config) (now : Time) → cfg.shards ≤ℤ pos (2 ^ 32) → IsLasting (new cfg now).store
new-IsLasting cfg now h = record {
  valid = (new-IsSound cfg now h).store;
  typed = record { at = λ k. subst CellTyped (sym (entry_at-new cfg now k)) tt };
  untimed = λ k. subst CellUntimed (sym (entry_at-new cfg now k)) tt;
}

pub some-injective : {A : Type 0} (d a b : A) → some a ≡ some b → a ≡ b
some-injective {A} d a b e = ap (λ (o : Option A). elim o [ none ↦ d | some x ↦ x ]) e

abbrev ping : List Bytes
ping = codes "PING" ∷ []

ping-IsCommand : IsCommand ping
ping-IsCommand = record { named = omega arith; few = omega arith; fits = (omega arith, tt) }

-- A start from a whole log comes to what its commands lead to.
pub start_up-executed :
    (cfg : Config) (now : Time) (clock : ℕ → Time) (log : List (List Bytes)) (u' : World)
    → cfg.shards ≤ℤ pos (2 ^ 32)
    → 0 < length cfg.aof_path
    → All IsCommand log
    → executed log (silent_world clock (new cfg now)) ≡ some u'
    → start_up (some (write_commands log)) clock (new cfg now)
      ≡ finished (record (new cfg now) { store = u'.store; broker = u'.broker; aof = some [] })
unfolding new write_command array_header
start_up-executed cfg now clock log u' small logs cs x =
    let (w, e, started) =
      restart_torn cfg now clock log ping [] _ _ small logs cs ping-IsCommand refl in
    let ended : w ≡ u' = some-injective u' w u' (sym e ∙ x) in
    ap (λ file. start_up (some file) clock (new cfg now)) (sym (append-nil (write_commands log)))
    ∙ started
    ∙ ap
        (λ (v : World).
          finished (record (new cfg now) { store = v.store; broker = v.broker; aof = some [] }))
        ended

-- The replay of what a run has logged.
replay_of_run :
    (cfg cfg' : Config) (now now' : Time) (clock : ℕ → Time) {sys : System}
    (log : List (List Bytes)) (r : Reach (record (new cfg now) { aof = some [] }) sys)
    → cfg.shards ≤ℤ pos (2 ^ 32)
    → cfg'.shards ≤ℤ pos (2 ^ 32)
    → RunDeadlineless r
    → sys.server.aof ≡ some log
    → (u' : World) × (executed log (silent_world clock (new cfg' now')) ≡ some u')
      × Twin u'.store sys.server.store
      × (u'.subs ≡ [])
replay_of_run cfg cfg' now now' clock {sys} log r small small' calm kept =
    let b = reach-Between r calm (new-IsLasting cfg now small) in
    let same : b.cmds ≡ log = some-injective [] b.cmds log (sym b.aof ∙ kept) in
    let fresh : Twin (new cfg' now').store (new cfg now).store = record {
      left = new-IsLasting cfg' now' small';
      right = new-IsLasting cfg now small;
      same = λ k. entry_at-new cfg' now' k ∙ sym (entry_at-new cfg now k);
    } in
    let u = silent_world clock (new cfg' now') in
    let (u', x, tw, unsubscribed) = b.again u fresh refl in
    (u', ap (λ l. executed l u) (sym same) ∙ x, tw, unsubscribed)

-- A server with at most 2 ^ 32 shards asked for starts with no entries and an empty log, and serves
-- any clients, a round of a connection in one piece, none of whose commands is an EXPIRE, a PEXPIRE or
-- a SET with a time to live. A server with at most 2 ^ 32 shards asked for and a path for its log that
-- starts from the commands which were sent to that log, each with a name and of a size that Go can
-- allocate, holds under every key what the first one held, whatever its number of shards and its clock.
pub restart_recovers :
    (cfg cfg' : Config) (now now' : Time) (clock : ℕ → Time) {sys : System}
    (log : List (List Bytes)) (r : Reach (record (new cfg now) { aof = some [] }) sys)
    → cfg.shards ≤ℤ pos (2 ^ 32)
    → cfg'.shards ≤ℤ pos (2 ^ 32)
    → 0 < length cfg'.aof_path
    → RunDeadlineless r
    → sys.server.aof ≡ some log
    → All IsCommand log
    → (s : Server) × (start_up (some (write_commands log)) clock (new cfg' now') ≡ finished s)
      × ((k : Bytes) → entry_at s.store k ≡ entry_at sys.server.store k)
restart_recovers cfg cfg' now now' clock {sys} log r small small' logs calm kept cs =
    let (u', x, tw, _) = replay_of_run cfg cfg' now now' clock log r small small' calm kept in
    (_, start_up-executed cfg' now' clock log u' small' logs cs x, tw.same)

finished-injective : {a b : Server} → finished a ≡ finished b → a ≡ b
finished-injective e = cc

-- The server that has been started from the log of a run without deadlines is a fresh one again.
restarted-IsFresh :
    (cfg cfg' : Config) (now now' : Time) (clock : ℕ → Time) {sys : System} {s : Server}
    (log : List (List Bytes)) (r : Reach (record (new cfg now) { aof = some [] }) sys)
    → cfg.shards ≤ℤ pos (2 ^ 32)
    → cfg'.shards ≤ℤ pos (2 ^ 32)
    → 0 < length cfg'.aof_path
    → RunDeadlineless r
    → sys.server.aof ≡ some log
    → All IsCommand log
    → start_up (some (write_commands log)) clock (new cfg' now') ≡ finished s
    → IsFresh s
restarted-IsFresh cfg cfg' now now' clock {sys} {s} log r small small' logs calm kept cs started =
    let (u', x, _, q) = replay_of_run cfg cfg' now now' clock log r small small' calm kept in
    let fresh = replayed-IsFresh cfg' now' clock log small' x q in
    let same : finished _ ≡ finished s =
      sym (start_up-executed cfg' now' clock log u' small' logs cs x) ∙ started in
    subst IsFresh (finished-injective same) fresh
