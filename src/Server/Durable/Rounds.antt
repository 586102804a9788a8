-- ===== src/Server/Durable/Rounds.antt =====
-- What the rounds of the connections and the sweeps log, against what they do
-- (internal/server/server.go).
use voltkv.Base.{
  ℕ, ◌≡◌, refl, sym, ap, ◌∙◌, subst, Bool, true, false, Option, none, some, List, [], ◌∷◌, ◌++◌,
  append_assoc, Bytes, Bool-cases, inl, inr, get_elem?,
}
use voltkv.Base.Int.{pos, ◌+ℤ◌}
use voltkv.Resp.Reader.{Read, read_command, got, fail, panic}
use voltkv.Store.Time.{Time}
use voltkv.Store.Shards.{Store}
use voltkv.Store.Walks.{sweep_expired}
use voltkv.Store.Walks.Sweep.{sweep_expired-IsValid, entry_at-sweep_expired}
use voltkv.Store.Refine.Typed.{CellTyped}
use voltkv.Store.Refine.Untimed.{CellUntimed}
use voltkv.Store.Refine.Untimed.Twins.{IsLasting, Twin, Twin-refl, live-IsLasting}
use voltkv.Pubsub.{Subscription, Message}
use voltkv.Command.World.{World, GoError, nil, empty_command}
use voltkv.Aof.Replays.{apply_all}
use voltkv.Server.{
  Server, Conn, Env, turn, Turn, again, leave, crash, settle, run_command, world_of, receive,
  receive_at, receive_from,
}
use voltkv.Server.Start.{silent}
use voltkv.Server.System.{
  System, Step, accept, begin, round, stop, drop, close, push, sweep, Reach, here, next,
}
use voltkv.Server.Durable.{Left, logged_all}
use voltkv.Server.Durable.Commands.{Deadlineless, Recorded, quiet-Recorded, execute-Recorded}

pub apply_all-append :
    (cmds more : List (List Bytes)) (o : Option World)
    → apply_all silent (cmds ++ more) o ≡ apply_all silent more (apply_all silent cmds o)
apply_all-append [] more o = refl
apply_all-append (cmd ∷ cmds) more o = apply_all-append cmds more (silent cmd o)

logged_all-append :
    (cmds more : List (List Bytes)) (o : Option (List (List Bytes)))
    → logged_all more (logged_all cmds o) ≡ logged_all (cmds ++ more) o
logged_all-append cmds more none = refl
logged_all-append cmds more (some sent) = ap some (append_assoc sent cmds more)

Recorded-trans :
    {s s₁ s₂ : Store} {o o₁ o₂ : Option (List (List Bytes))}
    → Recorded s o s₁ o₁
    → Recorded s₁ o₁ s₂ o₂
    → Recorded s o s₂ o₂
Recorded-trans {o} f g = record {
  lasting = g.lasting;
  cmds = f.cmds ++ g.cmds;
  aof = g.aof ∙ ap (logged_all g.cmds) f.aof ∙ logged_all-append f.cmds g.cmds o;
  again = λ u h calm.
      let (u₁, x, tw, calm₁) = f.again u h calm in
      let (u₂, y, tw', calm₂) = g.again u₁ tw calm₁ in
      (
        u₂,
        apply_all-append f.cmds g.cmds (some u) ∙ ap (apply_all silent g.cmds) x ∙ y,
        tw',
        calm₂,
      );
}

-- From one server to another.
abbrev pub Between : Server → Server → Type 0
Between s s' = Recorded s.store s.aof s'.store s'.aof

abbrev TurnBetween : Server → Turn → Type 0
TurnBetween s (again s' c) = Between s s'
TurnBetween s (leave s' c) = Between s s'
TurnBetween s crash = Unit

settle-Between :
    (flushed : Bool) (s : Server) (c : Conn) (r : Option (GoError × World))
    → Left (λ e w'. Recorded s.store s.aof w'.store w'.aof) r
    → TurnBetween s (settle flushed s c r)
settle-Between flushed s c none h = tt
settle-Between true s c (some (nil, w')) h = h
settle-Between false s c (some (nil, w')) h = h
settle-Between flushed s c (some (empty_command, w')) h = h

-- What a read gave sets no deadline.
abbrev pub ReadsDeadlineless : Read (List Bytes) → Type 0
ReadsDeadlineless (got args rest) = Deadlineless args
ReadsDeadlineless _ = Unit

run_command-Between :
    (env : Env) (args : List Bytes) (s : Server) (c : Conn)
    → Deadlineless args
    → IsLasting s.store
    → TurnBetween s (run_command env args s c)
unfolding world_of
run_command-Between env [] s c h l = quiet-Recorded (Twin-refl l) refl
run_command-Between env (a ∷ args) s c h l =
    settle-Between env.flushed (record s { total_commands = s.total_commands +ℤ pos 1 }) c _
      (execute-Recorded (a ∷ args) _ h l)

read-Between :
    (env : Env) (s : Server) (c : Conn) (r : Read (List Bytes))
    → ReadsDeadlineless r
    → IsLasting s.store
    → TurnBetween s (elim r as (λ _. Turn) [
      | got args rest ↦ run_command env args s (record c { input = rest })
      | fail e ↦ leave s c
      | panic ↦ crash
    ])
read-Between env s c (got args rest) h l =
    run_command-Between env args s (record c { input = rest }) h l
read-Between env s c (fail x) h l = quiet-Recorded (Twin-refl l) refl
read-Between env s c panic h l = tt

turn-Between :
    (env : Env) (s : Server) (c : Conn)
    → ReadsDeadlineless (read_command c.input)
    → IsLasting s.store
    → TurnBetween s (turn env s c)
unfolding turn
turn-Between env s c h l = elim (Bool-cases env.cancelled) [
  | inl e ↦ rw e (quiet-Recorded (Twin-refl l) refl)
  | inr e ↦ rw e (read-Between env s c (read_command c.input) h l)
]

sweep-Twin : (now : Time) (s : Store) → IsLasting s → Twin (sweep_expired now s).0 s
sweep-Twin now s l =
    let same = λ (k : Bytes). entry_at-sweep_expired l.valid now k ∙ live-IsLasting l k now in
    record {
      left = record {
        valid = sweep_expired-IsValid now l.valid;
        typed = record { at = λ k. subst CellTyped (sym (same k)) (l.typed.at k) };
        untimed = λ k. subst CellUntimed (sym (same k)) (l.untimed k);
      };
      right = l;
      same = same;
    }

receive_at-Between :
    (id : ℕ) (s : Server) (c : Conn) (o : Option Subscription)
    → IsLasting s.store
    → Between s (receive_at id s c o).0
receive_at-Between id s c none l = quiet-Recorded (Twin-refl l) refl
receive_at-Between id s c (some sub) l = go sub.buffer
  where
    go : (b : List Message) → Between s (receive_from id s c sub b).0
    go [] = quiet-Recorded (Twin-refl l) refl
    go (msg ∷ rest) = quiet-Recorded (Twin-refl l) refl

receive-Between :
    (id : ℕ) (s : Server) (c : Conn) → IsLasting s.store → Between s (receive id s c).0
unfolding receive
receive-Between id s c l = receive_at-Between id s c (get_elem? s.broker.made id) l

-- The command that a step executes, if it executes one, sets no deadline.
abbrev pub StepDeadlineless : {sys sys' : System} → Step sys sys' → Type 0
StepDeadlineless (round i env {c} e p t) = ReadsDeadlineless (read_command c.input)
StepDeadlineless (stop i env {c} e p t) = ReadsDeadlineless (read_command c.input)
StepDeadlineless _ = Unit

step-Between :
    {sys sys' : System} (s : Step sys sys')
    → StepDeadlineless s
    → IsLasting sys.server.store
    → Between sys.server sys'.server
step-Between (accept input) h l = quiet-Recorded (Twin-refl l) refl
step-Between (begin i e p) h l = quiet-Recorded (Twin-refl l) refl
step-Between {sys} (round i env {c} {c'} {s} e p t) h l =
    subst (TurnBetween sys.server) t (turn-Between env sys.server c h l)
step-Between {sys} (stop i env {c} {c'} {s} e p t) h l =
    subst (TurnBetween sys.server) t (turn-Between env sys.server c h l)
step-Between (drop i ch id e p q) h l = quiet-Recorded (Twin-refl l) refl
step-Between (close i e p q d) h l = quiet-Recorded (Twin-refl l) refl
step-Between {sys} (push i id {c} e m) h l = receive-Between id sys.server c l
step-Between {sys} (sweep now) h l = quiet-Recorded (sweep-Twin now sys.server.store l) refl

-- No command that was executed on the way sets a deadline.
abbrev pub RunDeadlineless : {start : Server} {sys : System} → Reach start sys → Type 0
RunDeadlineless here = Unit
RunDeadlineless (next r s) = RunDeadlineless r × StepDeadlineless s

pub reach-Between :
    {start : Server} {sys : System} (r : Reach start sys)
    → RunDeadlineless r
    → IsLasting start.store
    → Between start sys.server
reach-Between here h l = quiet-Recorded (Twin-refl l) refl
reach-Between (next r s) (hs, h) l =
    let b = reach-Between r hs l in Recorded-trans b (step-Between s h b.lasting)
