-- ===== src/Server/Durable/Commands.antt =====
-- What any command logs, but those that set a deadline (internal/command/command.go).
use voltkv.Base.{
  ◌≡◌, refl, ap, ◌∙◌, Option, none, some, List, [], ◌∷◌, not, ◌&&◌, Bytes, Bool-cases, inl, inr,
}
use voltkv.Store.Refine.Untimed.Twins.{IsLasting, Twin, Twin-refl, Twin-sym, Twin-trans}
use voltkv.Store.Shards.{Store}
use voltkv.Command.World.{World, GoError, to_upper}
use voltkv.Command.Execute.{dispatch, execute, in_subscribe_mode, allowed_in_subscribe_mode}
use voltkv.Server.Start.{left}
use voltkv.Server.Recovery.{executed}
use voltkv.Server.Durable.{Outcome, quiet, own, other, Left, logged_all}
use voltkv.Server.Durable.Sets.{execute-dispatch, logged-logged_all}
use voltkv.Server.Durable.Pairs.{logged_all-nil}
use voltkv.Server.Durable.Dispatch.{SetsNoDeadline, dispatch-Durable}

abbrev pub Deadlineless : List Bytes → Type 0
Deadlineless [] = Unit
Deadlineless (raw ∷ args) = SetsNoDeadline (to_upper raw) (raw ∷ args)

-- The commands logged on the way from one store and log to another, and that a client without
-- subscriptions who executes them on the same entries comes to the same entries.
pub record Recorded (s : Store) (o : Option (List (List Bytes))) (s' : Store)
    (o' : Option (List (List Bytes))) : Type 0 where
  pub lasting : IsLasting s'
  pub cmds : List (List Bytes)
  pub aof : o' ≡ logged_all cmds o
  pub again :
      (u : World)
      → Twin u.store s
      → u.subs ≡ []
      → (u' : World) × (executed cmds u ≡ some u') × Twin u'.store s' × (u'.subs ≡ [])

pub quiet-Recorded :
    {s s' : Store} {o o' : Option (List (List Bytes))} → Twin s' s → o' ≡ o → Recorded s o s' o'
quiet-Recorded {o} tw q = record {
  lasting = tw.left;
  cmds = [];
  aof = q ∙ logged_all-nil o;
  again = λ u h calm. (u, refl, Twin-trans h (Twin-sym tw), calm);
}

-- What a command leaves.
abbrev pub Records : World → World → Type 0
Records w w' = Recorded w.store w.aof w'.store w'.aof

Outcome-Recorded :
    (raw : Bytes) (args : List Bytes) (w w' : World)
    → Outcome (raw ∷ args) (dispatch raw (to_upper raw) (raw ∷ args)) w w'
    → Records w w'
Outcome-Recorded raw args w w' (quiet tw q) = quiet-Recorded tw q
Outcome-Recorded raw args w w' (own l q again) = record {
  lasting = l;
  cmds = (raw ∷ args) ∷ [];
  aof = q ∙ logged-logged_all (raw ∷ args) w.aof;
  again = λ u h calm.
      let (e, u', x, tw, subs) = again u h in
      (u', ap left (execute-dispatch raw args u calm ∙ x), tw, subs ∙ calm);
}
Outcome-Recorded raw args w w' (other l cmds q again) = record {
  lasting = l;
  cmds = cmds;
  aof = q;
  again = again;
}

dispatched-Recorded :
    (raw : Bytes) (args : List Bytes) (w : World) (r : Option (GoError × World))
    → Left (λ e w'. Outcome (raw ∷ args) (dispatch raw (to_upper raw) (raw ∷ args)) w w') r
    → Left (λ e w'. Records w w') r
dispatched-Recorded raw args w none h = tt
dispatched-Recorded raw args w (some (e, w')) h = Outcome-Recorded raw args w w' h

-- A command that sets no deadline logs what a replay does the same by.
pub execute-Recorded :
    (args : List Bytes) (w : World)
    → Deadlineless args
    → IsLasting w.store
    → Left (λ e w'. Records w w') (execute args w)
unfolding execute
execute-Recorded [] w h l = quiet-Recorded (Twin-refl l) refl
execute-Recorded (raw ∷ args) w h l =
    elim (Bool-cases (in_subscribe_mode w && not (allowed_in_subscribe_mode (to_upper raw)))) [
      | inl refused ↦ rw refused (quiet-Recorded (Twin-refl l) refl)
      | inr run ↦ rw run (
          dispatched-Recorded raw args w _
            ((dispatch-Durable raw (to_upper raw) (raw ∷ args) h).at w l))
    ]
