-- ===== src/Server/Durable/Calls.antt =====
-- A method of the store as a call on a key, and what is left of a handler behind it
-- (internal/command/command.go).
use voltkv.Base.{◌+◌, ◌≡◌, sym, ap, ◌∙◌, subst, some, List, Bytes}
use voltkv.Store.Time.{Time}
use voltkv.Store.Shards.{Store}
use voltkv.Store.Refine.{Call, Reply, run}
use voltkv.Store.Refine.Typed.{IsProper}
use voltkv.Store.Refine.Untimed.{IsUntimed}
use voltkv.Store.Refine.Untimed.Idle.{Idle}
use voltkv.Store.Refine.Untimed.Twins.{IsLasting, Twin, run-Twin, run-IsLasting, run-Idle}
use voltkv.Command.World.{World, M, GoError, nil, logged}

-- The method `f` is the call `c`, and `forth` makes the reply from its result.
pub record Calls {A : Type 0} (f : Time → Store → Store × A) (c : Call) (forth : A → Reply)
    : Type 0 where
  pub key : Bytes
  pub back : Reply → A
  pub round : (a : A) → back (forth a) ≡ a
  pub proper : IsProper c
  pub untimed : IsUntimed c
  pub stores : (now : Time) (s : Store) → (run c key now s).0 ≡ (f now s).0
  pub replies : (now : Time) (s : Store) → (run c key now s).1 ≡ forth (f now s).1

-- The method changes nothing where it returns `a`.
abbrev pub Mutes : {A : Type 0} → (Time → Store → Store × A) → A → Type 0
Mutes f a = (now : Time) (s : Store) → IsLasting s → (f now s).1 ≡ a → Twin (f now s).0 s

module _ {A : Type 0} {f : Time → Store → Store × A} {c : Call} {forth : A → Reply}
    (m : Calls f c forth) where
  pub IsLasting-Calls : (now : Time) (s : Store) → IsLasting s → IsLasting (f now s).0
  IsLasting-Calls now s l =
      subst IsLasting (m.stores now s) (run-IsLasting l c m.key now m.proper m.untimed)

  -- On twins the method does the same at any two times.
  pub Twin-Calls :
      (now later : Time) (s t : Store)
      → Twin s t
      → Twin (f now s).0 (f later t).0 × ((f now s).1 ≡ (f later t).1)
  Twin-Calls now later s t h =
      let (tw, e) = run-Twin h c m.key now later m.proper m.untimed in
      (
        subst (λ r. Twin r (f later t).0) (m.stores now s)
            (subst (Twin (run c m.key now s).0) (m.stores later t) tw),
        sym (m.round _) ∙ ap m.back (sym (m.replies now s) ∙ e ∙ m.replies later t) ∙ m.round _,
      )

  pub Idle-Mutes : (a : A) → Idle c (forth a) → Mutes f a
  Idle-Mutes a idle now s l e =
      subst (λ r. Twin r s) (m.stores now s)
        (run-Idle l m.key now c m.proper m.untimed
          (subst (Idle c) (sym (m.replies now s ∙ ap forth e)) idle))

-- The rest of a handler, which logs `cmd` and replies.
abbrev pub Loud : List Bytes → M GoError → Type 0
Loud cmd m =
    (w : World) → (out : Bytes) × (m w ≡ some (nil, record w { aof = logged cmd w.aof; out = out }))

-- The rest of a handler, which only replies.
abbrev pub Mute : M GoError → Type 0
Mute m = (w : World) → (out : Bytes) × (m w ≡ some (nil, record w { out = out }))

abbrev pub after : {A : Type 0} → (Time → Store → Store × A) → World → World
after f w = record w { store = (f (w.clock w.reads) w.store).0; reads = w.reads + 1 }
