-- ===== src/Server/Durable/Pairs.antt =====
-- MSET logs one plain SET for each of its pairs (internal/command/command.go).
use voltkv.Base.{
  ◌≡◌, refl, sym, ap, ◌∙◌, subst, Option, none, some, List, [], ◌∷◌, append_assoc, append-nil,
  Bytes, codes,
}
use voltkv.Base.Int.{pos}
use voltkv.Store.Refine.Untimed.Twins.{IsLasting, Twin}
use voltkv.Command.World.{World, GoError, logged, write_simple}
use voltkv.Command.Strings.{plain_set, set_each, mset_pairs, cmd_mset, pairs_of}
use voltkv.Server.Start.{silent}
use voltkv.Aof.Replays.{apply_all}
use voltkv.Server.Recovery.{executed}
use voltkv.Server.Durable.{Durable, Quiet-Durable, emit-Quiet, Outcome, Left, other, logged_all}
use voltkv.Server.Durable.Calls.{IsLasting-Calls, after}
use voltkv.Server.Durable.Sets.{executed-set, Twin-set}
use voltkv.Server.Durable.Methods.{set-Calls}

abbrev pub sets_of : List (Bytes × Bytes) → List (List Bytes)
sets_of [] = []
sets_of ((k, v) ∷ pairs) = (codes "SET" ∷ k ∷ v ∷ []) ∷ sets_of pairs

pub logged_all-nil : (o : Option (List (List Bytes))) → o ≡ logged_all [] o
logged_all-nil none = refl
logged_all-nil (some sent) = ap some (sym (append-nil sent))

logged_all-logged :
    (cmd : List Bytes) (cmds : List (List Bytes)) (o : Option (List (List Bytes)))
    → logged_all cmds (logged cmd o) ≡ logged_all (cmd ∷ cmds) o
logged_all-logged cmd cmds none = refl
logged_all-logged cmd cmds (some sent) = ap some (append_assoc sent (cmd ∷ []) cmds)

-- The loop of MSET and a replay of what it logs.
record SetsPairs (pairs : List (Bytes × Bytes)) (w : World) : Type 0 where
  last : World
  runs : set_each pairs w ≡ some (tt, last)
  lasting : IsLasting last.store
  aof : last.aof ≡ logged_all (sets_of pairs) w.aof
  again :
      (u : World)
      → Twin u.store w.store
      → u.subs ≡ []
      → (u' : World) × (executed (sets_of pairs) u ≡ some u')
        × Twin u'.store last.store
        × (u'.subs ≡ [])

set_each-SetsPairs :
    (pairs : List (Bytes × Bytes)) (w : World) → IsLasting w.store → SetsPairs pairs w
unfolding set_each
set_each-SetsPairs [] w l = record {
  last = w;
  runs = refl;
  lasting = l;
  aof = logged_all-nil w.aof;
  again = λ u tw calm. (u, refl, tw, calm);
}
set_each-SetsPairs ((k, v) ∷ pairs) w l =
    let cmd = codes "SET" ∷ k ∷ v ∷ [] in
    let w₁ = after (plain_set k v (pos 0)) w in
    let s =
      set_each-SetsPairs pairs (record w₁ { aof = logged cmd w.aof })
        (IsLasting-Calls (set-Calls k v (pos 0) refl) _ w.store l) in
    record {
      last = s.last;
      runs = s.runs;
      lasting = s.lasting;
      aof = s.aof ∙ logged_all-logged cmd (sets_of pairs) w.aof;
      again = λ u tw calm.
          let (u₁, x, stored, calm₁) = executed-set k v u calm in
          let tw₁ =
            subst (λ t. Twin t w₁.store) (sym stored)
              (Twin-set k v (u.clock u.reads) (w.clock w.reads) u.store w.store tw) in
          let (u', y, twin, calm') = s.again u₁ tw₁ calm₁ in
          (u', ap (apply_all silent (sets_of pairs)) x ∙ y, twin, calm');
    }

-- The reply behind the loop.
abbrev ok_reply : Option (Unit {0} × World) → Option (GoError × World)
ok_reply none = none
ok_reply (some (u, w)) = write_simple (codes "OK") w

mset_pairs-Durable :
    (args : List Bytes) (o : Option (List (Bytes × Bytes))) → Durable args (mset_pairs o)
mset_pairs-Durable args none = Quiet-Durable args _ (emit-Quiet _)
mset_pairs-Durable args (some pairs) = record {
  at = λ w l.
      let s = set_each-SetsPairs pairs w l in
      subst (Left (λ e w'. Outcome args (mset_pairs (some pairs)) w w')) (sym (ap ok_reply s.runs))
        (other s.lasting (sets_of pairs) s.aof s.again);
}

pub cmd_mset-Durable : (args : List Bytes) → Durable args (cmd_mset args)
unfolding cmd_mset
cmd_mset-Durable (c ∷ k ∷ v ∷ args) = mset_pairs-Durable _ (pairs_of (k ∷ v ∷ args))
cmd_mset-Durable args = Quiet-Durable args _ (emit-Quiet _)
