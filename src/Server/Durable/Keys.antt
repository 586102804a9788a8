-- ===== src/Server/Durable/Keys.antt =====
-- DEL, PERSIST, FLUSHDB and MSET against what they log (internal/command/command.go).
use voltkv.Base.{
  ℕ, zero, suc, ◌≤◌, ◌≡◌, refl, sym, ap, ◌∙◌, subst, Bool, true, false, Option, none, some, List,
  [], ◌∷◌, Bytes, arith,
}
use voltkv.Store.Time.{Time}
use voltkv.Store.Shards.{Store}
use voltkv.Store.Generic
use voltkv.Store.Walks.{flush_db}
use voltkv.Store.Walks.Sweep.{flush_db-IsValid, entry_at-flush_db}
use voltkv.Store.Sound.{flush_db-Changes}
use voltkv.Store.Refine.Untimed.{CellUntimed}
use voltkv.Store.Refine.Untimed.Idle.{del-Idle, persist-Idle}
use voltkv.Store.Refine.Untimed.Twins.{IsLasting, Twin, Twin-refl, Twin-trans}
use voltkv.Command.World.{World, GoError, nil, logged}
use voltkv.Command.Generic.{del_each, count_if, cmd_del, log_removal, cmd_persist, cmd_flushdb}
use voltkv.Server.Durable.{Durable, Quiet-Durable, emit-Quiet, quiet, own, Left, Outcome}
use voltkv.Server.Durable.Calls.{Idle-Mutes, Twin-Calls, after}
use voltkv.Server.Durable.Logs.{Calls-Durable, logged_if}
use voltkv.Server.Durable.Methods.{del-Calls, persist-Calls}
use voltkv.Server.Durable.Items.{log_removal-Loud}

pub cmd_persist-Durable : (args : List Bytes) → Durable args (cmd_persist args)
unfolding cmd_persist
cmd_persist-Durable (c ∷ k ∷ []) =
    let m = persist-Calls k in
    Calls-Durable (c ∷ k ∷ []) m _ (logged_if _ _ _ _ (Idle-Mutes m false (persist-Idle _)))
cmd_persist-Durable args = Quiet-Durable args _ (emit-Quiet _)

flush_db-IsLasting : (s : Store) → IsLasting s → IsLasting (flush_db s)
flush_db-IsLasting s l = record {
  valid = flush_db-IsValid l.valid;
  typed = (flush_db-Changes s).typed l.valid l.typed;
  untimed = λ k. subst CellUntimed (sym (entry_at-flush_db s k)) tt;
}

flush_db-Twin : (s t : Store) → Twin s t → Twin (flush_db s) (flush_db t)
flush_db-Twin s t h = record {
  left = flush_db-IsLasting s h.left;
  right = flush_db-IsLasting t h.right;
  same = λ k. entry_at-flush_db s k ∙ sym (entry_at-flush_db t k);
}

pub cmd_flushdb-Durable : (args : List Bytes) → Durable args (cmd_flushdb args)
unfolding cmd_flushdb
cmd_flushdb-Durable args = record {
  at = λ w l.
      own (flush_db-IsLasting w.store l) refl
        (λ u h. (nil, _, refl, flush_db-Twin u.store w.store h, refl));
}

-- The loop of DEL on twins, which counts the same in both; if it counts nothing, nothing changed.
record Deletes (keys : List Bytes) (n : ℕ) (u w : World) : Type 0 where
  count : ℕ
  left : World
  right : World
  runs_left : del_each keys n u ≡ some (count, left)
  runs_right : del_each keys n w ≡ some (count, right)
  twin : Twin left.store right.store
  subs : left.subs ≡ u.subs
  aof : right.aof ≡ w.aof
  counts : n ≤ count
  still : count ≡ n → Twin right.store w.store

counted : (b : Bool) (n c : ℕ) → count_if b n ≤ c → n ≤ c
counted true n c h = omega arith
counted false n c h = h

-- A round that removed nothing changed nothing.
round_still :
    (k : Bytes) (now : Time) (s r : Store) (b : Bool) (n c : ℕ)
    → IsLasting s
    → (Generic.del k now s).1 ≡ b
    → count_if b n ≤ c
    → (c ≡ count_if b n → Twin r (Generic.del k now s).0)
    → c ≡ n
    → Twin r s
round_still k now s r true n c l e h t q = absurd (omega arith)
round_still k now s r false n c l e h t q =
    Twin-trans (t q) (Idle-Mutes (del-Calls k) false del-Idle now s l e)

del_round-Deletes :
    (k : Bytes) (keys : List Bytes) (n : ℕ) (u w : World) (b : Bool)
    → IsLasting w.store
    → (Generic.del k (w.clock w.reads) w.store).1 ≡ b
    → (Generic.del k (u.clock u.reads) u.store).1 ≡ b
    → Deletes keys (count_if b n) (after (Generic.del k) u) (after (Generic.del k) w)
    → Deletes (k ∷ keys) n u w
unfolding del_each
del_round-Deletes k keys n u w b l e f d = record {
  count = d.count;
  left = d.left;
  right = d.right;
  runs_left = ap (λ x. del_each keys (count_if x n) (after (Generic.del k) u)) f ∙ d.runs_left;
  runs_right = ap (λ x. del_each keys (count_if x n) (after (Generic.del k) w)) e ∙ d.runs_right;
  twin = d.twin;
  subs = d.subs;
  aof = d.aof;
  counts = counted b n d.count d.counts;
  still = round_still k (w.clock w.reads) w.store d.right.store b n d.count l e d.counts d.still;
}

del_each-Deletes :
    (keys : List Bytes) (n : ℕ) (u w : World) → Twin u.store w.store → Deletes keys n u w
unfolding del_each
del_each-Deletes [] n u w h = record {
  count = n;
  left = u;
  right = w;
  runs_left = refl;
  runs_right = refl;
  twin = h;
  subs = refl;
  aof = refl;
  counts = omega arith;
  still = λ e. Twin-refl h.right;
}
del_each-Deletes (k ∷ keys) n u w h =
    let (tw, same) =
      Twin-Calls (del-Calls k) (u.clock u.reads) (w.clock w.reads) u.store w.store h in
    del_round-Deletes k keys n u w _ h.right refl same (del_each-Deletes keys _ _ _ tw)

abbrev rest_of : List Bytes → Option (ℕ × World) → Option (GoError × World)
rest_of args none = none
rest_of args (some (n, w)) = log_removal args n w

-- The loop ends alike however it is compared.
count_of : Option (ℕ × World) → ℕ
count_of none = 0
count_of (some (n, w)) = n

store_of : Option (ℕ × World) → Store → Store
store_of none s = s
store_of (some (n, w)) s = w.store

-- A DEL that counts a key counts as many on a twin.
removed_again :
    (args keys : List Bytes) (u w : World) (c : ℕ) (d : Deletes keys 0 w w)
    → d.count ≡ suc c
    → Deletes keys 0 u w
    → (e : GoError) × (u' : World) × (rest_of args (del_each keys 0 u) ≡ some (e, u'))
      × Twin u'.store d.right.store
      × (u'.subs ≡ u.subs)
unfolding count_of store_of
removed_again args keys u w c d e d' =
    let same = sym d'.runs_right ∙ d.runs_right in
    let count : d'.count ≡ suc c = ap count_of same ∙ e in
    let store : d'.right.store ≡ d.right.store = ap (λ o. store_of o w.store) same in
    let (out, q) = log_removal-Loud args c d'.left in
    (
      nil,
      _,
      ap (rest_of args) d'.runs_left ∙ ap (λ n. log_removal args n d'.left) count ∙ q,
      subst (Twin d'.left.store) store d'.twin,
      d'.subs,
    )

-- DEL logs its own words if it counted a key.
removed-Outcome :
    (args keys : List Bytes) (w : World) (c : ℕ) (d : Deletes keys 0 w w)
    → d.count ≡ c
    → Left
        (λ e w'. Outcome args (λ u. rest_of args (del_each keys 0 u)) w w')
        (log_removal args c d.right)
removed-Outcome args keys w zero d e = quiet (d.still e) d.aof
removed-Outcome args keys w (suc c) d e =
    let (out, q) = log_removal-Loud args c d.right in
    subst (Left (λ e w'. Outcome args (λ u. rest_of args (del_each keys 0 u)) w w')) (sym q) (
      own d.twin.right (ap (logged args) d.aof)
        (λ u tw. removed_again args keys u w c d e (del_each-Deletes keys 0 u w tw)))

del_keys-Durable : (args keys : List Bytes) → Durable args (λ u. rest_of args (del_each keys 0 u))
del_keys-Durable args keys = record {
  at = λ w l.
      let d = del_each-Deletes keys 0 w w (Twin-refl l) in
      subst (Left (λ e w'. Outcome args (λ u. rest_of args (del_each keys 0 u)) w w'))
        (sym (ap (rest_of args) d.runs_right)) (removed-Outcome args keys w d.count d refl);
}

pub cmd_del-Durable : (args : List Bytes) → Durable args (cmd_del args)
unfolding cmd_del
cmd_del-Durable (c ∷ k ∷ keys) = del_keys-Durable (c ∷ k ∷ keys) (k ∷ keys)
cmd_del-Durable args = Quiet-Durable args _ (emit-Quiet _)
