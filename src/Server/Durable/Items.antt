-- ===== src/Server/Durable/Items.antt =====
-- The commands on hashes and lists log their own words where they change something, and a replay of
-- those does the same (internal/command/command.go).
use voltkv.Base.{
  ℕ, zero, suc, ◌≡◌, refl, ap, ◌⊎◌, inl, inr, Bool, true, false, Option, none, some, List, [], ◌∷◌,
  Bytes, arith, if◌then◌else◌, ltb,
}
use voltkv.Base.Int.{pos}
use voltkv.Store.Time.{Time}
use voltkv.Store.Shards.{Store}
use voltkv.Store.Entry.{Result, ok, err}
use voltkv.Store.Hashes
use voltkv.Store.Refine.Untimed.Idle.{
  h_set-Idle, h_del-Idle, h_del_err-Idle, l_pop-Idle, r_pop-Idle, l_push-Idle, r_push-Idle,
}
use voltkv.Command.World.{append_aof, write_integer, ◌>>◌}
use voltkv.Command.Generic.{log_removal}
use voltkv.Command.Strings.{pairs_of, with_pair}
use voltkv.Command.Hashes.{hset_pairs, cmd_hset, cmd_hdel}
use voltkv.Command.Lists.{cmd_push, popped_reply, cmd_pop}
use voltkv.Server.Durable.{Durable, Quiet-Durable, emit-Quiet}
use voltkv.Server.Durable.Calls.{Mutes, Idle-Mutes, Loud, Mute}
use voltkv.Server.Durable.Logs.{Calls-or_error}
use voltkv.Server.Durable.Methods.{
  h_set-Calls, h_del-Calls, l_pop-Calls, r_pop-Calls, l_push-Calls, r_push-Calls,
}

hset_pairs-Durable :
    (args : List Bytes) (k f v : Bytes) (o : Option (List (Bytes × Bytes)))
    → Durable args (hset_pairs args k (with_pair (f, v) o))
hset_pairs-Durable args k f v none = Quiet-Durable args _ (emit-Quiet _)
hset_pairs-Durable args k f v (some pairs) =
    let m = h_set-Calls k ((f, v) ∷ pairs) (omega arith) in
    Calls-or_error args m _ (λ e. Idle-Mutes m (err e) (h_set-Idle _ e)) (λ n. inl (λ w. (_, refl)))

pub cmd_hset-Durable : (args : List Bytes) → Durable args (cmd_hset args)
unfolding cmd_hset pairs_of
cmd_hset-Durable (a ∷ k ∷ f ∷ v ∷ args) =
    hset_pairs-Durable (a ∷ k ∷ f ∷ v ∷ args) k f v (pairs_of args)
cmd_hset-Durable args = Quiet-Durable args _ (emit-Quiet _)

pub log_removal-Loud : (args : List Bytes) (n : ℕ) → Loud args (log_removal args (suc n))
log_removal-Loud args n w =
    let more : ltb 0 (suc n) ≡ true = ground arith in
    (
      _,
      ap
          (λ b.
            (if b
                then (do append_aof args; write_integer (pos (suc n)))
                else write_integer (pos (suc n)))
              w)
          more,
    )

hdel_rest :
    (args fs : List Bytes) (k : Bytes) (n : ℕ)
    → Loud args (log_removal args n)
      ⊎ (Mute (log_removal args n) × Mutes (Hashes.h_del k fs) (ok n))
hdel_rest args fs k zero =
    inr (λ w. (_, refl), Idle-Mutes (h_del-Calls k fs) (ok 0) (h_del-Idle fs))
hdel_rest args fs k (suc n) = inl (log_removal-Loud args n)

pub cmd_hdel-Durable : (args : List Bytes) → Durable args (cmd_hdel args)
unfolding cmd_hdel
cmd_hdel-Durable (a ∷ k ∷ f ∷ fields) =
    let m = h_del-Calls k (f ∷ fields) in
    Calls-or_error (a ∷ k ∷ f ∷ fields) m _
      (λ e. Idle-Mutes m (err e) (h_del_err-Idle (f ∷ fields) e))
      (hdel_rest (a ∷ k ∷ f ∷ fields) (f ∷ fields) k)
cmd_hdel-Durable args = Quiet-Durable args _ (emit-Quiet _)

pub cmd_push-Durable : (left : Bool) (args : List Bytes) → Durable args (cmd_push left args)
unfolding cmd_push
cmd_push-Durable true (a ∷ k ∷ v ∷ values) =
    let m = l_push-Calls k (v ∷ values) (omega arith) in
    Calls-or_error _ m _ (λ e. Idle-Mutes m (err e) (l_push-Idle _ e)) (λ n. inl (λ w. (_, refl)))
cmd_push-Durable false (a ∷ k ∷ v ∷ values) =
    let m = r_push-Calls k (v ∷ values) (omega arith) in
    Calls-or_error _ m _ (λ e. Idle-Mutes m (err e) (r_push-Idle _ e)) (λ n. inl (λ w. (_, refl)))
cmd_push-Durable left args = Quiet-Durable args _ (emit-Quiet _)

popped_rest :
    (args : List Bytes) (f : Time → Store → Store × Result (Option Bytes))
    → Mutes f (ok none)
    → (o : Option Bytes)
    → Loud args (popped_reply args o) ⊎ (Mute (popped_reply args o) × Mutes f (ok o))
popped_rest args f empty none = inr (λ w. (_, refl), empty)
popped_rest args f empty (some v) = inl (λ w. (_, refl))

pub cmd_pop-Durable : (left : Bool) (args : List Bytes) → Durable args (cmd_pop left args)
unfolding cmd_pop
cmd_pop-Durable true (a ∷ k ∷ []) =
    let m = l_pop-Calls k in
    Calls-or_error _ m _ (λ e. Idle-Mutes m (err e) (l_pop-Idle _ (inr (e, refl))))
      (popped_rest _ _ (Idle-Mutes m (ok none) (l_pop-Idle _ (inl refl))))
cmd_pop-Durable false (a ∷ k ∷ []) =
    let m = r_pop-Calls k in
    Calls-or_error _ m _ (λ e. Idle-Mutes m (err e) (r_pop-Idle _ (inr (e, refl))))
      (popped_rest _ _ (Idle-Mutes m (ok none) (r_pop-Idle _ (inl refl))))
cmd_pop-Durable left args = Quiet-Durable args _ (emit-Quiet _)
