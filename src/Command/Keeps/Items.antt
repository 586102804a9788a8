-- ===== src/Command/Keeps/Items.antt =====
-- The commands on hashes and lists keep what the single actions keep (internal/command/command.go).
use voltkv.Base.{
  Bool, true, false, Option, none, some, List, [], ◌∷◌, Bytes, codes, arith, if◌then◌else◌,
}
use voltkv.Base.Int.{ℤ}
use voltkv.Number.{parse_int64}
use voltkv.Store.Time.{Time}
use voltkv.Store.Entry.{Result}
use voltkv.Store.Shards.{Store}
use voltkv.Command.World.{World}
use voltkv.Command.Keeps.{IsClosed, Keeps, keeps_rules, emit-Keeps}
use voltkv.Store.Hashes
use voltkv.Store.Lists
use voltkv.Store.Sound.{
  IsSound, h_set-IsSound, h_del-IsSound, l_pop-IsSound, r_pop-IsSound, l_push-IsSound,
  r_push-IsSound,
}
use voltkv.Command.Strings.{pairs_of, with_pair}
use voltkv.Command.Hashes.{
  hset_pairs, cmd_hset, cmd_hget, cmd_hdel, cmd_hcollection, cmd_hgetall, cmd_hlen, cmd_hexists,
}
use voltkv.Command.Lists.{
  cmd_push, popped_reply, cmd_pop, cmd_llen, index_with, cmd_lindex, range_with, cmd_lrange,
}

ruleset rules = (keeps_rules, h_del-IsSound, l_pop-IsSound, r_pop-IsSound)

if-IsSound :
    {A : Type 0} (b : Bool) (f g : Time → Store → Store × A)
    → IsSound f
    → IsSound g
    → IsSound (if b then f else g)
if-IsSound true f g h k = h
if-IsSound false f g h k = k

pushed-IsSound :
    (left : Bool) (k v : Bytes) (values : List Bytes)
    → IsSound (if left then Lists.l_push k (v ∷ values) else Lists.r_push k (v ∷ values))
pushed-IsSound left k v values =
    if-IsSound left _ _ (l_push-IsSound k (v ∷ values) (omega arith))
      (r_push-IsSound k (v ∷ values) (omega arith))

module _ {P : World → Type 0} (closed : IsClosed P) where
  hset_pairs-Keeps :
      (args : List Bytes) (k f v : Bytes) (o : Option (List (Bytes × Bytes)))
      → Keeps P (hset_pairs args k (with_pair (f, v) o))
  hset_pairs-Keeps args k f v none = emit-Keeps closed _
  hset_pairs-Keeps args k f v (some pairs) =
      search (rules, h_set-IsSound k ((f, v) ∷ pairs) (omega arith)) depth 12

  pub cmd_hset-Keeps : (args : List Bytes) → Keeps P (cmd_hset args)
  unfolding cmd_hset pairs_of
  cmd_hset-Keeps (a ∷ k ∷ f ∷ v ∷ args) =
      hset_pairs-Keeps (a ∷ k ∷ f ∷ v ∷ args) k f v (pairs_of args)
  cmd_hset-Keeps _ = emit-Keeps closed _

  pub cmd_hget-Keeps : (args : List Bytes) → Keeps P (cmd_hget args)
  unfolding cmd_hget
  cmd_hget-Keeps (a ∷ k ∷ f ∷ []) = search rules depth 12
  cmd_hget-Keeps _ = emit-Keeps closed _

  pub cmd_hdel-Keeps : (args : List Bytes) → Keeps P (cmd_hdel args)
  unfolding cmd_hdel
  cmd_hdel-Keeps (a ∷ k ∷ f ∷ fields) = search rules depth 12
  cmd_hdel-Keeps _ = emit-Keeps closed _

  pub cmd_hcollection-Keeps :
      (fn : Bytes → Time → Store → Result (List Bytes)) (name : Bytes) (args : List Bytes)
      → Keeps P (cmd_hcollection fn name args)
  cmd_hcollection-Keeps fn name (a ∷ k ∷ []) = search rules depth 12
  cmd_hcollection-Keeps fn name _ = emit-Keeps closed _

  pub cmd_hgetall-Keeps : (args : List Bytes) → Keeps P (cmd_hgetall args)
  unfolding cmd_hgetall
  cmd_hgetall-Keeps args = cmd_hcollection-Keeps Hashes.h_get_all (codes "hgetall") args

  pub cmd_hlen-Keeps : (args : List Bytes) → Keeps P (cmd_hlen args)
  unfolding cmd_hlen
  cmd_hlen-Keeps (a ∷ k ∷ []) = search rules depth 12
  cmd_hlen-Keeps _ = emit-Keeps closed _

  pub cmd_hexists-Keeps : (args : List Bytes) → Keeps P (cmd_hexists args)
  unfolding cmd_hexists
  cmd_hexists-Keeps (a ∷ k ∷ f ∷ []) = search rules depth 12
  cmd_hexists-Keeps _ = emit-Keeps closed _

  pub cmd_push-Keeps : (left : Bool) (args : List Bytes) → Keeps P (cmd_push left args)
  unfolding cmd_push
  cmd_push-Keeps left (a ∷ k ∷ v ∷ values) = search (rules, pushed-IsSound) depth 12
  cmd_push-Keeps left _ = emit-Keeps closed _

  popped_reply-Keeps : (args : List Bytes) (o : Option Bytes) → Keeps P (popped_reply args o)
  popped_reply-Keeps args none = emit-Keeps closed _
  popped_reply-Keeps args (some v) = search rules depth 12

  pub cmd_pop-Keeps : (left : Bool) (args : List Bytes) → Keeps P (cmd_pop left args)
  unfolding cmd_pop
  cmd_pop-Keeps left (a ∷ k ∷ []) = search (rules, if-IsSound, popped_reply-Keeps) depth 12
  cmd_pop-Keeps left _ = emit-Keeps closed _

  pub cmd_llen-Keeps : (args : List Bytes) → Keeps P (cmd_llen args)
  unfolding cmd_llen
  cmd_llen-Keeps (a ∷ k ∷ []) = search rules depth 12
  cmd_llen-Keeps _ = emit-Keeps closed _

  index_with-Keeps : (k : Bytes) (o : Option ℤ) → Keeps P (index_with k o)
  index_with-Keeps k none = emit-Keeps closed _
  index_with-Keeps k (some i) = search rules depth 12

  pub cmd_lindex-Keeps : (args : List Bytes) → Keeps P (cmd_lindex args)
  unfolding cmd_lindex
  cmd_lindex-Keeps (a ∷ k ∷ i ∷ []) = index_with-Keeps k (parse_int64 i)
  cmd_lindex-Keeps _ = emit-Keeps closed _

  range_with-Keeps : (k : Bytes) (o p : Option ℤ) → Keeps P (range_with k o p)
  range_with-Keeps k (some i) (some j) = search rules depth 12
  range_with-Keeps k _ _ = emit-Keeps closed _

  pub cmd_lrange-Keeps : (args : List Bytes) → Keeps P (cmd_lrange args)
  unfolding cmd_lrange
  cmd_lrange-Keeps (a ∷ k ∷ i ∷ j ∷ []) = range_with-Keeps k (parse_int64 i) (parse_int64 j)
  cmd_lrange-Keeps _ = emit-Keeps closed _
