-- ===== src/Command/Keeps/Strings.antt =====
-- The string commands keep what the single actions keep (internal/command/command.go).
use voltkv.Base.{Option, none, some, List, [], ◌∷◌, Bytes, codes}
use voltkv.Base.Int.{ℤ, pos}
use voltkv.Number.{parse_int64}
use voltkv.Store.Strings
use voltkv.Store.Sound.{
  set-IsSound, set_nx-IsSound, set_xx-IsSound, get-IsSound, str_len-IsSound, get_set-IsSound,
  append-IsSound, incr_by-IsSound,
}
use voltkv.Command.World.{World, M, ◌>>=◌, ◌>>◌, pure, store_call, append_aof}
use voltkv.Command.Options.{SetOptions, parse_set_opts}
use voltkv.Command.Strings.{
  set_with, cmd_set, cmd_get, cmd_get_set, cmd_append, cmd_str_len, incr_and_log, cmd_incr,
  incr_by_parsed, cmd_incr_by, get_each, cmd_mget, set_each, mset_pairs, cmd_mset, pairs_of,
  mget_element, plain_set,
}
use voltkv.Command.Keeps.{IsClosed, Keeps, keeps_rules, pure-Keeps, emit-Keeps}

ruleset rules = (
  keeps_rules, set-IsSound, set_nx-IsSound, set_xx-IsSound, get-IsSound, str_len-IsSound,
  get_set-IsSound, append-IsSound, incr_by-IsSound,
)

module _ {P : World → Type 0} (closed : IsClosed P) where
  set_with-Keeps :
      (args : List Bytes) (k v : Bytes) (o : Option SetOptions) → Keeps P (set_with args k v o)
  set_with-Keeps args k v none = search rules
  set_with-Keeps args k v (some o) = search rules depth 14

  pub cmd_set-Keeps : (args : List Bytes) → Keeps P (cmd_set args)
  unfolding cmd_set
  cmd_set-Keeps (a ∷ k ∷ v ∷ opts) = set_with-Keeps (a ∷ k ∷ v ∷ opts) k v (parse_set_opts opts)
  cmd_set-Keeps _ = emit-Keeps closed _

  pub cmd_get-Keeps : (args : List Bytes) → Keeps P (cmd_get args)
  unfolding cmd_get
  cmd_get-Keeps (a ∷ k ∷ []) = search rules
  cmd_get-Keeps _ = emit-Keeps closed _

  pub cmd_get_set-Keeps : (args : List Bytes) → Keeps P (cmd_get_set args)
  unfolding cmd_get_set
  cmd_get_set-Keeps (a ∷ k ∷ v ∷ []) = search rules depth 12
  cmd_get_set-Keeps _ = emit-Keeps closed _

  pub cmd_append-Keeps : (args : List Bytes) → Keeps P (cmd_append args)
  unfolding cmd_append
  cmd_append-Keeps (a ∷ k ∷ x ∷ []) = search rules depth 12
  cmd_append-Keeps _ = emit-Keeps closed _

  pub cmd_str_len-Keeps : (args : List Bytes) → Keeps P (cmd_str_len args)
  unfolding cmd_str_len
  cmd_str_len-Keeps (a ∷ k ∷ []) = search rules depth 12
  cmd_str_len-Keeps _ = emit-Keeps closed _

  incr_and_log-Keeps : (k : Bytes) (delta : ℤ) → Keeps P (incr_and_log k delta)
  unfolding incr_and_log
  incr_and_log-Keeps k delta = search rules depth 12

  pub cmd_incr-Keeps : (fixed : ℤ) (args : List Bytes) → Keeps P (cmd_incr fixed args)
  unfolding cmd_incr
  cmd_incr-Keeps fixed (a ∷ k ∷ []) = incr_and_log-Keeps k fixed
  cmd_incr-Keeps fixed _ = emit-Keeps closed _

  incr_by_parsed-Keeps : (name k : Bytes) (o : Option ℤ) → Keeps P (incr_by_parsed name k o)
  incr_by_parsed-Keeps name k none = emit-Keeps closed _
  incr_by_parsed-Keeps name k (some n) = incr_and_log-Keeps k _

  pub cmd_incr_by-Keeps : (args : List Bytes) → Keeps P (cmd_incr_by args)
  unfolding cmd_incr_by
  cmd_incr_by-Keeps (a ∷ k ∷ n ∷ []) = incr_by_parsed-Keeps _ k (parse_int64 n)
  cmd_incr_by-Keeps _ = emit-Keeps closed _

  get_round-Keeps :
      (k : Bytes) (rest : M (List (Option Bytes)))
      → Keeps P rest
      → Keeps P (do r ← store_call (Strings.get k); items ← rest; pure (mget_element r ∷ items))
  get_round-Keeps k rest h = search rules depth 12

  get_each-Keeps : (keys : List Bytes) → Keeps P (get_each keys)
  unfolding get_each
  get_each-Keeps [] = pure-Keeps closed []
  get_each-Keeps (k ∷ keys) = get_round-Keeps k (get_each keys) (get_each-Keeps keys)

  pub cmd_mget-Keeps : (args : List Bytes) → Keeps P (cmd_mget args)
  unfolding cmd_mget
  cmd_mget-Keeps (a ∷ k ∷ keys) = search (rules, get_each-Keeps (k ∷ keys)) depth 12
  cmd_mget-Keeps _ = emit-Keeps closed _

  set_round-Keeps :
      (k v : Bytes) (rest : M (Unit {0}))
      → Keeps P rest
      → Keeps P (do store_call (plain_set k v (pos 0)); append_aof (codes "SET" ∷ k ∷ v ∷ []); rest)
  set_round-Keeps k v rest h = search rules depth 12

  set_each-Keeps : (pairs : List (Bytes × Bytes)) → Keeps P (set_each pairs)
  unfolding set_each
  set_each-Keeps [] = pure-Keeps closed tt
  set_each-Keeps ((k, v) ∷ pairs) = set_round-Keeps k v (set_each pairs) (set_each-Keeps pairs)

  mset_pairs-Keeps : (o : Option (List (Bytes × Bytes))) → Keeps P (mset_pairs o)
  mset_pairs-Keeps none = emit-Keeps closed _
  mset_pairs-Keeps (some pairs) = search (rules, set_each-Keeps pairs) depth 12

  pub cmd_mset-Keeps : (args : List Bytes) → Keeps P (cmd_mset args)
  unfolding cmd_mset
  cmd_mset-Keeps (a ∷ k ∷ v ∷ args) = mset_pairs-Keeps (pairs_of (k ∷ v ∷ args))
  cmd_mset-Keeps _ = emit-Keeps closed _
