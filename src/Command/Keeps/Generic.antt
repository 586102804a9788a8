-- ===== src/Command/Keeps/Generic.antt =====
-- The commands on keys of any kind keep what the single actions keep (internal/command/command.go).
use voltkv.Base.{ℕ, Bool, Option, none, some, List, [], ◌∷◌, Bytes}
use voltkv.Base.Int.{ℤ}
use voltkv.Number.{parse_int64}
use voltkv.Store.Time.{Duration}
use voltkv.Command.World.{World, M, ◌>>=◌, store_call, store_read}
use voltkv.Command.Keeps.{IsClosed, Keeps, keeps_rules, pure-Keeps, emit-Keeps}
use voltkv.Store.Generic
use voltkv.Store.Sound.{del-IsSound, expire-IsSound, persist-IsSound}
use voltkv.Command.Generic.{
  count_if, del_each, cmd_del, count_existing, cmd_exists, cmd_type, expire_with, cmd_expire,
  cmd_ttl, cmd_persist, cmd_keys, cmd_dbsize, cmd_flushdb, cmd_info,
}

ruleset rules = (keeps_rules, del-IsSound, expire-IsSound, persist-IsSound)

module _ {P : World → Type 0} (closed : IsClosed P) where
  del_round-Keeps :
      (k : Bytes) (removed : ℕ) (rest : ℕ → M ℕ)
      → ((n : ℕ) → Keeps P (rest n))
      → Keeps P (do gone ← store_call (Generic.del k); rest (count_if gone removed))
  del_round-Keeps k removed rest h = search rules depth 12

  del_each-Keeps : (keys : List Bytes) (removed : ℕ) → Keeps P (del_each keys removed)
  unfolding del_each
  del_each-Keeps [] removed = pure-Keeps closed removed
  del_each-Keeps (k ∷ keys) removed =
      del_round-Keeps k removed (del_each keys) (del_each-Keeps keys)

  pub cmd_del-Keeps : (args : List Bytes) → Keeps P (cmd_del args)
  unfolding cmd_del
  cmd_del-Keeps (a ∷ k ∷ keys) = search (rules, del_each-Keeps) depth 12
  cmd_del-Keeps _ = emit-Keeps closed _

  exists_round-Keeps :
      (k : Bytes) (count : ℕ) (rest : ℕ → M ℕ)
      → ((n : ℕ) → Keeps P (rest n))
      → Keeps P (do found ← store_read (Generic.exists k); rest (count_if found count))
  exists_round-Keeps k count rest h = search rules depth 12

  count_existing-Keeps : (keys : List Bytes) (count : ℕ) → Keeps P (count_existing keys count)
  unfolding count_existing
  count_existing-Keeps [] count = pure-Keeps closed count
  count_existing-Keeps (k ∷ keys) count =
      exists_round-Keeps k count (count_existing keys) (count_existing-Keeps keys)

  pub cmd_exists-Keeps : (args : List Bytes) → Keeps P (cmd_exists args)
  unfolding cmd_exists
  cmd_exists-Keeps (a ∷ k ∷ keys) = search (rules, count_existing-Keeps) depth 12
  cmd_exists-Keeps _ = emit-Keeps closed _

  pub cmd_type-Keeps : (args : List Bytes) → Keeps P (cmd_type args)
  unfolding cmd_type
  cmd_type-Keeps (a ∷ k ∷ []) = search rules depth 12
  cmd_type-Keeps _ = emit-Keeps closed _

  expire_with-Keeps :
      (args : List Bytes) (k : Bytes) (unit : Duration) (o : Option ℤ)
      → Keeps P (expire_with args k unit o)
  expire_with-Keeps args k unit none = emit-Keeps closed _
  expire_with-Keeps args k unit (some n) = search rules depth 12

  pub cmd_expire-Keeps : (unit : Duration) (args : List Bytes) → Keeps P (cmd_expire unit args)
  unfolding cmd_expire
  cmd_expire-Keeps unit (a ∷ k ∷ n ∷ []) = expire_with-Keeps (a ∷ k ∷ n ∷ []) k unit (parse_int64 n)
  cmd_expire-Keeps unit _ = emit-Keeps closed _

  pub cmd_ttl-Keeps : (milli : Bool) (args : List Bytes) → Keeps P (cmd_ttl milli args)
  unfolding cmd_ttl
  cmd_ttl-Keeps milli (a ∷ k ∷ []) = search rules depth 12
  cmd_ttl-Keeps milli _ = emit-Keeps closed _

  pub cmd_persist-Keeps : (args : List Bytes) → Keeps P (cmd_persist args)
  unfolding cmd_persist
  cmd_persist-Keeps (a ∷ k ∷ []) = search rules depth 12
  cmd_persist-Keeps _ = emit-Keeps closed _

  pub cmd_keys-Keeps : (args : List Bytes) → Keeps P (cmd_keys args)
  unfolding cmd_keys
  cmd_keys-Keeps (a ∷ p ∷ []) = search rules depth 12
  cmd_keys-Keeps _ = emit-Keeps closed _

  pub cmd_dbsize-Keeps : Keeps P cmd_dbsize
  unfolding cmd_dbsize
  cmd_dbsize-Keeps = search rules depth 12

  pub cmd_flushdb-Keeps : (args : List Bytes) → Keeps P (cmd_flushdb args)
  unfolding cmd_flushdb
  cmd_flushdb-Keeps args = search rules depth 12

  pub cmd_info-Keeps : Keeps P cmd_info
  unfolding cmd_info
  cmd_info-Keeps = record { at = λ w h. closed.out _ _ (closed.reads w _ h) }
