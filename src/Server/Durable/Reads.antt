-- ===== src/Server/Durable/Reads.antt =====
-- The commands that only read, and those on channels, change nothing that a key holds and log
-- nothing (internal/command/command.go).
use voltkv.Base.{refl, Bool, Option, none, some, List, [], ◌∷◌, Bytes, codes, ℕ}
use voltkv.Base.Int.{ℤ}
use voltkv.Number.{parse_int64}
use voltkv.Store.Time.{Time}
use voltkv.Store.Shards.{Store}
use voltkv.Store.Entry.{Result}
use voltkv.Store.Strings
use voltkv.Store.Generic
use voltkv.Store.Hashes
use voltkv.Store.Refine.{get, str_len, run}
use voltkv.Store.Refine.Untimed.Twins.{Twin-refl, run-Idle}
use voltkv.Store.Refine.Untimed.Idle.{get-Idle, str_len-Idle}
use voltkv.Command.World.{M, ◌>>=◌, pure, store_call, store_read}
use voltkv.Command.Strings.{cmd_get, cmd_str_len, get_each, cmd_mget, mget_element}
use voltkv.Command.Generic.{
  cmd_exists, cmd_type, cmd_ttl, cmd_keys, cmd_dbsize, cmd_info, count_existing, count_if,
}
use voltkv.Command.Hashes.{cmd_hget, cmd_hcollection, cmd_hgetall, cmd_hlen, cmd_hexists}
use voltkv.Command.Lists.{cmd_llen, index_with, cmd_lindex, range_with, cmd_lrange}
use voltkv.Command.Execute.{cmd_ping, cmd_echo, cmd_quit}
use voltkv.Server.Durable.{Quiet, Still, quiet_rules, pure-Quiet, emit-Quiet}

get-Still : (k : Bytes) → Still (Strings.get k)
unfolding run
get-Still k = record { at = λ now s l. run-Idle l k now get tt tt (get-Idle _) }

str_len-Still : (k : Bytes) → Still (Strings.str_len k)
unfolding run
str_len-Still k = record { at = λ now s l. run-Idle l k now str_len tt tt (str_len-Idle _) }

ruleset rules = (quiet_rules, get-Still, str_len-Still)

pub cmd_get-Quiet : (args : List Bytes) → Quiet (cmd_get args)
unfolding cmd_get
cmd_get-Quiet (a ∷ k ∷ []) = search rules depth 12
cmd_get-Quiet _ = emit-Quiet _

pub cmd_str_len-Quiet : (args : List Bytes) → Quiet (cmd_str_len args)
unfolding cmd_str_len
cmd_str_len-Quiet (a ∷ k ∷ []) = search rules depth 12
cmd_str_len-Quiet _ = emit-Quiet _

get_round-Quiet :
    (k : Bytes) (rest : M (List (Option Bytes)))
    → Quiet rest
    → Quiet (do r ← store_call (Strings.get k); items ← rest; pure (mget_element r ∷ items))
get_round-Quiet k rest h = search rules depth 12

get_each-Quiet : (keys : List Bytes) → Quiet (get_each keys)
unfolding get_each
get_each-Quiet [] = pure-Quiet []
get_each-Quiet (k ∷ keys) = get_round-Quiet k (get_each keys) (get_each-Quiet keys)

pub cmd_mget-Quiet : (args : List Bytes) → Quiet (cmd_mget args)
unfolding cmd_mget
cmd_mget-Quiet (a ∷ k ∷ keys) = search (rules, get_each-Quiet (k ∷ keys)) depth 12
cmd_mget-Quiet _ = emit-Quiet _

exists_round-Quiet :
    (k : Bytes) (count : ℕ) (rest : ℕ → M ℕ)
    → ((n : ℕ) → Quiet (rest n))
    → Quiet (do found ← store_read (Generic.exists k); rest (count_if found count))
exists_round-Quiet k count rest h = search rules depth 12

count_existing-Quiet : (keys : List Bytes) (count : ℕ) → Quiet (count_existing keys count)
unfolding count_existing
count_existing-Quiet [] count = pure-Quiet count
count_existing-Quiet (k ∷ keys) count =
    exists_round-Quiet k count (count_existing keys) (count_existing-Quiet keys)

pub cmd_exists-Quiet : (args : List Bytes) → Quiet (cmd_exists args)
unfolding cmd_exists
cmd_exists-Quiet (a ∷ k ∷ keys) = search (rules, count_existing-Quiet) depth 12
cmd_exists-Quiet _ = emit-Quiet _

pub cmd_type-Quiet : (args : List Bytes) → Quiet (cmd_type args)
unfolding cmd_type
cmd_type-Quiet (a ∷ k ∷ []) = search rules depth 12
cmd_type-Quiet _ = emit-Quiet _

pub cmd_ttl-Quiet : (milli : Bool) (args : List Bytes) → Quiet (cmd_ttl milli args)
unfolding cmd_ttl
cmd_ttl-Quiet milli (a ∷ k ∷ []) = search rules depth 12
cmd_ttl-Quiet milli _ = emit-Quiet _

pub cmd_keys-Quiet : (args : List Bytes) → Quiet (cmd_keys args)
unfolding cmd_keys
cmd_keys-Quiet (a ∷ p ∷ []) = search rules depth 12
cmd_keys-Quiet _ = emit-Quiet _

pub cmd_dbsize-Quiet : Quiet cmd_dbsize
unfolding cmd_dbsize
cmd_dbsize-Quiet = search rules depth 12

pub cmd_info-Quiet : Quiet cmd_info
unfolding cmd_info
cmd_info-Quiet = record { at = λ w l. (Twin-refl l, refl) }

pub cmd_hget-Quiet : (args : List Bytes) → Quiet (cmd_hget args)
unfolding cmd_hget
cmd_hget-Quiet (a ∷ k ∷ f ∷ []) = search rules depth 12
cmd_hget-Quiet _ = emit-Quiet _

pub cmd_hcollection-Quiet :
    (fn : Bytes → Time → Store → Result (List Bytes)) (name : Bytes) (args : List Bytes)
    → Quiet (cmd_hcollection fn name args)
cmd_hcollection-Quiet fn name (a ∷ k ∷ []) = search rules depth 12
cmd_hcollection-Quiet fn name _ = emit-Quiet _

pub cmd_hgetall-Quiet : (args : List Bytes) → Quiet (cmd_hgetall args)
unfolding cmd_hgetall
cmd_hgetall-Quiet args = cmd_hcollection-Quiet Hashes.h_get_all (codes "hgetall") args

pub cmd_hlen-Quiet : (args : List Bytes) → Quiet (cmd_hlen args)
unfolding cmd_hlen
cmd_hlen-Quiet (a ∷ k ∷ []) = search rules depth 12
cmd_hlen-Quiet _ = emit-Quiet _

pub cmd_hexists-Quiet : (args : List Bytes) → Quiet (cmd_hexists args)
unfolding cmd_hexists
cmd_hexists-Quiet (a ∷ k ∷ f ∷ []) = search rules depth 12
cmd_hexists-Quiet _ = emit-Quiet _

pub cmd_llen-Quiet : (args : List Bytes) → Quiet (cmd_llen args)
unfolding cmd_llen
cmd_llen-Quiet (a ∷ k ∷ []) = search rules depth 12
cmd_llen-Quiet _ = emit-Quiet _

index_with-Quiet : (k : Bytes) (o : Option ℤ) → Quiet (index_with k o)
index_with-Quiet k none = emit-Quiet _
index_with-Quiet k (some i) = search rules depth 12

pub cmd_lindex-Quiet : (args : List Bytes) → Quiet (cmd_lindex args)
unfolding cmd_lindex
cmd_lindex-Quiet (a ∷ k ∷ i ∷ []) = index_with-Quiet k (parse_int64 i)
cmd_lindex-Quiet _ = emit-Quiet _

range_with-Quiet : (k : Bytes) (o p : Option ℤ) → Quiet (range_with k o p)
range_with-Quiet k (some i) (some j) = search rules depth 12
range_with-Quiet k _ _ = emit-Quiet _

pub cmd_lrange-Quiet : (args : List Bytes) → Quiet (cmd_lrange args)
unfolding cmd_lrange
cmd_lrange-Quiet (a ∷ k ∷ i ∷ j ∷ []) = range_with-Quiet k (parse_int64 i) (parse_int64 j)
cmd_lrange-Quiet _ = emit-Quiet _

pub cmd_ping-Quiet : (args : List Bytes) → Quiet (cmd_ping args)
cmd_ping-Quiet (a ∷ msg ∷ rest) = emit-Quiet _
cmd_ping-Quiet _ = emit-Quiet _

pub cmd_echo-Quiet : (args : List Bytes) → Quiet (cmd_echo args)
cmd_echo-Quiet (a ∷ msg ∷ []) = emit-Quiet _
cmd_echo-Quiet _ = emit-Quiet _

pub cmd_quit-Quiet : Quiet cmd_quit
cmd_quit-Quiet = search rules depth 12
