-- ===== src/Command/Strings.antt =====
-- The string commands (internal/command/command.go).
pub mod Decrements
use voltkv.Base.{Option, none, some, List, [], ◌∷◌, if◌then◌else◌, Bytes, bytes_eq, codes}
use voltkv.Base.Int.{ℤ, pos, ◌-ℤ◌}
use voltkv.Number.{parse_int64, format_int, wrap64}
use voltkv.Resp
use voltkv.Store.Time.{Time}
use voltkv.Store.Entry.{Result, ok, err}
use voltkv.Store.Shards.{Store}
use voltkv.Store.Strings
use voltkv.Command.World.{
  M, ◌>>=◌, ◌>>◌, pure, GoError, emit, store_call, append_aof, write_error, write_integer,
  write_simple, write_null, arg_err, or_error, bulk_or_null, not_an_integer, syntax_error, to_upper,
  to_lower,
}
use voltkv.Command.Options.{SetOptions, parse_set_opts}

-- `Store.Set`, which has no result.
abbrev pub plain_set : Bytes → Bytes → ℤ → Time → Store → Store × Unit {0}
plain_set k v ttl now s = (Strings.set k v ttl now s, tt)

abbrev pub set_with : List Bytes → Bytes → Bytes → Option SetOptions → M GoError
set_with args k v none = write_error syntax_error
set_with args k v (some o) =
    if o.nx
    then (do
      stored ← store_call (Strings.set_nx k v o.ttl)
      if stored then (do append_aof args; write_simple (codes "OK")) else write_null)
    else if o.xx
    then (do
      stored ← store_call (Strings.set_xx k v o.ttl)
      if stored then (do append_aof args; write_simple (codes "OK")) else write_null)
    else do store_call (plain_set k v o.ttl); append_aof args; write_simple (codes "OK")

-- `cmdSet`.
unfoldable pub cmd_set : List Bytes → M GoError
unfolding parse_set_opts
cmd_set (c ∷ k ∷ v ∷ opts) = set_with (c ∷ k ∷ v ∷ opts) k v (parse_set_opts opts)
cmd_set _ = arg_err (codes "set")

-- `cmdGet`.
unfoldable pub cmd_get : List Bytes → M GoError
cmd_get (c ∷ k ∷ []) = do r ← store_call (Strings.get k); or_error r bulk_or_null
cmd_get _ = arg_err (codes "get")

-- `cmdGetSet`, which logs a plain SET.
unfoldable pub cmd_get_set : List Bytes → M GoError
cmd_get_set (c ∷ k ∷ v ∷ []) = do
  r ← store_call (Strings.get_set k v)
  or_error r λ old. do append_aof (codes "SET" ∷ k ∷ v ∷ []); bulk_or_null old
cmd_get_set _ = arg_err (codes "getset")

-- `cmdAppend`.
unfoldable pub cmd_append : List Bytes → M GoError
cmd_append (c ∷ k ∷ x ∷ []) = do
  r ← store_call (Strings.append k x)
  or_error r λ n. do append_aof (c ∷ k ∷ x ∷ []); write_integer (pos n)
cmd_append _ = arg_err (codes "append")

-- `cmdStrLen`.
unfoldable pub cmd_str_len : List Bytes → M GoError
cmd_str_len (c ∷ k ∷ []) = do
  r ← store_call (Strings.str_len k)
  or_error r λ n. write_integer (pos n)
cmd_str_len _ = arg_err (codes "strlen")

-- The end of `cmdIncrBy`: the value is logged as a plain SET.
unfoldable pub incr_and_log : Bytes → ℤ → M GoError
incr_and_log k delta = do
  r ← store_call (Strings.incr_by k delta)
  or_error r λ v. do append_aof (codes "SET" ∷ k ∷ format_int v ∷ []); write_integer v

-- `cmdIncrBy` with a fixed delta, for INCR and DECR.
unfoldable pub cmd_incr : ℤ → List Bytes → M GoError
unfolding incr_and_log
cmd_incr fixed (c ∷ k ∷ []) = incr_and_log k fixed
cmd_incr fixed (c ∷ _) = arg_err (to_lower (to_upper c))
cmd_incr fixed [] = arg_err []

-- `-delta` on int64.
unfoldable pub negate64 : ℤ → ℤ
unfolding wrap64 ◌-ℤ◌
negate64 delta = wrap64 (pos 0 -ℤ delta)

abbrev pub incr_by_parsed : Bytes → Bytes → Option ℤ → M GoError
incr_by_parsed name k none = write_error not_an_integer
incr_by_parsed name k (some n) =
    incr_and_log k (if bytes_eq name (codes "DECRBY") then negate64 n else n)

-- `cmdIncrBy` with the delta of an argument, for INCRBY and DECRBY.
unfoldable pub cmd_incr_by : List Bytes → M GoError
unfolding incr_and_log negate64 to_upper to_lower
cmd_incr_by (c ∷ k ∷ n ∷ []) = incr_by_parsed (to_upper c) k (parse_int64 n)
cmd_incr_by (c ∷ _) = arg_err (to_lower (to_upper c))
cmd_incr_by [] = arg_err []

-- An element of MGET: a wrong type is a null.
abbrev pub mget_element : Result (Option Bytes) → Option Bytes
mget_element (ok v) = v
mget_element (err e) = none

-- The loop of `cmdMGet`.
unfoldable pub get_each : List Bytes → M (List (Option Bytes))
get_each [] = pure []
get_each (k ∷ keys) = do
  r ← store_call (Strings.get k)
  rest ← get_each keys
  pure (mget_element r ∷ rest)

-- `cmdMGet`.
unfoldable pub cmd_mget : List Bytes → M GoError
unfolding get_each
cmd_mget (c ∷ k ∷ keys) = do items ← get_each (k ∷ keys); emit (Resp.nullable_string_array items)
cmd_mget _ = arg_err (codes "mget")

abbrev pub with_pair : Bytes × Bytes → Option (List (Bytes × Bytes)) → Option (List (Bytes × Bytes))
with_pair p none = none
with_pair p (some ps) = some (p ∷ ps)

-- `len(args) % 2 == 1` behind the command's name, in pairs.
unfoldable pub pairs_of : List Bytes → Option (List (Bytes × Bytes))
pairs_of [] = some []
pairs_of (k ∷ []) = none
pairs_of (k ∷ v ∷ args) = with_pair (k, v) (pairs_of args)

-- The loop of `cmdMSet`, which logs each pair as a SET.
unfoldable pub set_each : List (Bytes × Bytes) → M (Unit {0})
set_each [] = pure tt
set_each ((k, v) ∷ pairs) = do
  store_call (plain_set k v (pos 0))
  append_aof (codes "SET" ∷ k ∷ v ∷ [])
  set_each pairs

abbrev pub mset_pairs : Option (List (Bytes × Bytes)) → M GoError
mset_pairs none = arg_err (codes "mset")
mset_pairs (some pairs) = do set_each pairs; write_simple (codes "OK")

-- `cmdMSet`.
unfoldable pub cmd_mset : List Bytes → M GoError
unfolding pairs_of set_each
cmd_mset (c ∷ k ∷ v ∷ args) = mset_pairs (pairs_of (k ∷ v ∷ args))
cmd_mset _ = arg_err (codes "mset")
