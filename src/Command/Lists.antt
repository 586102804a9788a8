-- ===== src/Command/Lists.antt =====
-- The list commands (internal/command/command.go).
use voltkv.Base.{Bool, Option, none, some, List, [], ◌∷◌, if◌then◌else◌, Bytes, codes}
use voltkv.Base.Int.{ℤ, pos}
use voltkv.Number.{parse_int64}
use voltkv.Resp
use voltkv.Store.Lists
use voltkv.Command.World.{
  M, ◌>>=◌, ◌>>◌, GoError, emit, store_call, store_read, append_aof, write_error, write_integer,
  write_bulk, write_null, arg_err, or_error, bulk_or_null, not_an_integer, to_lower,
}

-- `cmdPush`.
unfoldable pub cmd_push : Bool → List Bytes → M GoError
unfolding to_lower
cmd_push left (c ∷ k ∷ v ∷ values) = do
  r ← store_call (if left then Lists.l_push k (v ∷ values) else Lists.r_push k (v ∷ values))
  or_error r λ n. do append_aof (c ∷ k ∷ v ∷ values); write_integer (pos n)
cmd_push left (c ∷ _) = arg_err (to_lower c)
cmd_push left [] = arg_err []

-- The end of `cmdPop`.
abbrev pub popped_reply : List Bytes → Option Bytes → M GoError
popped_reply args none = write_null
popped_reply args (some v) = do append_aof args; write_bulk v

-- `cmdPop`.
unfoldable pub cmd_pop : Bool → List Bytes → M GoError
unfolding to_lower
cmd_pop left (c ∷ k ∷ []) = do
  r ← store_call (if left then Lists.l_pop k else Lists.r_pop k)
  or_error r (popped_reply (c ∷ k ∷ []))
cmd_pop left (c ∷ _) = arg_err (to_lower c)
cmd_pop left [] = arg_err []

-- `cmdLLen`.
unfoldable pub cmd_llen : List Bytes → M GoError
cmd_llen (c ∷ k ∷ []) = do r ← store_read (Lists.l_len k); or_error r λ n. write_integer (pos n)
cmd_llen _ = arg_err (codes "llen")

abbrev pub index_with : Bytes → Option ℤ → M GoError
index_with k none = write_error not_an_integer
index_with k (some i) = do r ← store_read (Lists.l_index k i); or_error r bulk_or_null

-- `cmdLIndex`.
unfoldable pub cmd_lindex : List Bytes → M GoError
cmd_lindex (c ∷ k ∷ i ∷ []) = index_with k (parse_int64 i)
cmd_lindex _ = arg_err (codes "lindex")

abbrev pub range_with : Bytes → Option ℤ → Option ℤ → M GoError
range_with k (some i) (some j) = do
  r ← store_read (Lists.l_range k i j)
  or_error r λ items. emit (Resp.string_array items)
range_with k _ _ = write_error not_an_integer

-- `cmdLRange`.
unfoldable pub cmd_lrange : List Bytes → M GoError
cmd_lrange (c ∷ k ∷ i ∷ j ∷ []) = range_with k (parse_int64 i) (parse_int64 j)
cmd_lrange _ = arg_err (codes "lrange")
