-- ===== src/Command/Hashes.antt =====
-- The hash commands (internal/command/command.go).
use voltkv.Base.{ltb, Option, none, some, List, [], ◌∷◌, if◌then◌else◌, Bytes, codes}
use voltkv.Base.Int.{pos}
use voltkv.Resp
use voltkv.Store.Time.{Time}
use voltkv.Store.Entry.{Result}
use voltkv.Store.Shards.{Store}
use voltkv.Store.Hashes
use voltkv.Command.Strings.{pairs_of}
use voltkv.Command.World.{
  M, ◌>>=◌, ◌>>◌, GoError, emit, store_call, store_read, append_aof, write_integer, arg_err,
  or_error, bulk_or_null, one_or_zero,
}

abbrev pub hset_pairs : List Bytes → Bytes → Option (List (Bytes × Bytes)) → M GoError
hset_pairs args k none = arg_err (codes "hset")
hset_pairs args k (some pairs) = do
  r ← store_call (Hashes.h_set k pairs)
  or_error r λ added. do append_aof args; write_integer (pos added)

-- `cmdHSet`.
unfoldable pub cmd_hset : List Bytes → M GoError
unfolding pairs_of
cmd_hset (c ∷ k ∷ f ∷ v ∷ args) = hset_pairs (c ∷ k ∷ f ∷ v ∷ args) k (pairs_of (f ∷ v ∷ args))
cmd_hset _ = arg_err (codes "hset")

-- `cmdHGet`.
unfoldable pub cmd_hget : List Bytes → M GoError
cmd_hget (c ∷ k ∷ f ∷ []) = do r ← store_read (Hashes.h_get k f); or_error r bulk_or_null
cmd_hget _ = arg_err (codes "hget")

-- `cmdHDel`.
unfoldable pub cmd_hdel : List Bytes → M GoError
cmd_hdel (c ∷ k ∷ f ∷ fields) = do
  r ← store_call (Hashes.h_del k (f ∷ fields))
  or_error r λ n.
      if ltb 0 n
      then (do append_aof (c ∷ k ∷ f ∷ fields); write_integer (pos n))
      else write_integer (pos n)
cmd_hdel _ = arg_err (codes "hdel")

-- `cmdHCollection`, and `cmdHGetAll`, which is of the same shape.
abbrev pub cmd_hcollection :
    (Bytes → Time → Store → Result (List Bytes)) → Bytes → List Bytes → M GoError
cmd_hcollection fn name (c ∷ k ∷ []) = do
  r ← store_read (fn k)
  or_error r λ items. emit (Resp.string_array items)
cmd_hcollection fn name _ = arg_err name

unfoldable pub cmd_hgetall : List Bytes → M GoError
cmd_hgetall = cmd_hcollection Hashes.h_get_all (codes "hgetall")

-- `cmdHLen`.
unfoldable pub cmd_hlen : List Bytes → M GoError
cmd_hlen (c ∷ k ∷ []) = do r ← store_read (Hashes.h_len k); or_error r λ n. write_integer (pos n)
cmd_hlen _ = arg_err (codes "hlen")

-- `cmdHExists`.
unfoldable pub cmd_hexists : List Bytes → M GoError
cmd_hexists (c ∷ k ∷ f ∷ []) = do r ← store_read (Hashes.h_exists k f); or_error r one_or_zero
cmd_hexists _ = arg_err (codes "hexists")
