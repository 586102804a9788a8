-- ===== src/Command/Generic.antt =====
-- The commands on keys of any kind, and INFO (internal/command/command.go).
use voltkv.Base.{
  ℕ, ◌+◌, Bool, true, false, ltb, Option, none, some, List, [], ◌∷◌, ◌++◌, if◌then◌else◌, Bytes,
  codes,
}
use voltkv.Base.Int.{ℤ, pos, negsuc}
use voltkv.Number.{parse_int64, format_int}
use voltkv.Resp
use voltkv.Store.Time.{Duration, second, millisecond, scale, quotient}
use voltkv.Store.Entry.{kind_name}
use voltkv.Store.Shards.{num_shards}
use voltkv.Store.Generic
use voltkv.Store.Generic.{Remaining, no_key, no_expiry, left}
use voltkv.Store.Walks
use voltkv.Command.World.{
  World, Stats, M, ◌>>=◌, ◌>>◌, pure, GoError, emit, store_call, store_read, append_aof,
  write_error, write_integer, write_simple, write_bulk, arg_err, not_an_integer, to_lower,
}

abbrev pub count_if : Bool → ℕ → ℕ
count_if true n = n + 1
count_if false n = n

-- The loop of `cmdDel`.
unfoldable pub del_each : List Bytes → ℕ → M ℕ
del_each [] removed = pure removed
del_each (k ∷ keys) removed = do
  gone ← store_call (Generic.del k)
  del_each keys (count_if gone removed)

-- DEL is logged if it removed a key.
abbrev pub log_removal : List Bytes → ℕ → M GoError
log_removal args removed =
    if ltb 0 removed
    then (do append_aof args; write_integer (pos removed))
    else write_integer (pos removed)

-- `cmdDel`.
unfoldable pub cmd_del : List Bytes → M GoError
unfolding del_each
cmd_del (c ∷ k ∷ keys) = do removed ← del_each (k ∷ keys) 0; log_removal (c ∷ k ∷ keys) removed
cmd_del _ = arg_err (codes "del")

-- The loop of `cmdExists`.
unfoldable pub count_existing : List Bytes → ℕ → M ℕ
count_existing [] count = pure count
count_existing (k ∷ keys) count = do
  found ← store_read (Generic.exists k)
  count_existing keys (count_if found count)

-- `cmdExists`.
unfoldable pub cmd_exists : List Bytes → M GoError
unfolding count_existing
cmd_exists (c ∷ k ∷ keys) = do count ← count_existing (k ∷ keys) 0; write_integer (pos count)
cmd_exists _ = arg_err (codes "exists")

-- `cmdType`.
unfoldable pub cmd_type : List Bytes → M GoError
cmd_type (c ∷ k ∷ []) = do t ← store_read (Generic.type_of k); write_simple (kind_name t)
cmd_type _ = arg_err (codes "type")

abbrev pub expire_with : List Bytes → Bytes → Duration → Option ℤ → M GoError
expire_with args k unit none = write_error not_an_integer
expire_with args k unit (some amount) = do
  set ← store_call (Generic.expire k (scale amount unit))
  if set then (do append_aof args; write_integer (pos 1)) else write_integer (pos 0)

-- `cmdExpire`.
unfoldable pub cmd_expire : Duration → List Bytes → M GoError
unfolding to_lower
cmd_expire unit (c ∷ k ∷ n ∷ []) = expire_with (c ∷ k ∷ n ∷ []) k unit (parse_int64 n)
cmd_expire unit (c ∷ _) = arg_err (to_lower c)
cmd_expire unit [] = arg_err []

-- The reply of `cmdTTL`: -2 for no key, -1 for no expiry, else the time left in the unit.
unfoldable pub ttl_reply : Bool → Remaining → ℤ
ttl_reply milli no_key = negsuc 1
ttl_reply milli no_expiry = negsuc 0
ttl_reply milli (left d) = quotient d (if milli then millisecond else second)

-- `Store.TTL`, which reads the clock twice.
abbrev pub ttl_call : Bytes → M Remaining
ttl_call k w = some (
  Generic.ttl k (w.clock w.reads) (w.clock (w.reads + 1)) w.store,
  record w { reads = w.reads + 2 },
)

-- `cmdTTL`.
unfoldable pub cmd_ttl : Bool → List Bytes → M GoError
unfolding ttl_reply to_lower
cmd_ttl milli (c ∷ k ∷ []) = do r ← ttl_call k; write_integer (ttl_reply milli r)
cmd_ttl milli (c ∷ _) = arg_err (to_lower c)
cmd_ttl milli [] = arg_err []

-- `cmdPersist`.
unfoldable pub cmd_persist : List Bytes → M GoError
cmd_persist (c ∷ k ∷ []) = do
  done ← store_call (Generic.persist k)
  if done then (do append_aof (c ∷ k ∷ []); write_integer (pos 1)) else write_integer (pos 0)
cmd_persist _ = arg_err (codes "persist")

-- `cmdKeys`.
unfoldable pub cmd_keys : List Bytes → M GoError
cmd_keys (c ∷ p ∷ []) = do ks ← store_read (Walks.keys p); emit (Resp.string_array ks)
cmd_keys _ = arg_err (codes "keys")

-- `case "DBSIZE"`.
unfoldable pub cmd_dbsize : M GoError
cmd_dbsize = do n ← store_read Walks.db_size; write_integer (pos n)

abbrev pub flush_store : M (Unit {0})
flush_store w = some (tt, record w { store = Walks.flush_db w.store })

-- `case "FLUSHDB"`.
unfoldable pub cmd_flushdb : List Bytes → M GoError
cmd_flushdb args = do flush_store; append_aof args; write_simple (codes "OK")

abbrev pub line : Bytes → ℤ → Bytes
line name n = name ++ (format_int n ++ Resp.crlf)

abbrev pub stats_lines : Option Stats → Bytes
stats_lines none = []
stats_lines (some s) =
    line (codes "uptime_seconds:") (quotient s.uptime second)
    ++ (line (codes "connected_clients:") s.clients
        ++ line (codes "total_commands_processed:") s.commands)

abbrev pub aof_lines : Option ℤ → Bytes
aof_lines none = codes "aof_enabled:0" ++ Resp.crlf
aof_lines (some size) = codes "aof_enabled:1" ++ (Resp.crlf ++ line (codes "aof_size_bytes:") size)

unfoldable pub info_text : World → ℕ → Bytes
info_text w keys =
    codes "# Server"
    ++ (Resp.crlf
        ++ (stats_lines w.stats
            ++ (codes "# Keyspace"
                ++ (Resp.crlf
                    ++ (line (codes "db_keys:") (pos keys)
                        ++ (line (codes "shards:") (pos (num_shards w.store))
                            ++ (codes "# Persistence" ++ (Resp.crlf ++ aof_lines w.aof_size))))))))

-- `cmdInfo`.
unfoldable pub cmd_info : M GoError
unfolding info_text
cmd_info w = (do n ← store_read Walks.db_size; write_bulk (info_text w n)) w
