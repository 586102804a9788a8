-- ===== src/Command/Execute.antt =====
-- `Execute`: the checks before a command runs, and its dispatch (internal/command/command.go).
use voltkv.Base.{
  Bool, true, false, not, ◌&&◌, ◌||◌, ltb, some, List, [], ◌∷◌, ◌++◌, length, if◌then◌else◌, Bytes,
  bytes_eq, codes, String,
}
use voltkv.Base.Int.{pos, negsuc}
use voltkv.Store.Time.{second, millisecond}
use voltkv.Store.Hashes
use voltkv.Command.World.{
  World, M, ◌>>◌, pure, GoError, empty_command, write_error, write_simple, write_bulk, arg_err,
  to_upper,
}
use voltkv.Command.Strings.{
  cmd_set, cmd_get, cmd_get_set, cmd_append, cmd_str_len, cmd_incr, cmd_incr_by, cmd_mget, cmd_mset,
}
use voltkv.Command.Generic.{
  cmd_del, cmd_exists, cmd_type, cmd_expire, cmd_ttl, cmd_persist, cmd_keys, cmd_dbsize,
  cmd_flushdb, cmd_info,
}
use voltkv.Command.Hashes.{
  cmd_hset, cmd_hget, cmd_hdel, cmd_hgetall, cmd_hcollection, cmd_hlen, cmd_hexists,
}
use voltkv.Command.Lists.{cmd_push, cmd_pop, cmd_llen, cmd_lindex, cmd_lrange}
use voltkv.Command.Channels.{cmd_subscribe, cmd_unsubscribe, cmd_publish}

abbrev pub is : Bytes → String → Bool
is name text = bytes_eq name (codes text)

-- `InSubscribeMode`.
abbrev pub in_subscribe_mode : World → Bool
in_subscribe_mode w = ltb 0 (length w.subs)

abbrev pub allowed_in_subscribe_mode : Bytes → Bool
allowed_in_subscribe_mode name =
    is name "SUBSCRIBE" || is name "UNSUBSCRIBE" || is name "PING" || is name "QUIT"

abbrev pub cmd_ping : List Bytes → M GoError
cmd_ping (c ∷ msg ∷ _) = write_bulk msg
cmd_ping _ = write_simple (codes "PONG")

abbrev pub cmd_echo : List Bytes → M GoError
cmd_echo (c ∷ msg ∷ []) = write_bulk msg
cmd_echo _ = arg_err (codes "echo")

abbrev pub cmd_quit : M GoError
cmd_quit = do write_simple (codes "OK"); pure empty_command

abbrev pub unknown : Bytes → M GoError
unknown name = write_error (codes "ERR unknown command '" ++ (name ++ codes "'"))

-- The last cases of the `switch`; `raw` is the name as it was sent.
unfoldable pub dispatch_rest : Bytes → Bytes → List Bytes → M GoError
dispatch_rest raw name args =
    if is name "LPUSH"
    then cmd_push true args
    else if is name "RPUSH"
    then cmd_push false args
    else if is name "LPOP"
    then cmd_pop true args
    else if is name "RPOP"
    then cmd_pop false args
    else if is name "LLEN"
    then cmd_llen args
    else if is name "LINDEX"
    then cmd_lindex args
    else if is name "LRANGE"
    then cmd_lrange args
    else if is name "SUBSCRIBE"
    then cmd_subscribe args
    else if is name "UNSUBSCRIBE"
    then cmd_unsubscribe args
    else if is name "PUBLISH"
    then cmd_publish args
    else if is name "INFO"
    then cmd_info
    else unknown raw

unfoldable pub dispatch_hashes : Bytes → Bytes → List Bytes → M GoError
unfolding dispatch_rest
dispatch_hashes raw name args =
    if is name "HSET"
    then cmd_hset args
    else if is name "HGET"
    then cmd_hget args
    else if is name "HDEL"
    then cmd_hdel args
    else if is name "HGETALL"
    then cmd_hgetall args
    else if is name "HKEYS"
    then cmd_hcollection Hashes.h_keys (codes "hkeys") args
    else if is name "HVALS"
    then cmd_hcollection Hashes.h_vals (codes "hvals") args
    else if is name "HLEN"
    then cmd_hlen args
    else if is name "HEXISTS"
    then cmd_hexists args
    else dispatch_rest raw name args

unfoldable pub dispatch_keys : Bytes → Bytes → List Bytes → M GoError
unfolding dispatch_hashes
dispatch_keys raw name args =
    if is name "DEL"
    then cmd_del args
    else if is name "EXISTS"
    then cmd_exists args
    else if is name "TYPE"
    then cmd_type args
    else if is name "EXPIRE"
    then cmd_expire second args
    else if is name "PEXPIRE"
    then cmd_expire millisecond args
    else if is name "TTL"
    then cmd_ttl false args
    else if is name "PTTL"
    then cmd_ttl true args
    else if is name "PERSIST"
    then cmd_persist args
    else if is name "KEYS"
    then cmd_keys args
    else if is name "DBSIZE"
    then cmd_dbsize
    else if is name "FLUSHDB"
    then cmd_flushdb args
    else dispatch_hashes raw name args

-- The `switch` of `Execute` on the upper-cased name.
unfoldable pub dispatch : Bytes → Bytes → List Bytes → M GoError
unfolding dispatch_keys
dispatch raw name args =
    if is name "PING"
    then cmd_ping args
    else if is name "ECHO"
    then cmd_echo args
    else if is name "COMMAND"
    then write_simple (codes "OK")
    else if is name "QUIT"
    then cmd_quit
    else if is name "SET"
    then cmd_set args
    else if is name "GET"
    then cmd_get args
    else if is name "GETSET"
    then cmd_get_set args
    else if is name "APPEND"
    then cmd_append args
    else if is name "STRLEN"
    then cmd_str_len args
    else if is name "INCR"
    then cmd_incr (pos 1) args
    else if is name "DECR"
    then cmd_incr (negsuc 0) args
    else if is name "INCRBY" || is name "DECRBY"
    then cmd_incr_by args
    else if is name "MGET"
    then cmd_mget args
    else if is name "MSET"
    then cmd_mset args
    else dispatch_keys raw name args

-- `Execute`.
unfoldable pub execute : List Bytes → M GoError
unfolding dispatch to_upper
execute [] w = some (empty_command, w)
execute (raw ∷ args) w =
    if in_subscribe_mode w && not (allowed_in_subscribe_mode (to_upper raw))
    then write_error (codes "ERR only (UN)SUBSCRIBE / PING / QUIT allowed in subscribe mode") w
    else dispatch raw (to_upper raw) (raw ∷ args) w
