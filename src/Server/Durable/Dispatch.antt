-- ===== src/Server/Durable/Dispatch.antt =====
-- The dispatch of a command that sets no deadline (internal/command/command.go).
use voltkv.Base.{◌≡◌, refl, sym, subst, Bool, true, false, List, ◌||◌, Bytes, if◌then◌else◌}
use voltkv.Command.World.{M, GoError}
use voltkv.Base.Int.{pos, negsuc}
use voltkv.Command.Strings.{
  cmd_get, cmd_get_set, cmd_append, cmd_str_len, cmd_incr, cmd_incr_by, cmd_mget, cmd_mset,
}
use voltkv.Command.Generic.{cmd_ttl, cmd_persist, cmd_keys, cmd_dbsize, cmd_flushdb}
use voltkv.Command.Execute.{is, dispatch_rest, dispatch_hashes, dispatch_keys, dispatch}
use voltkv.Server.Durable.{Durable, Quiet-Durable, if-Durable, emit-Quiet}
use voltkv.Server.Durable.Reads.{
  cmd_get-Quiet, cmd_str_len-Quiet, cmd_mget-Quiet, cmd_exists-Quiet, cmd_type-Quiet, cmd_ttl-Quiet,
  cmd_keys-Quiet, cmd_dbsize-Quiet, cmd_info-Quiet, cmd_hget-Quiet, cmd_hcollection-Quiet,
  cmd_hgetall-Quiet, cmd_hlen-Quiet, cmd_hexists-Quiet, cmd_llen-Quiet, cmd_lindex-Quiet,
  cmd_lrange-Quiet, cmd_ping-Quiet, cmd_echo-Quiet, cmd_quit-Quiet,
}
use voltkv.Server.Durable.Channels.{cmd_subscribe-Quiet, cmd_unsubscribe-Quiet, cmd_publish-Quiet}
use voltkv.Server.Durable.Items.{
  cmd_hset-Durable, cmd_hdel-Durable, cmd_push-Durable, cmd_pop-Durable,
}
use voltkv.Server.Durable.Strings.{
  SetsNoTtl, cmd_set-Durable, cmd_get_set-Durable, cmd_append-Durable, cmd_incr-Durable,
  cmd_incr_by-Durable,
}
use voltkv.Server.Durable.Keys.{cmd_del-Durable, cmd_persist-Durable, cmd_flushdb-Durable}
use voltkv.Server.Durable.Pairs.{cmd_mset-Durable}

-- The command sets no deadline: it is no EXPIRE, no PEXPIRE and no SET with EX or PX.
pub record SetsNoDeadline (name : Bytes) (args : List Bytes) : Type 0 where
  pub expire : is name "EXPIRE" ≡ false
  pub pexpire : is name "PEXPIRE" ≡ false
  pub set : is name "SET" ≡ true → SetsNoTtl args

-- The test of a `case` that is not taken.
skipped-Durable :
    {args : List Bytes} {b : Bool} (m : M GoError) {n : M GoError}
    → b ≡ false
    → Durable args n
    → Durable args (if b then m else n)
skipped-Durable {args} m {n} e h = subst (λ c. Durable args (if c then m else n)) (sym e) h

guarded-Durable :
    {args : List Bytes} (b : Bool) {m n : M GoError}
    → (b ≡ true → Durable args m)
    → Durable args n
    → Durable args (if b then m else n)
guarded-Durable true h k = h refl
guarded-Durable false h k = k

dispatch_rest-Durable :
    (raw name : Bytes) (args : List Bytes) → Durable args (dispatch_rest raw name args)
unfolding dispatch_rest
dispatch_rest-Durable raw name args =
    search
      (
        if-Durable, Quiet-Durable, emit-Quiet, cmd_push-Durable, cmd_pop-Durable, cmd_llen-Quiet,
        cmd_lindex-Quiet, cmd_lrange-Quiet, cmd_subscribe-Quiet, cmd_unsubscribe-Quiet,
        cmd_publish-Quiet, cmd_info-Quiet,
      )
      depth 20

dispatch_hashes-Durable :
    (raw name : Bytes) (args : List Bytes) → Durable args (dispatch_hashes raw name args)
unfolding dispatch_hashes
dispatch_hashes-Durable raw name args =
    search
      (
        if-Durable, Quiet-Durable, cmd_hset-Durable, cmd_hdel-Durable, cmd_hget-Quiet,
        cmd_hcollection-Quiet, cmd_hgetall-Quiet, cmd_hlen-Quiet, cmd_hexists-Quiet,
        dispatch_rest-Durable,
      )
      depth 20

module _ (raw name : Bytes) (args : List Bytes) (h : SetsNoDeadline name args) where
  persists-Durable : Durable args (
      if is name "TTL"
      then cmd_ttl false args
      else if is name "PTTL"
      then cmd_ttl true args
      else if is name "PERSIST"
      then cmd_persist args
      else if is name "KEYS"
      then cmd_keys args
      else if is name "DBSIZE"
      then cmd_dbsize
      else if is name "FLUSHDB"
      then cmd_flushdb args
      else dispatch_hashes raw name args)
  persists-Durable =
      search
        (
          if-Durable, Quiet-Durable, cmd_ttl-Quiet, cmd_persist-Durable, cmd_keys-Quiet,
          cmd_dbsize-Quiet, cmd_flushdb-Durable, dispatch_hashes-Durable,
        )
        depth 20

  dispatch_keys-Durable : Durable args (dispatch_keys raw name args)
  unfolding dispatch_keys
  dispatch_keys-Durable = if-Durable args _ _ _ (cmd_del-Durable args) (
      if-Durable args _ _ _ (Quiet-Durable args _ (cmd_exists-Quiet args)) (
        if-Durable args _ _ _ (Quiet-Durable args _ (cmd_type-Quiet args))
          (skipped-Durable _ h.expire (skipped-Durable _ h.pexpire persists-Durable))))

  strings-Durable : Durable args (
      if is name "GET"
      then cmd_get args
      else if is name "GETSET"
      then cmd_get_set args
      else if is name "APPEND"
      then cmd_append args
      else if is name "STRLEN"
      then cmd_str_len args
      else if is name "INCR"
      then cmd_incr (pos 1) args
      else if is name "DECR"
      then cmd_incr (negsuc 0) args
      else if is name "INCRBY" || is name "DECRBY"
      then cmd_incr_by args
      else if is name "MGET"
      then cmd_mget args
      else if is name "MSET"
      then cmd_mset args
      else dispatch_keys raw name args)
  strings-Durable =
      search
        (
          if-Durable, Quiet-Durable, cmd_get-Quiet, cmd_get_set-Durable, cmd_append-Durable,
          cmd_str_len-Quiet, cmd_incr-Durable, cmd_incr_by-Durable, cmd_mget-Quiet,
          cmd_mset-Durable, dispatch_keys-Durable,
        )
        depth 20

  pub dispatch-Durable : Durable args (dispatch raw name args)
  unfolding dispatch
  dispatch-Durable = if-Durable args _ _ _ (Quiet-Durable args _ (cmd_ping-Quiet args)) (
      if-Durable args _ _ _ (Quiet-Durable args _ (cmd_echo-Quiet args)) (
        if-Durable args _ _ _ (Quiet-Durable args _ (emit-Quiet _)) (
          if-Durable args _ _ _ (Quiet-Durable args _ cmd_quit-Quiet)
            (guarded-Durable _ (λ e. cmd_set-Durable args (h.set e)) strings-Durable))))
