-- ===== src/Command/Keeps/Execute.antt =====
-- Every command keeps what the single actions keep (internal/command/command.go).
use voltkv.Base.{List, [], ◌∷◌, Bytes, Bool-cases, inl, inr, not, ◌&&◌}
use voltkv.Command.World.{World, to_upper}
use voltkv.Command.Execute.{
  cmd_ping, cmd_echo, cmd_quit, dispatch_rest, dispatch_hashes, dispatch_keys, dispatch, execute,
  in_subscribe_mode, allowed_in_subscribe_mode,
}
use voltkv.Command.Keeps.{IsClosed, Keeps, keeps_rules, emit-Keeps, if-Keeps}
use voltkv.Command.Keeps.Strings.{
  cmd_set-Keeps, cmd_get-Keeps, cmd_get_set-Keeps, cmd_append-Keeps, cmd_str_len-Keeps,
  cmd_incr-Keeps, cmd_incr_by-Keeps, cmd_mget-Keeps, cmd_mset-Keeps,
}
use voltkv.Command.Keeps.Generic.{
  cmd_del-Keeps, cmd_exists-Keeps, cmd_type-Keeps, cmd_expire-Keeps, cmd_ttl-Keeps,
  cmd_persist-Keeps, cmd_keys-Keeps, cmd_dbsize-Keeps, cmd_flushdb-Keeps, cmd_info-Keeps,
}
use voltkv.Command.Keeps.Items.{
  cmd_hset-Keeps, cmd_hget-Keeps, cmd_hdel-Keeps, cmd_hcollection-Keeps, cmd_hgetall-Keeps,
  cmd_hlen-Keeps, cmd_hexists-Keeps, cmd_push-Keeps, cmd_pop-Keeps, cmd_llen-Keeps,
  cmd_lindex-Keeps, cmd_lrange-Keeps,
}
use voltkv.Command.Keeps.Channels.{cmd_subscribe-Keeps, cmd_unsubscribe-Keeps, cmd_publish-Keeps}

module _ {P : World → Type 0} (closed : IsClosed P) where
  cmd_ping-Keeps : (args : List Bytes) → Keeps P (cmd_ping args)
  cmd_ping-Keeps (a ∷ msg ∷ rest) = emit-Keeps closed _
  cmd_ping-Keeps _ = emit-Keeps closed _

  cmd_echo-Keeps : (args : List Bytes) → Keeps P (cmd_echo args)
  cmd_echo-Keeps (a ∷ msg ∷ []) = emit-Keeps closed _
  cmd_echo-Keeps _ = emit-Keeps closed _

  cmd_quit-Keeps : Keeps P cmd_quit
  cmd_quit-Keeps = search keeps_rules depth 12

  dispatch_rest-Keeps :
      (raw name : Bytes) (args : List Bytes) → Keeps P (dispatch_rest raw name args)
  unfolding dispatch_rest
  dispatch_rest-Keeps raw name args =
      search
        (
          if-Keeps, emit-Keeps, cmd_push-Keeps, cmd_pop-Keeps, cmd_llen-Keeps, cmd_lindex-Keeps,
          cmd_lrange-Keeps, cmd_subscribe-Keeps, cmd_unsubscribe-Keeps, cmd_publish-Keeps,
          cmd_info-Keeps,
        )
        depth 20

  dispatch_hashes-Keeps :
      (raw name : Bytes) (args : List Bytes) → Keeps P (dispatch_hashes raw name args)
  unfolding dispatch_hashes
  dispatch_hashes-Keeps raw name args =
      search
        (
          if-Keeps, cmd_hset-Keeps, cmd_hget-Keeps, cmd_hdel-Keeps, cmd_hcollection-Keeps,
          cmd_hgetall-Keeps, cmd_hlen-Keeps, cmd_hexists-Keeps, dispatch_rest-Keeps,
        )
        depth 20

  dispatch_keys-Keeps :
      (raw name : Bytes) (args : List Bytes) → Keeps P (dispatch_keys raw name args)
  unfolding dispatch_keys
  dispatch_keys-Keeps raw name args =
      search
        (
          if-Keeps, cmd_del-Keeps, cmd_exists-Keeps, cmd_type-Keeps, cmd_expire-Keeps,
          cmd_ttl-Keeps, cmd_persist-Keeps, cmd_keys-Keeps, cmd_dbsize-Keeps, cmd_flushdb-Keeps,
          dispatch_hashes-Keeps,
        )
        depth 20

  dispatch-Keeps : (raw name : Bytes) (args : List Bytes) → Keeps P (dispatch raw name args)
  unfolding dispatch
  dispatch-Keeps raw name args =
      search
        (
          if-Keeps, emit-Keeps, cmd_ping-Keeps, cmd_echo-Keeps, cmd_quit-Keeps, cmd_set-Keeps,
          cmd_get-Keeps, cmd_get_set-Keeps, cmd_append-Keeps, cmd_str_len-Keeps, cmd_incr-Keeps,
          cmd_incr_by-Keeps, cmd_mget-Keeps, cmd_mset-Keeps, dispatch_keys-Keeps,
        )
        depth 20

  -- What every single action of a handler keeps, every command keeps; and it returns.
  pub execute-Keeps : (args : List Bytes) → Keeps P (execute args)
  unfolding execute
  execute-Keeps [] = record { at = λ w h. h }
  execute-Keeps (raw ∷ args) = record {
    at = λ w h.
        elim (Bool-cases (in_subscribe_mode w && not (allowed_in_subscribe_mode (to_upper raw)))) [
          | inl refused ↦ rw refused (closed.out w _ h)
          | inr run ↦ rw run ((dispatch-Keeps raw (to_upper raw) (raw ∷ args)).at w h)
        ];
  }
