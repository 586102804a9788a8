-- ===== src/Command/Channels.antt =====
-- The publish/subscribe commands (internal/command/command.go).
use voltkv.Base.{ℕ, Option, none, some, List, [], ◌∷◌, ◌++◌, length, Bytes, codes}
use voltkv.Base.Int.{pos}
use voltkv.Base.Dict
use voltkv.Base.Dict.{Dict}
use voltkv.Resp
use voltkv.Pubsub
use voltkv.Pubsub.{Broker, Sent, sent, panic}
use voltkv.Command.World.{World, M, ◌>>=◌, ◌>>◌, pure, GoError, nil, emit, write_integer, arg_err}

-- `writeSubscribeReply`.
unfoldable pub subscribe_reply : Bytes → Bytes → ℕ → Bytes
subscribe_reply kind channel count =
    Resp.array_header 3
    ++ (Resp.bulk_string kind ++ (Resp.bulk_string channel ++ Resp.integer_reply (pos count)))

-- `writeSubscribeReplyNull`.
unfoldable pub subscribe_reply_null : Bytes → ℕ → Bytes
subscribe_reply_null kind count =
    Resp.array_header 3
    ++ (Resp.bulk_string kind ++ (Resp.null_reply ++ Resp.integer_reply (pos count)))

-- A round of the loop of `cmdSubscribe`.
abbrev pub subscribe_new : Bytes → Option ℕ → M (Unit {0})
subscribe_new ch (some already) w = some (tt, w)
subscribe_new ch none w =
    let (b, id) = Pubsub.subscribe ch w.broker in
    let subs = Dict.insert ch id w.subs in
    some (
      tt,
      record w {
        broker = b;
        subs = subs;
        delivering = w.delivering ++ id ∷ [];
        out = w.out ++ subscribe_reply (codes "subscribe") ch (length subs);
      },
    )

abbrev pub subscribe_one : Bytes → M (Unit {0})
subscribe_one ch w = subscribe_new ch (Dict.lookup ch w.subs) w

unfoldable pub subscribe_each : List Bytes → M GoError
subscribe_each [] = pure nil
subscribe_each (ch ∷ channels) = do subscribe_one ch; subscribe_each channels

-- `cmdSubscribe`.
unfoldable pub cmd_subscribe : List Bytes → M GoError
unfolding subscribe_each
cmd_subscribe (c ∷ ch ∷ channels) = subscribe_each (ch ∷ channels)
cmd_subscribe _ = arg_err (codes "subscribe")

-- A round of the loop of `cmdUnsubscribe`.
abbrev pub unsubscribe_sub : Bytes → Option ℕ → World → World
unsubscribe_sub ch none w = w
unsubscribe_sub ch (some id) w = record w {
  broker = Pubsub.unsubscribe id w.broker;
  subs = Dict.erase ch w.subs;
}

abbrev pub unsubscribe_one : Bytes → M (Unit {0})
unsubscribe_one ch w =
    let w' = unsubscribe_sub ch (Dict.lookup ch w.subs) w in
    some
      (tt, record w' { out = w'.out ++ subscribe_reply (codes "unsubscribe") ch (length w'.subs) })

unfoldable pub unsubscribe_each : List Bytes → M GoError
unsubscribe_each [] = pure nil
unsubscribe_each (ch ∷ channels) = do unsubscribe_one ch; unsubscribe_each channels

abbrev pub channels_of : Dict ℕ → List Bytes
channels_of [] = []
channels_of ((ch, id) ∷ subs) = ch ∷ channels_of subs

-- UNSUBSCRIBE with no channels means all of them.
abbrev pub unsubscribe_all : List Bytes → M GoError
unsubscribe_all [] = emit (subscribe_reply_null (codes "unsubscribe") 0)
unsubscribe_all (ch ∷ channels) = unsubscribe_each (ch ∷ channels)

-- `cmdUnsubscribe`.
unfoldable pub cmd_unsubscribe : List Bytes → M GoError
unfolding unsubscribe_each
cmd_unsubscribe (c ∷ ch ∷ channels) w = unsubscribe_each (ch ∷ channels) w
cmd_unsubscribe _ w = unsubscribe_all (channels_of w.subs) w

abbrev pub published : World → Sent (Broker × ℕ) → Option (ℕ × World)
published w panic = none
published w (sent (b, n)) = some (n, record w { broker = b })

abbrev pub publish_to : Bytes → Bytes → M ℕ
publish_to ch payload w = published w (Pubsub.publish ch payload w.broker)

-- `cmdPublish`.
unfoldable pub cmd_publish : List Bytes → M GoError
cmd_publish (c ∷ ch ∷ payload ∷ []) = do n ← publish_to ch payload; write_integer (pos n)
cmd_publish _ = arg_err (codes "publish")
