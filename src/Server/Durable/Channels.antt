-- ===== src/Server/Durable/Channels.antt =====
-- The commands on channels change nothing that a key holds and log nothing
-- (internal/command/command.go).
use voltkv.Base.{refl, Option, none, some, List, [], ◌∷◌, Bytes, ℕ}
use voltkv.Base.Dict
use voltkv.Store.Refine.Untimed.Twins.{IsLasting, Twin-refl}
use voltkv.Pubsub
use voltkv.Pubsub.{Sent, sent, panic, Broker}
use voltkv.Command.World.{World, M, ◌>>◌, GoError, nil}
use voltkv.Command.Channels.{
  subscribe_new, subscribe_one, subscribe_each, cmd_subscribe, unsubscribe_sub, unsubscribe_one,
  unsubscribe_each, unsubscribe_all, channels_of, cmd_unsubscribe, published, publish_to,
  cmd_publish,
}
use voltkv.Server.Durable.{Quiet, Left, Stays, quiet_rules, pure-Quiet, emit-Quiet}

subscribe_one-Quiet : (ch : Bytes) → Quiet (subscribe_one ch)
subscribe_one-Quiet ch = record { at = λ w l. go w l (Dict.lookup ch w.subs) }
  where
    go : (w : World) → IsLasting w.store → (o : Option ℕ) → Left (Stays w) (subscribe_new ch o w)
    go w l none = (Twin-refl l, refl)
    go w l (some id) = (Twin-refl l, refl)

unsubscribe_one-Quiet : (ch : Bytes) → Quiet (unsubscribe_one ch)
unsubscribe_one-Quiet ch = record { at = λ w l. go w l (Dict.lookup ch w.subs) }
  where
    go : (w : World) → IsLasting w.store → (o : Option ℕ) → Stays w tt (unsubscribe_sub ch o w)
    go w l none = (Twin-refl l, refl)
    go w l (some id) = (Twin-refl l, refl)

publish_to-Quiet : (ch payload : Bytes) → Quiet (publish_to ch payload)
publish_to-Quiet ch payload = record { at = λ w l. go w l (Pubsub.publish ch payload w.broker) }
  where
    go : (w : World) → IsLasting w.store → (o : Sent (Broker × ℕ)) → Left (Stays w) (published w o)
    go w l panic = tt
    go w l (sent (b, n)) = (Twin-refl l, refl)

ruleset rules = (quiet_rules, subscribe_one-Quiet, unsubscribe_one-Quiet, publish_to-Quiet)

subscribe_round-Quiet :
    (ch : Bytes) (rest : M GoError) → Quiet rest → Quiet (do subscribe_one ch; rest)
subscribe_round-Quiet ch rest h = search rules depth 12

subscribe_each-Quiet : (channels : List Bytes) → Quiet (subscribe_each channels)
unfolding subscribe_each
subscribe_each-Quiet [] = pure-Quiet nil
subscribe_each-Quiet (ch ∷ channels) =
    subscribe_round-Quiet ch (subscribe_each channels) (subscribe_each-Quiet channels)

pub cmd_subscribe-Quiet : (args : List Bytes) → Quiet (cmd_subscribe args)
unfolding cmd_subscribe
cmd_subscribe-Quiet (a ∷ ch ∷ channels) = subscribe_each-Quiet (ch ∷ channels)
cmd_subscribe-Quiet _ = emit-Quiet _

unsubscribe_round-Quiet :
    (ch : Bytes) (rest : M GoError) → Quiet rest → Quiet (do unsubscribe_one ch; rest)
unsubscribe_round-Quiet ch rest h = search rules depth 12

unsubscribe_each-Quiet : (channels : List Bytes) → Quiet (unsubscribe_each channels)
unfolding unsubscribe_each
unsubscribe_each-Quiet [] = pure-Quiet nil
unsubscribe_each-Quiet (ch ∷ channels) =
    unsubscribe_round-Quiet ch (unsubscribe_each channels) (unsubscribe_each-Quiet channels)

unsubscribe_all-Quiet : (channels : List Bytes) → Quiet (unsubscribe_all channels)
unsubscribe_all-Quiet [] = emit-Quiet _
unsubscribe_all-Quiet (ch ∷ channels) = unsubscribe_each-Quiet (ch ∷ channels)

pub cmd_unsubscribe-Quiet : (args : List Bytes) → Quiet (cmd_unsubscribe args)
unfolding cmd_unsubscribe
cmd_unsubscribe-Quiet (a ∷ ch ∷ channels) = record {
  at = λ w l. (unsubscribe_each-Quiet (ch ∷ channels)).at w l;
}
cmd_unsubscribe-Quiet _ = record { at = λ w l. (unsubscribe_all-Quiet (channels_of w.subs)).at w l }

pub cmd_publish-Quiet : (args : List Bytes) → Quiet (cmd_publish args)
unfolding cmd_publish
cmd_publish-Quiet (a ∷ ch ∷ payload ∷ []) = search rules depth 12
cmd_publish-Quiet _ = emit-Quiet _
