-- ===== src/Command/Keeps/Channels.antt =====
-- The publish/subscribe commands keep what the single actions keep (internal/command/command.go).
use voltkv.Base.{List, [], ◌∷◌, Bytes}
use voltkv.Command.World.{World, M, ◌>>◌, GoError}
use voltkv.Command.Keeps.{IsClosed, Keeps, keeps_rules, pure-Keeps, emit-Keeps}
use voltkv.Command.World.{nil}
use voltkv.Command.Channels.{
  subscribe_one, subscribe_each, cmd_subscribe, unsubscribe_one, unsubscribe_each, unsubscribe_all,
  channels_of, cmd_unsubscribe, cmd_publish,
}

module _ {P : World → Type 0} (closed : IsClosed P) where
  subscribe_round-Keeps :
      (ch : Bytes) (rest : M GoError) → Keeps P rest → Keeps P (do subscribe_one ch; rest)
  subscribe_round-Keeps ch rest h = search keeps_rules depth 12

  subscribe_each-Keeps : (channels : List Bytes) → Keeps P (subscribe_each channels)
  unfolding subscribe_each
  subscribe_each-Keeps [] = pure-Keeps closed nil
  subscribe_each-Keeps (ch ∷ channels) =
      subscribe_round-Keeps ch (subscribe_each channels) (subscribe_each-Keeps channels)

  pub cmd_subscribe-Keeps : (args : List Bytes) → Keeps P (cmd_subscribe args)
  unfolding cmd_subscribe
  cmd_subscribe-Keeps (a ∷ ch ∷ channels) = subscribe_each-Keeps (ch ∷ channels)
  cmd_subscribe-Keeps _ = emit-Keeps closed _

  unsubscribe_round-Keeps :
      (ch : Bytes) (rest : M GoError) → Keeps P rest → Keeps P (do unsubscribe_one ch; rest)
  unsubscribe_round-Keeps ch rest h = search keeps_rules depth 12

  unsubscribe_each-Keeps : (channels : List Bytes) → Keeps P (unsubscribe_each channels)
  unfolding unsubscribe_each
  unsubscribe_each-Keeps [] = pure-Keeps closed nil
  unsubscribe_each-Keeps (ch ∷ channels) =
      unsubscribe_round-Keeps ch (unsubscribe_each channels) (unsubscribe_each-Keeps channels)

  unsubscribe_all-Keeps : (channels : List Bytes) → Keeps P (unsubscribe_all channels)
  unsubscribe_all-Keeps [] = emit-Keeps closed _
  unsubscribe_all-Keeps (ch ∷ channels) = unsubscribe_each-Keeps (ch ∷ channels)

  pub cmd_unsubscribe-Keeps : (args : List Bytes) → Keeps P (cmd_unsubscribe args)
  unfolding cmd_unsubscribe
  cmd_unsubscribe-Keeps (a ∷ ch ∷ channels) = record {
    at = λ w h. (unsubscribe_each-Keeps (ch ∷ channels)).at w h;
  }
  cmd_unsubscribe-Keeps _ = record {
    at = λ w h. (unsubscribe_all-Keeps (channels_of w.subs)).at w h;
  }

  pub cmd_publish-Keeps : (args : List Bytes) → Keeps P (cmd_publish args)
  unfolding cmd_publish
  cmd_publish-Keeps (a ∷ ch ∷ payload ∷ []) = search keeps_rules depth 12
  cmd_publish-Keeps _ = emit-Keeps closed _
