-- ===== src/Command/Deliveries.antt =====
-- What a command leaves of the subscriptions that delivery goroutines wait on
-- (internal/command/command.go).
use voltkv.Base.{
  ℕ, ==_iff, ◌≡◌, refl, ap, sym, ◌∙◌, Bool, true, false, not, ◌&&◌, ◌||◌, Option, none, some,
  is_some, List, [], ◌∷◌, ◌++◌, length, All, All-append, get_elem?, Bytes, arith, Bool-cases, inl,
  inr,
}
use voltkv.Base.Dict
use voltkv.Base.Dict.{Dict}
use voltkv.Store.Shards.{Store}
use voltkv.Pubsub
use voltkv.Pubsub.{Subscription, Broker, sent}
use voltkv.Pubsub.Valid.{
  listens, is_open, get_elem?_end, made-subscribe, subscribe-id, made-unsubscribe,
}
use voltkv.Pubsub.Delivery.{received, publish_exact}
use voltkv.Command.World.{World}
use voltkv.Command.Keeps.{IsClosed, Returns}
use voltkv.Command.Keeps.Execute.{execute-Keeps}
use voltkv.Command.Safety.{
  IsSafe, Safe, Safe-IsClosed, publish-IsSafe, store-IsSafe, holds, own_sub,
}
use voltkv.Command.Safety.Holds.{holds-insert, holds-erase_ne}
use voltkv.Command.Execute.{execute}

-- Closed, with no message left.
abbrev pub is_spent_with : Bool → List Pubsub.Message → Bool
is_spent_with closed [] = closed
is_spent_with closed (msg ∷ rest) = false

abbrev pub is_spent : Option Subscription → Bool
is_spent none = false
is_spent (some sub) = is_spent_with sub.closed sub.buffer

open_unspent : (sub : Subscription) → sub.closed ≡ false → is_spent (some sub) ≡ false
open_unspent sub h = go sub.buffer
  where
    go : (buffer : List Pubsub.Message) → is_spent_with sub.closed buffer ≡ false
    go [] = h
    go (msg ∷ rest) = refl

-- A subscription goes on to exist, does not open again, and gets no message behind its last.
abbrev pub evolved : Option Subscription → Option Subscription → Bool
evolved o o' =
    not (is_some o)
    || (is_some o' && (not (is_open o') || is_open o) && (not (is_spent o) || is_spent o'))

abbrev pub Evolves : List Subscription → List Subscription → Type 0
Evolves made made' = (id : ℕ) → evolved (get_elem? made id) (get_elem? made' id) ≡ true

-- A subscription with a delivery goroutine exists, and is open only while its connection has it.
abbrev pub followed : List Subscription → Dict ℕ → ℕ → Bool
followed made subs id =
    is_some (get_elem? made id) && (not (is_open (get_elem? made id)) || holds id subs)

abbrev pub Follows : List Subscription → Dict ℕ → List ℕ → Type 0
Follows made subs = All (λ id. followed made subs id ≡ true)

-- From `made₀` on.
pub record Delivers (others : List (Dict ℕ)) (made₀ : List Subscription) (w : World) : Type 0 where
  pub safe : Safe others w
  pub follows : Follows w.broker.made w.subs w.delivering
  pub evolves : Evolves made₀ w.broker.made

mapped-Follows :
    (made made' : List Subscription) (subs subs' : Dict ℕ) (ids : List ℕ)
    → ((id : ℕ) → followed made subs id ≡ true → followed made' subs' id ≡ true)
    → Follows made subs ids
    → Follows made' subs' ids
mapped-Follows made made' subs subs' [] f h = tt
mapped-Follows made made' subs subs' (id ∷ ids) f (h, hs) =
    (f id h, mapped-Follows made made' subs subs' ids f hs)

-- The subscriptions of another connection.
pub Evolves-Follows :
    (made made' : List Subscription) (subs : Dict ℕ) (ids : List ℕ)
    → Evolves made made'
    → Follows made subs ids
    → Follows made' subs ids
Evolves-Follows made made' subs ids e h =
    mapped-Follows made made' subs subs ids (λ id k. ground (arith, e id)) h

subscribe-Delivers :
    {others : List (Dict ℕ)} {made₀ : List Subscription} (w : World) (ch : Bytes)
    → Dict.lookup ch w.subs ≡ none
    → Delivers others made₀ w
    → Delivers others made₀ (record w {
      broker = (Pubsub.subscribe ch w.broker).0;
      subs = Dict.insert ch (Pubsub.subscribe ch w.broker).1 w.subs;
      delivering = w.delivering ++ (Pubsub.subscribe ch w.broker).1 ∷ [];
    })
subscribe-Delivers {others} w ch new h = record {
  safe = (Safe-IsClosed others).subscribe w ch new h.safe;
  follows = rw (subscribe-id ch w.broker) (
      All-append _ w.delivering _
        (mapped-Follows w.broker.made _ w.subs _ w.delivering
          (λ id k. ground (
            arith,
            k,
            made-subscribe ch w.broker id,
            holds-insert ch (length w.broker.made) id w.subs new,
          ))
          h.follows)
        (
          ground (
            arith,
            made-subscribe ch w.broker (length w.broker.made),
            holds-insert ch (length w.broker.made) (length w.broker.made) w.subs new,
          ),
          tt,
        ));
  evolves = λ id.
      ground (arith, h.evolves id, made-subscribe ch w.broker id, get_elem?_end w.broker.made);
}

pub unsubscribe-Evolves :
    {others : List (Dict ℕ)} {s : Store} {b : Broker} {subs : Dict ℕ} (h : IsSafe others s b subs)
    (ch : Bytes) (id : ℕ)
    → Dict.lookup ch subs ≡ some id
    → Evolves b.made (Pubsub.unsubscribe id b).made
unsubscribe-Evolves h ch id l =
    let (sub, at_id, open_yet, named) = own_sub h ch id l in
    λ j. ground (
      arith,
      made-unsubscribe h.broker id j sub at_id open_yet,
      ==_iff id j,
      open_unspent sub open_yet,
    )

-- The deferred loop of `handleConn` does the same.
pub unsubscribe-Follows :
    {others : List (Dict ℕ)} {s : Store} {b : Broker} {subs : Dict ℕ} (h : IsSafe others s b subs)
    (ch : Bytes) (id : ℕ) (ids : List ℕ)
    → Dict.lookup ch subs ≡ some id
    → Follows b.made subs ids
    → Follows (Pubsub.unsubscribe id b).made (Dict.erase ch subs) ids
unsubscribe-Follows {b} {subs} h ch id ids l f =
    let (sub, at_id, open_yet, named) = own_sub h ch id l in
    mapped-Follows b.made _ subs _ ids
      (λ j k. ground (
        arith,
        k,
        made-unsubscribe h.broker id j sub at_id open_yet,
        holds-erase_ne ch id j subs h.distinct l,
        ==_iff id j,
      ))
      f

unsubscribe-Delivers :
    {others : List (Dict ℕ)} {made₀ : List Subscription} (w : World) (ch : Bytes) (id : ℕ)
    → Dict.lookup ch w.subs ≡ some id
    → Delivers others made₀ w
    → Delivers others made₀
        (record w { broker = Pubsub.unsubscribe id w.broker; subs = Dict.erase ch w.subs })
unsubscribe-Delivers {others} w ch id l h = record {
  safe = (Safe-IsClosed others).unsubscribe w ch id l h.safe;
  follows = unsubscribe-Follows h.safe ch id w.delivering l h.follows;
  evolves = λ j. ground (arith, h.evolves j, unsubscribe-Evolves h.safe ch id l j);
}

received-evolved :
    (msg : Pubsub.Message) (ch : Bytes) (o : Option Subscription)
    → evolved o (received msg (listens ch o) o) ≡ true
received-evolved msg ch none = refl
received-evolved msg ch (some sub) = elim (Bool-cases sub.closed) [
  | inl e ↦ rw e (ground (arith, e))
  | inr e ↦ ground (arith, e, open_unspent sub e)
]

publish-Evolves :
    {others : List (Dict ℕ)} {s : Store} {b b' : Broker} {subs : Dict ℕ} {n : ℕ}
    (h : IsSafe others s b subs) (ch payload : Bytes)
    → Pubsub.publish ch payload b ≡ sent (b', n)
    → Evolves b.made b'.made
publish-Evolves {b} {b'} h ch payload e =
    let (c, e', _, made) = publish_exact h.broker ch payload in
    let same : c ≡ b' = cc in
    λ id.
      ap (λ (x : Broker). evolved (get_elem? b.made id) (get_elem? x.made id)) (sym same)
      ∙ ap (evolved (get_elem? b.made id)) (made id)
      ∙ received-evolved (record { channel = ch; payload = payload }) ch (get_elem? b.made id)

publish-Delivers :
    {others : List (Dict ℕ)} {made₀ : List Subscription} (w : World) (ch payload : Bytes)
    → Delivers others made₀ w
    → (b : Broker) × (n : ℕ) × (Pubsub.publish ch payload w.broker ≡ sent (b, n))
      × Delivers others made₀ (record w { broker = b })
publish-Delivers {others} {made₀} w ch payload h =
    let (b, n, e, safe) = publish-IsSafe h.safe ch payload in
    let later : Evolves w.broker.made b.made = publish-Evolves h.safe ch payload e in
    (
      b,
      n,
      e,
      record {
        safe = safe;
        follows = Evolves-Follows w.broker.made b.made w.subs w.delivering later h.follows;
        evolves = λ id. ground (arith, h.evolves id, later id);
      },
    )

Delivers-IsClosed :
    (others : List (Dict ℕ)) (made₀ : List Subscription) → IsClosed (Delivers others made₀)
Delivers-IsClosed others made₀ = record {
  out = λ w bytes h. record { safe = h.safe; follows = h.follows; evolves = h.evolves };
  aof = λ w args h. record { safe = h.safe; follows = h.follows; evolves = h.evolves };
  reads = λ w n h. record { safe = h.safe; follows = h.follows; evolves = h.evolves };
  store = λ w s f h. record {
    safe = store-IsSafe h.safe f.valid;
    follows = h.follows;
    evolves = h.evolves;
  };
  subscribe = λ w ch new h. subscribe-Delivers w ch new h;
  unsubscribe = λ w ch id l h. unsubscribe-Delivers w ch id l h;
  publish = λ w ch payload h. publish-Delivers w ch payload h;
}

-- Every command.
pub execute-Delivers :
    (others : List (Dict ℕ)) (args : List Bytes) (w : World)
    → Safe others w
    → Follows w.broker.made w.subs w.delivering
    → Returns (Delivers others w.broker.made) (execute args w)
execute-Delivers others args w h f =
    (execute-Keeps (Delivers-IsClosed others w.broker.made) args).at w
      (record { safe = h; follows = f; evolves = λ id. ground arith })
