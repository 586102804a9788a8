-- ===== src/Command/Safety.antt =====
-- The state that a connection works on stays sound under every command, and no command panics:
-- the store, the broker, and which subscriptions are whose (internal/command/command.go).
pub mod Holds
use voltkv.Base.{
  ℕ, ◌+◌, ◌==◌, ==_iff, ◌≡◌, refl, ap, ◌∙◌, Bool, true, false, not, ◌&&◌, ◌||◌, Option, none, some,
  List, [], ◌∷◌, ◌++◌, length, All, get_elem?, if◌then◌else◌, Bytes, bytes_eq, bytes_eq_iff,
  bytes_eq_refl, arith, Option-cases, Bool-cases, inl, inr,
}
use voltkv.Base.Dict
use voltkv.Base.Dict.{
  Dict, Distinct, lookup-insert, lookup-erase, insert-Distinct, erase-Distinct, erase_absent,
}
use voltkv.Store.Shards.{Store}
use voltkv.Store.Shards.Valid
use voltkv.Pubsub
use voltkv.Pubsub.{Subscription, Broker, sent}
use voltkv.Pubsub.Valid.{
  listens, is_open, get_elem?_end, made-subscribe, subscribe-id, subscribe-IsValid,
  unsubscribe-IsValid, made-unsubscribe,
}
use voltkv.Pubsub.Delivery.{received, publish_exact, publish-IsValid, listens-received}
use voltkv.Command.World.{World}
use voltkv.Command.Keeps.{IsClosed, Returns}
use voltkv.Command.Keeps.Execute.{execute-Keeps}
use voltkv.Command.Execute.{execute}
pub use voltkv.Command.Safety.Holds.{holds, held, Finds, lookup-holds}
use voltkv.Command.Safety.Holds.{holds-insert, holds-lookup, holds-erase_ne, frame_kept}

-- The store, the broker and the subscriptions `subs` of one connection; `others` are those of the
-- other connections.
pub record IsSafe (others : List (Dict ℕ)) (s : Store) (b : Broker) (subs : Dict ℕ) : Type 0 where
  pub store : Valid.IsValid s
  pub broker : Pubsub.Valid.IsValid b
  pub distinct : Distinct subs
  -- A subscription is open exactly as long as some connection has it.
  pub split : (id : ℕ) → is_open (get_elem? b.made id) ≡ (held id others || holds id subs)
  -- No other connection has one of this connection.
  pub apart : (id : ℕ) → (held id others && holds id subs) ≡ false
  pub channels : Finds b.made subs
  pub frame : All (Finds b.made) others

abbrev pub Safe : List (Dict ℕ) → World → Type 0
Safe others w = IsSafe others w.store w.broker w.subs

subscribe-IsSafe :
    {others : List (Dict ℕ)} {s : Store} {b : Broker} {subs : Dict ℕ} (h : IsSafe others s b subs)
    (ch : Bytes)
    → Dict.lookup ch subs ≡ none
    → IsSafe others s (Pubsub.subscribe ch b).0 (Dict.insert ch (Pubsub.subscribe ch b).1 subs)
subscribe-IsSafe {others} {b} {subs} h ch new = rw (subscribe-id ch b) (record {
  store = h.store;
  broker = subscribe-IsValid h.broker ch;
  distinct = insert-Distinct ch (length b.made) subs h.distinct;
  split = λ id. ground (
    arith,
    made-subscribe ch b id,
    holds-insert ch (length b.made) id subs new,
    h.split id,
    get_elem?_end b.made,
  );
  apart = λ id. ground (
    arith,
    holds-insert ch (length b.made) id subs new,
    h.split id,
    h.apart id,
    get_elem?_end b.made,
  );
  channels = λ c id l. ground (
    arith,
    lookup-insert ch c (length b.made) subs,
    bytes_eq_iff ch c,
    made-subscribe ch b id,
    h.channels c id,
    get_elem?_end b.made,
  );
  frame =
      frame_kept b.made _ others
        (λ c id m k. ground (arith, made-subscribe ch b id, get_elem?_end b.made)) h.frame;
})

-- What a subscription of the connection looks like in the broker.
pub own_sub :
    {others : List (Dict ℕ)} {s : Store} {b : Broker} {subs : Dict ℕ} (h : IsSafe others s b subs)
    (ch : Bytes) (id : ℕ)
    → Dict.lookup ch subs ≡ some id
    → (sub : Subscription) × (get_elem? b.made id ≡ some sub)
      × (sub.closed ≡ false)
      × (sub.channel ≡ ch)
own_sub {b} h ch id l = elim (Option-cases (get_elem? b.made id)) [
  | inl e ↦ ground (arith, h.channels ch id)
  | inr (sub, e) ↦ (
    sub,
    e,
    ground (arith, h.channels ch id, bytes_eq_iff sub.channel ch),
    ground (arith, h.channels ch id, bytes_eq_iff sub.channel ch),
  )
]

erased-holds :
    {others : List (Dict ℕ)} {s : Store} {b : Broker} {subs : Dict ℕ} (h : IsSafe others s b subs)
    (ch : Bytes) (id : ℕ)
    → Dict.lookup ch subs ≡ some id
    → holds id (Dict.erase ch subs) ≡ false
erased-holds {subs} h ch id l = elim (Bool-cases (holds id (Dict.erase ch subs))) [
  | inr e ↦ e
  | inl e ↦
      let (c, l') = holds-lookup id (Dict.erase ch subs) (erase-Distinct ch subs h.distinct) e in
      let (sub, at_id, open_yet, named) = own_sub h ch id l in
      ground (
        arith,
        l',
        lookup-erase ch c subs,
        h.channels c id,
        at_id,
        named,
        bytes_eq_iff sub.channel c,
        bytes_eq_iff ch c,
      )
]

pub unsubscribe-IsSafe :
    {others : List (Dict ℕ)} {s : Store} {b : Broker} {subs : Dict ℕ} (h : IsSafe others s b subs)
    (ch : Bytes) (id : ℕ)
    → Dict.lookup ch subs ≡ some id
    → IsSafe others s (Pubsub.unsubscribe id b) (Dict.erase ch subs)
unsubscribe-IsSafe {others} {b} {subs} h ch id l =
    let (sub, at_id, open_yet, named) = own_sub h ch id l in
    record {
      store = h.store;
      broker = unsubscribe-IsValid h.broker id;
      distinct = erase-Distinct ch subs h.distinct;
      split = λ j. ground (
        arith,
        made-unsubscribe h.broker id j sub at_id open_yet,
        h.split j,
        h.apart j,
        erased-holds h ch id l,
        lookup-holds ch id subs l,
        holds-erase_ne ch id j subs h.distinct l,
        ==_iff id j,
      );
      apart = λ j. ground (
        arith,
        h.apart j,
        erased-holds h ch id l,
        holds-erase_ne ch id j subs h.distinct l,
        ==_iff id j,
      );
      channels = λ c j l'. ground (
        arith,
        lookup-erase ch c subs,
        h.channels c j,
        made-unsubscribe h.broker id j sub at_id open_yet,
        at_id,
        named,
        bytes_eq_iff sub.channel c,
        bytes_eq_iff ch c,
        ==_iff id j,
      );
      frame =
          frame_kept b.made _ others
            (λ c j m k. ground (
              arith,
              made-unsubscribe h.broker id j sub at_id open_yet,
              h.apart j,
              lookup-holds ch id subs l,
              ==_iff id j,
            ))
            h.frame;
    }

-- A change of what is in the channels alone.
pub buffers-IsSafe :
    {others : List (Dict ℕ)} {s : Store} {b b' : Broker} {subs : Dict ℕ}
    (h : IsSafe others s b subs)
    → Pubsub.Valid.IsValid b'
    → ((id : ℕ) → is_open (get_elem? b'.made id) ≡ is_open (get_elem? b.made id))
    → ((c : Bytes) (id : ℕ) → listens c (get_elem? b'.made id) ≡ listens c (get_elem? b.made id))
    → IsSafe others s b' subs
buffers-IsSafe {others} {b} h v opens hears = record {
  store = h.store;
  broker = v;
  distinct = h.distinct;
  split = λ id. opens id ∙ h.split id;
  apart = h.apart;
  channels = λ c id l. hears c id ∙ h.channels c id l;
  frame = frame_kept b.made _ others (λ c id m k. hears c id ∙ k) h.frame;
}

pub is_open-received :
    (msg : Pubsub.Message) (reached : Bool) (o : Option Subscription)
    → is_open (received msg reached o) ≡ is_open o
is_open-received msg reached none = refl
is_open-received msg reached (some sub) = ground arith

pub publish-IsSafe :
    {others : List (Dict ℕ)} {s : Store} {b : Broker} {subs : Dict ℕ} (h : IsSafe others s b subs)
    (ch payload : Bytes)
    → (b' : Broker) × (n : ℕ) × (Pubsub.publish ch payload b ≡ sent (b', n))
      × IsSafe others s b' subs
publish-IsSafe h ch payload =
    let (b', e, same, made) = publish_exact h.broker ch payload in
    (
      b',
      _,
      e,
      buffers-IsSafe h (publish-IsValid h.broker ch payload e)
          (λ id. ap is_open (made id) ∙ is_open-received _ _ _)
          (λ c id. ap (listens c) (made id) ∙ listens-received _ _ c _),
    )

pub store-IsSafe :
    {others : List (Dict ℕ)} {s s' : Store} {b : Broker} {subs : Dict ℕ}
    → IsSafe others s b subs
    → (Valid.IsValid s → Valid.IsValid s')
    → IsSafe others s' b subs
store-IsSafe h f = record {
  store = f h.store;
  broker = h.broker;
  distinct = h.distinct;
  split = h.split;
  apart = h.apart;
  channels = h.channels;
  frame = h.frame;
}

pub Safe-IsClosed : (others : List (Dict ℕ)) → IsClosed (Safe others)
Safe-IsClosed others = record {
  out = λ w bytes h. h;
  aof = λ w args h. h;
  reads = λ w n h. h;
  store = λ w s f h. store-IsSafe h f.valid;
  subscribe = λ w ch new h. subscribe-IsSafe h ch new;
  unsubscribe = λ w ch id l h. unsubscribe-IsSafe h ch id l;
  publish = λ w ch payload h. publish-IsSafe h ch payload;
}

-- From a safe state every command, with no other client at work during it, returns with no panic and
-- leaves a safe state: a valid store, a valid broker, and each open subscription in the hands of one
-- connection, this one or another.
pub execute-IsSafe :
    (others : List (Dict ℕ)) (args : List Bytes) (w : World)
    → IsSafe others w.store w.broker w.subs
    → Returns (Safe others) (execute args w)
execute-IsSafe others args w h = (execute-Keeps (Safe-IsClosed others) args).at w h
