-- ===== src/Pubsub/Valid.antt =====
-- What holds of every broker: its sets and its subscriptions agree (internal/pubsub/pubsub.go).
use voltkv.Base.{
  ℕ, ◌==◌, ==_iff, ◌≡◌, refl, ap, Bool, true, false, not, ◌&&◌, Option, none, some, List, [], ◌∷◌,
  length, get_elem?, set, get_elem?-set, get_elem?-concat, if◌then◌else◌, Bytes, bytes_eq,
  bytes_eq_iff, bytes_eq_refl, arith, Bool-cases, Option-cases, inl, inr,
}
use voltkv.Base.Dict
use voltkv.Base.Dict.{Dict, lookup-insert, lookup-erase}
use voltkv.Pubsub.{
  Subscription, Broker, new, member, without, put_set, snapshot, subscribers, subscribe,
  unsubscribe, drop_from,
}

-- The subscription is open, and listens to the channel.
abbrev pub listens : Bytes → Option Subscription → Bool
listens c none = false
listens c (some sub) = not sub.closed && bytes_eq sub.channel c

abbrev pub is_open : Option Subscription → Bool
is_open none = false
is_open (some sub) = not sub.closed

abbrev pub NoRepeats : List ℕ → Type 0
NoRepeats [] = Unit
NoRepeats (x ∷ ids) = (member x ids ≡ false) × NoRepeats ids

pub record IsValid (b : Broker) : Type 0 where
  -- The set of a channel holds the open subscriptions to it and no others.
  pub exact : (c : Bytes) (id : ℕ) → member id (snapshot c b) ≡ listens c (get_elem? b.made id)
  -- It holds each once.
  pub once : (c : Bytes) → NoRepeats (snapshot c b)

member-without :
    (id j : ℕ) (ids : List ℕ)
    → member j (without id ids) ≡ (if id == j then false else member j ids)
member-without id j [] = ground arith
member-without id j (x ∷ ids) = ground (arith, member-without id j ids)

without-NoRepeats : (id : ℕ) (ids : List ℕ) → NoRepeats ids → NoRepeats (without id ids)
without-NoRepeats id [] h = tt
without-NoRepeats id (x ∷ ids) (h, hs) =
    ground (arith, member-without id x ids, without-NoRepeats id ids hs)

pub new-IsValid : IsValid new
unfolding snapshot Dict.lookup
new-IsValid = record { exact = λ c id. refl; once = λ c. tt }

pub get_elem?_end : (made : List Subscription) → get_elem? made (length made) ≡ none
get_elem?_end [] = refl
get_elem?_end (x ∷ made) = get_elem?_end made

snapshot-subscribe :
    (channel c : Bytes) (b : Broker)
    → snapshot c (subscribe channel b).0
      ≡ (if bytes_eq channel c then length b.made ∷ snapshot channel b else snapshot c b)
unfolding snapshot subscribe
snapshot-subscribe channel c b = ground (
  arith,
  lookup-insert channel c (length b.made ∷ subscribers (Dict.lookup channel b.subs)) b.subs,
)

abbrev pub opened : Bytes → Subscription
opened channel = record { channel = channel; buffer = []; closed = false }

pub made-subscribe :
    (channel : Bytes) (b : Broker) (id : ℕ)
    → get_elem? (subscribe channel b).0.made id
      ≡ (if id == length b.made then some (opened channel) else get_elem? b.made id)
unfolding subscribe
made-subscribe channel b id = get_elem?-concat b.made (opened channel) id

pub subscribe-id : (channel : Bytes) (b : Broker) → (subscribe channel b).1 ≡ length b.made
unfolding subscribe
subscribe-id channel b = refl

-- A new subscription joins the set of its channel.
pub subscribe-IsValid :
    {b : Broker} (v : IsValid b) (channel : Bytes) → IsValid (subscribe channel b).0
subscribe-IsValid {b} v channel = record {
  exact = λ c id. ground (
    arith,
    snapshot-subscribe channel c b,
    made-subscribe channel b id,
    get_elem?_end b.made,
    v.exact c id,
    v.exact channel id,
    bytes_eq_iff channel c,
  );
  once = λ c. ground (
    arith,
    snapshot-subscribe channel c b,
    get_elem?_end b.made,
    v.exact channel (length b.made),
    v.once c,
    v.once channel,
  );
}

snapshot-put_set :
    (channel c : Bytes) (ids : List ℕ) (b : Broker) (made : List Subscription)
    → snapshot c (record { subs = put_set channel ids b.subs; made = made })
      ≡ (if bytes_eq channel c then ids else snapshot c b)
unfolding snapshot
snapshot-put_set channel c [] b made = ground (arith, lookup-erase channel c b.subs)
snapshot-put_set channel c (id ∷ ids) b made =
    ground (arith, lookup-insert channel c (id ∷ ids) b.subs)

drop_from-IsValid :
    {b : Broker} (v : IsValid b) (id : ℕ) (sub : Subscription)
    → get_elem? b.made id ≡ some sub
    → IsValid (drop_from id sub b (Dict.lookup sub.channel b.subs))
drop_from-IsValid {b} v id sub e = elim (Option-cases (Dict.lookup sub.channel b.subs)) [
  | inl h ↦ rw (h, drop_from) v
  | inr (ids, h) ↦ elim (Bool-cases (member id ids)) [
    | inr out ↦ rw (h, drop_from) (rw out v)
    | inl present ↦
        let here : snapshot sub.channel b ≡ ids = unfold snapshot in ap subscribers h in
        rw (h, drop_from)
          (rw present (record {
            exact = λ c j. ground (
              arith,
              snapshot-put_set sub.channel c (without id ids) b
                  (set b.made id (record sub { closed = true })),
              member-without id j ids,
              get_elem?-set b.made id j (record sub { closed = true }),
              ==_iff id j,
              v.exact c j,
              v.exact sub.channel j,
              bytes_eq_iff sub.channel c,
            );
            once = λ c. ground (
              arith,
              snapshot-put_set sub.channel c (without id ids) b
                  (set b.made id (record sub { closed = true })),
              without-NoRepeats id ids,
              v.once c,
              v.once sub.channel,
            );
          }))
  ]
]

-- A subscription that leaves is closed, and in no set any more.
pub unsubscribe-IsValid : {b : Broker} (v : IsValid b) (id : ℕ) → IsValid (unsubscribe id b)
unfolding unsubscribe
unsubscribe-IsValid {b} v id = elim (Option-cases (get_elem? b.made id)) [
  | inl e ↦ rw (e, unsubscribe) v
  | inr (sub, e) ↦ rw (e, unsubscribe) (drop_from-IsValid v id sub e)
]

-- Leaving closes the subscription and touches no other.
pub made-unsubscribe :
    {b : Broker} (v : IsValid b) (id j : ℕ) (sub : Subscription)
    → get_elem? b.made id ≡ some sub
    → sub.closed ≡ false
    → get_elem? (unsubscribe id b).made j
      ≡ (if id == j then some (record sub { closed = true }) else get_elem? b.made j)
unfolding unsubscribe
made-unsubscribe {b} v id j sub e open_yet = elim (Option-cases (Dict.lookup sub.channel b.subs)) [
  | inl h ↦
      let empty : snapshot sub.channel b ≡ [] = unfold snapshot in ap subscribers h in
      ground (arith, v.exact sub.channel id, bytes_eq_refl sub.channel)
  | inr (ids, h) ↦
      let here : snapshot sub.channel b ≡ ids = unfold snapshot in ap subscribers h in
      let present : member id ids ≡ true =
        ground (arith, v.exact sub.channel id, bytes_eq_refl sub.channel) in
      rw (e, unsubscribe)
        (rw (h, drop_from)
          (rw present (
            ground (arith, get_elem?-set b.made id j (record sub { closed = true }), ==_iff id j))))
]
