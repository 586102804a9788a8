-- ===== src/Pubsub/Delivery.antt =====
-- `Publish` with no other client between its steps (internal/pubsub/pubsub.go).
use voltkv.Base.{
  ℕ, ◌+◌, ==_iff, ◌≡◌, refl, ap, sym, ◌∙◌, Bool, true, false, ◌&&◌, ltb, Option, none, some, List,
  [], ◌∷◌, ◌++◌, length, get_elem?, set, get_elem?-set, if◌then◌else◌, All, Bytes, arith,
  Bool-cases, Option-cases, inl, inr,
}
use voltkv.Pubsub.{
  Message, Subscription, Broker, capacity, member, snapshot, sent, deliver, with_made, publish,
}
use voltkv.Pubsub.Valid.{IsValid, NoRepeats, listens, is_open}

abbrev has_room : Option Subscription → Bool
has_room none = false
has_room (some sub) = ltb (length sub.buffer) capacity

-- How many of the subscriptions can take a message.
abbrev pub room_count : List ℕ → List Subscription → ℕ
room_count [] made = 0
room_count (id ∷ ids) made = (if has_room (get_elem? made id) then 1 else 0) + room_count ids made

-- A subscription behind a publish to it, where `reached` says that it is one: a message more, if
-- there is room.
abbrev pub received : Message → Bool → Option Subscription → Option Subscription
received msg reached none = none
received msg reached (some sub) =
    if reached && ltb (length sub.buffer) capacity
    then some (record sub { buffer = sub.buffer ++ msg ∷ [] })
    else some sub

abbrev AllOpen : List Subscription → List ℕ → Type 0
AllOpen made = All (λ id. is_open (get_elem? made id) ≡ true)

room_count-set :
    (id : ℕ) (ids : List ℕ) (made : List Subscription) (sub : Subscription)
    → member id ids ≡ false
    → room_count ids (set made id sub) ≡ room_count ids made
room_count-set id [] made sub h = refl
room_count-set id (x ∷ ids) made sub h =
    ground (arith, get_elem?-set made id x sub, ==_iff id x, room_count-set id ids made sub)

set-AllOpen :
    (id : ℕ) (ids : List ℕ) (made : List Subscription) (sub : Subscription)
    → sub.closed ≡ false
    → AllOpen made ids
    → AllOpen (set made id sub) ids
set-AllOpen id [] made sub c h = tt
set-AllOpen id (x ∷ ids) made sub c (h, hs) =
    (ground (arith, get_elem?-set made id x sub), set-AllOpen id ids made sub c hs)

-- The loop over open subscriptions that are listed once ends without a panic.
module _ (msg : Message) where
  Delivers : List ℕ → List Subscription → ℕ → Type 0
  Delivers ids made n =
      (made' : List Subscription) × (deliver msg ids made n ≡ sent (made', n + room_count ids made))
      × ((j : ℕ) → get_elem? made' j ≡ received msg (member j ids) (get_elem? made j))

  received_none : (o : Option Subscription) → o ≡ received msg false o
  received_none none = refl
  received_none (some sub) = refl

  round_Delivers :
      (id : ℕ) (ids : List ℕ) (made : List Subscription) (n : ℕ) (sub : Subscription)
      → get_elem? made id ≡ some sub
      → sub.closed ≡ false
      → ((made' : List Subscription) (k : ℕ) → AllOpen made' ids → Delivers ids made' k)
      → member id ids ≡ false
      → AllOpen made ids
      → Delivers (id ∷ ids) made n
  unfolding deliver Delivers
  round_Delivers id ids made n sub e c rest u hs =
      elim (Bool-cases (ltb (length sub.buffer) capacity)) [
        | inl room ↦
            let sub' : Subscription = record sub { buffer = sub.buffer ++ msg ∷ [] } in
            let (made', d, at) =
              rest (set made id sub') (n + 1) (set-AllOpen id ids made sub' c hs) in
            (
              made',
              ground (arith, d, room_count-set id ids made sub'),
              λ j. at j ∙ ground (arith, get_elem?-set made id j sub', ==_iff id j),
            )
        | inr full ↦
            let (made', d, at) = rest made n hs in
            (made', ground (arith, d), λ j. at j ∙ ground (arith, ==_iff id j))
      ]

  deliver_lem :
      (ids : List ℕ) (made : List Subscription) (n : ℕ)
      → NoRepeats ids
      → AllOpen made ids
      → Delivers ids made n
  unfolding deliver Delivers
  deliver_lem [] made n u h = (made, ground arith, λ j. received_none (get_elem? made j))
  deliver_lem (id ∷ ids) made n (u, us) (h, hs) = elim (Option-cases (get_elem? made id)) [
    | inl e ↦ ground arith
    | inr (sub, e) ↦
        round_Delivers id ids made n sub e (ground arith) (λ made' k. deliver_lem ids made' k us) u
          hs
  ]

all_open :
    {b : Broker} (v : IsValid b) (c : Bytes) (ids : List ℕ)
    → ((id : ℕ) → member id ids ≡ true → member id (snapshot c b) ≡ true)
    → AllOpen b.made ids
all_open v c [] h = tt
all_open {b} v c (id ∷ ids) h = (
  ground (arith, h id, v.exact c id, ==_iff id id),
  all_open v c ids (λ j m. ground (arith, h j)),
)

-- A publish from a valid broker, with no other client between its steps, does not panic. Each open
-- subscription to the channel gets the message behind what it had, unless its buffer is full; no
-- other subscription changes, and the count is that of those that got it.
pub publish_exact :
    {b : Broker} (v : IsValid b) (channel payload : Bytes)
    → (b' : Broker) × (publish channel payload b
        ≡ sent (b', room_count (snapshot channel b) b.made))
      × (b'.subs ≡ b.subs)
      × ((id : ℕ)
          → get_elem? b'.made id
            ≡ received
                (record { channel = channel; payload = payload })
                (listens channel (get_elem? b.made id))
                (get_elem? b.made id))
unfolding publish Delivers
publish_exact {b} v channel payload =
    let msg : Message = record { channel = channel; payload = payload } in
    let (made', d, at) =
      deliver_lem msg (snapshot channel b) b.made 0 (v.once channel)
        (all_open v channel (snapshot channel b) (λ id h. h)) in
    (
      record b { made = made' },
      ap (with_made b) (d ∙ ap (λ (k : ℕ). sent (made', k)) (omega arith)),
      refl,
      λ id.
          at id
          ∙ ap (λ (reached : Bool). received msg reached (get_elem? b.made id))
              (v.exact channel id),
    )

pub listens-received :
    (msg : Message) (reached : Bool) (c : Bytes) (o : Option Subscription)
    → listens c (received msg reached o) ≡ listens c o
listens-received msg reached c none = refl
listens-received msg reached c (some sub) = ground arith

-- A publish keeps the broker valid.
pub publish-IsValid :
    {b b' : Broker} {n : ℕ} (v : IsValid b) (channel payload : Bytes)
    → publish channel payload b ≡ sent (b', n)
    → IsValid b'
unfolding snapshot
publish-IsValid {b} {b'} {n} v channel payload e =
    let (b1, e1, subs, made) = publish_exact v channel payload in
    let same : b1 ≡ b' = cc in
    rw (← same) (record {
      exact = λ c id.
          rw (subs, made id) (v.exact c id ∙ sym (listens-received _ _ c (get_elem? b.made id)));
      once = λ c. rw subs (v.once c);
    })
