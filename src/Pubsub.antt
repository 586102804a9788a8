-- ===== src/Pubsub.antt =====
-- The publish/subscribe broker (internal/pubsub/pubsub.go). A `*Subscription` is an index into the
-- subscriptions ever made. `Publish` is two steps, since it gives up its lock between reading the
-- set of a channel and sending: other clients may run in between.
pub mod Valid
pub mod Delivery
pub mod Race
use voltkv.Base.{
  ℕ, zero, suc, ◌+◌, ◌==◌, Bool, true, false, ◌&&◌, not, Option, none, some, List, [], ◌∷◌, ◌++◌,
  length, get_elem?, set, ltb, if◌then◌else◌, Bytes,
}
use voltkv.Base.Dict
use voltkv.Base.Dict.{Dict}

pub record Message : Type 0 where
  pub channel : Bytes
  pub payload : Bytes

-- A subscription and its Go channel of capacity 64.
pub record Subscription : Type 0 where
  pub channel : Bytes
  pub buffer : List Message
  pub closed : Bool

abbrev pub capacity : ℕ
capacity = 64

-- The sets of live subscriptions by channel.
pub record Broker : Type 0 where
  pub subs : Dict (List ℕ)
  pub made : List Subscription

abbrev pub new : Broker
new = record { subs = []; made = [] }

abbrev pub subscribers : Option (List ℕ) → List ℕ
subscribers none = []
subscribers (some ids) = ids

-- `Subscribe`: the new subscription is the next index.
unfoldable pub subscribe : Bytes → Broker → Broker × ℕ
subscribe channel b =
    let id = length b.made in
    (
      record {
        subs = Dict.insert channel (id ∷ subscribers (Dict.lookup channel b.subs)) b.subs;
        made = b.made ++ (record { channel = channel; buffer = []; closed = false }) ∷ [];
      },
      id,
    )

abbrev pub member : ℕ → List ℕ → Bool
member id [] = false
member id (x ∷ ids) = if x == id then true else member id ids

abbrev pub without : ℕ → List ℕ → List ℕ
without id [] = []
without id (x ∷ ids) = let rest = without id ids in if x == id then rest else x ∷ rest

abbrev pub put_set : Bytes → List ℕ → Dict (List ℕ) → Dict (List ℕ)
put_set channel [] subs = Dict.erase channel subs
put_set channel (id ∷ ids) subs = Dict.insert channel (id ∷ ids) subs

-- `Unsubscribe` of the subscription `sub` with index `id`, if the set of its channel has it.
abbrev pub drop_from : ℕ → Subscription → Broker → Option (List ℕ) → Broker
drop_from id sub b none = b
drop_from id sub b (some ids) =
    if member id ids
    then record {
      subs = put_set sub.channel (without id ids) b.subs;
      made = set b.made id (record sub { closed = true });
    }
    else b

unfoldable pub unsubscribe : ℕ → Broker → Broker
unsubscribe id b = elim (get_elem? b.made id) [
  | none ↦ b
  | some sub ↦ drop_from id sub b (Dict.lookup sub.channel b.subs)
]

-- The first step of `Publish`: the snapshot of the set, under the read lock.
unfoldable pub snapshot : Bytes → Broker → List ℕ
snapshot channel b = subscribers (Dict.lookup channel b.subs)

-- A send on a closed channel panics.
pub data Sent (A : Type 0) : Type 0 where
  sent : A → Sent A
  panic : Sent A

-- `select { case sub.C <- msg: delivered++; default: }`.
abbrev pub send_to :
    ℕ → Message → List Subscription → ℕ → Option Subscription → Sent (List Subscription × ℕ)
send_to id msg made delivered none = sent (made, delivered)
send_to id msg made delivered (some sub) =
    if sub.closed
    then panic
    else if ltb (length sub.buffer) capacity
    then sent (set made id (record sub { buffer = sub.buffer ++ msg ∷ [] }), delivered + 1)
    else sent (made, delivered)

-- The second step of `Publish`: the loop over the snapshot.
unfoldable pub deliver : Message → List ℕ → List Subscription → ℕ → Sent (List Subscription × ℕ)
deliver msg [] made delivered = sent (made, delivered)
deliver msg (id ∷ ids) made delivered = elim (send_to id msg made delivered (get_elem? made id)) [
  | panic ↦ panic
  | sent (made', n) ↦ deliver msg ids made' n
]

abbrev pub with_made : Broker → Sent (List Subscription × ℕ) → Sent (Broker × ℕ)
with_made b panic = panic
with_made b (sent (made, n)) = sent (record b { made = made }, n)

-- The loop of `Publish` from a snapshot taken earlier.
unfoldable pub send_all : Bytes → Bytes → List ℕ → Broker → Sent (Broker × ℕ)
unfolding deliver
send_all channel payload ids b =
    with_made b (deliver (record { channel = channel; payload = payload }) ids b.made 0)

-- `Publish` with no other client in between.
unfoldable pub publish : Bytes → Bytes → Broker → Sent (Broker × ℕ)
unfolding snapshot send_all
publish channel payload b = send_all channel payload (snapshot channel b) b
