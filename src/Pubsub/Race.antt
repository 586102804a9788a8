-- ===== src/Pubsub/Race.antt =====
-- A publisher that took its snapshot before a subscriber left (internal/pubsub/pubsub.go).
use voltkv.Base.{
  ℕ, zero, suc, ◌+◌, ◌==◌, ==_iff, ◌≡◌, ◌≢◌, refl, ap, ◌∙◌, true, false≢true, some, List, [], ◌∷◌,
  ◌++◌, get_elem?, set, Bytes, arith, Bool-cases, Option-cases, inl, inr,
}
use voltkv.Base.Dict
use voltkv.Base.Dict.{Dict}
use voltkv.Pubsub.{
  Message, Subscription, Broker, member, snapshot, subscribers, unsubscribe, drop_from, Sent, sent,
  panic, send_to, deliver, with_made, send_all,
}

pub get_elem?-set_self {ℓ} :
    {A : Type ℓ} (xs : List A) (i : ℕ) (v : A) {x : A}
    → get_elem? xs i ≡ some x
    → get_elem? (set xs i v) i ≡ some v
get_elem?-set_self [] i v h = cc
get_elem?-set_self (x ∷ xs) zero v h = refl
get_elem?-set_self (x ∷ xs) (suc i) v h = get_elem?-set_self xs i v h

pub get_elem?-set_ne {ℓ} :
    {A : Type ℓ} (xs : List A) (i j : ℕ) (v : A) → i ≢ j → get_elem? (set xs i v) j ≡ get_elem? xs j
get_elem?-set_ne [] i j v h = refl
get_elem?-set_ne (x ∷ xs) zero zero v h = absurd (h refl)
get_elem?-set_ne (x ∷ xs) zero (suc j) v h = refl
get_elem?-set_ne (x ∷ xs) (suc i) zero v h = refl
get_elem?-set_ne (x ∷ xs) (suc i) (suc j) v h = get_elem?-set_ne xs i j v (λ e. h (ap suc e))

-- A snapshot with a closed subscription in it makes the loop panic, wherever it stands.
deliver-closed :
    (msg : Message) (id : ℕ) (sub : Subscription) (ids : List ℕ) (made : List Subscription) (n : ℕ)
    → get_elem? made id ≡ some sub
    → sub.closed ≡ true
    → member id ids ≡ true
    → deliver msg ids made n ≡ panic
unfolding deliver
deliver-closed msg id sub [] made n h c m = cc
deliver-closed msg id sub (x ∷ ids) made n h c m = elim (Bool-cases (x == id)) [
  | inl here ↦ rw ((==_iff x id).0 here) (rw (h, deliver) (rw c))
  | inr away ↦ elim (Option-cases (get_elem? made x)) [
    | inl none_there ↦
        rw (none_there, deliver) (deliver-closed msg id sub ids made n h c (rw away at m))
    | inr (y, there) ↦
        rw (there, deliver) (other y (deliver-closed msg id sub ids) (rw away at m) (ground arith))
  ]
]
  where
    other :
        (y : Subscription)
        → ((made' : List Subscription) (k : ℕ)
            → get_elem? made' id ≡ some sub
            → sub.closed ≡ true
            → member id ids ≡ true
            → deliver msg ids made' k ≡ panic)
        → member id ids ≡ true
        → x ≢ id
        → elim (send_to x msg made n (some y)) as (λ _. Sent (List Subscription × ℕ)) [
          | panic ↦ panic
          | sent (made', k) ↦ deliver msg ids made' k
        ]
          ≡ panic
    other y rec m d =
        let v = record y { buffer = y.buffer ++ msg ∷ [] } in
        ground (
          arith,
          rec made n h c m,
          rec (set made x v) (n + 1) (get_elem?-set_ne made x id v d ∙ h) c m,
        )

unsubscribe_closes :
    (b : Broker) (id : ℕ) (sub : Subscription)
    → get_elem? b.made id ≡ some sub
    → member id (snapshot sub.channel b) ≡ true
    → get_elem? (unsubscribe id b).made id ≡ some (record sub { closed = true })
unfolding unsubscribe snapshot
unsubscribe_closes b id sub h m = elim (Option-cases (Dict.lookup sub.channel b.subs)) [
  | inl e ↦ absurd (false≢true (rw (e, subscribers) at m))
  | inr (ids, e) ↦
      let m' : member id ids ≡ true = rw (e, subscribers) at m in
      rw (h, unsubscribe) (rw (e, drop_from) (rw m' (get_elem?-set_self b.made id _ h)))
]

-- If a subscription leaves between the two steps of a PUBLISH to its channel, the publisher sends on
-- a closed Go channel, and panics, whatever else the broker holds.
pub send_all-unsubscribe :
    (b : Broker) (payload : Bytes) (id : ℕ) (sub : Subscription)
    → get_elem? b.made id ≡ some sub
    → member id (snapshot sub.channel b) ≡ true
    → send_all sub.channel payload (snapshot sub.channel b) (unsubscribe id b) ≡ panic
unfolding send_all
send_all-unsubscribe b payload id sub h m = ap (with_made (unsubscribe id b)) (
    deliver-closed _ id (record sub { closed = true }) (snapshot sub.channel b)
      (unsubscribe id b).made 0 (unsubscribe_closes b id sub h m) refl m)
