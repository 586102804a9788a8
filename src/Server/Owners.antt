-- ===== src/Server/Owners.antt =====
-- The subscriptions of all connections, seen from one of them (internal/server/server.go).
use voltkv.Base.{
  ℕ, zero, suc, ◌≡◌, refl, subst, false, ◌&&◌, ◌||◌, some, List, [], ◌∷◌, ◌++◌, All, get_elem?, set,
  arith,
}
use voltkv.Base.Dict
use voltkv.Base.Dict.{Dict, Distinct}
use voltkv.Store.Shards.{Store}
use voltkv.Store.Shards.Valid
use voltkv.Pubsub
use voltkv.Pubsub.{Broker, Subscription}
use voltkv.Pubsub.Valid.{listens, is_open}
use voltkv.Command.Safety.{holds, held, Finds, IsSafe}

-- The elements but one.
abbrev pub omit : ℕ → List (Dict ℕ) → List (Dict ℕ)
omit i [] = []
omit zero (x ∷ xs) = xs
omit (suc i) (x ∷ xs) = x ∷ omit i xs

abbrev pub Apart : List (Dict ℕ) → Type 0
Apart [] = Unit
Apart (x ∷ xs) = ((id : ℕ) → (holds id x && held id xs) ≡ false) × Apart xs

-- Each open subscription is in the hands of exactly one connection.
pub record Owned (b : Broker) (all : List (Dict ℕ)) : Type 0 where
  pub split : (id : ℕ) → is_open (get_elem? b.made id) ≡ held id all
  pub finds : All (Finds b.made) all
  pub each : All Distinct all
  pub apart : Apart all

module _ {x : Dict ℕ} where
  held_split :
      (i id : ℕ) (all : List (Dict ℕ))
      → get_elem? all i ≡ some x
      → held id all ≡ (held id (omit i all) || holds id x)
  held_split i id [] h = cc
  held_split zero id (y ∷ all) h = ground arith
  held_split (suc i) id (y ∷ all) h = ground (arith, held_split i id all h)

  held-set :
      (i id : ℕ) (y : Dict ℕ) (all : List (Dict ℕ))
      → get_elem? all i ≡ some x
      → held id (set all i y) ≡ (held id (omit i all) || holds id y)
  held-set i id y [] h = cc
  held-set zero id y (z ∷ all) h = ground arith
  held-set (suc i) id y (z ∷ all) h = ground (arith, held-set i id y all h)

  All-omit {ℓ} :
      (Q : Dict ℕ → Type ℓ) (i : ℕ) (all : List (Dict ℕ))
      → get_elem? all i ≡ some x
      → All Q all
      → Q x × All Q (omit i all)
  All-omit Q i [] e h = absurd (cc)
  All-omit Q zero (y ∷ all) e (h, hs) = let same : y ≡ x = cc in (subst Q same h, hs)
  All-omit Q (suc i) (y ∷ all) e (h, hs) = let (q, qs) = All-omit Q i all e hs in (q, (h, qs))

  All-set {ℓ} :
      (Q : Dict ℕ → Type ℓ) (i : ℕ) (y : Dict ℕ) (all : List (Dict ℕ))
      → get_elem? all i ≡ some x
      → Q y
      → All Q (omit i all)
      → All Q (set all i y)
  All-set Q i y [] e q h = tt
  All-set Q zero y (z ∷ all) e q h = (q, h)
  All-set Q (suc i) y (z ∷ all) e q (h, hs) = (h, All-set Q i y all e q hs)

  held_elsewhere :
      (i id : ℕ) (all : List (Dict ℕ))
      → get_elem? all i ≡ some x
      → Apart all
      → (held id (omit i all) && holds id x) ≡ false
  held_elsewhere i id [] e h = cc
  held_elsewhere zero id (y ∷ all) e (h, hs) = ground (arith, h id)
  held_elsewhere (suc i) id (y ∷ all) e (h, hs) =
      ground (arith, h id, held_elsewhere i id all e hs, held_split i id all e)

  Apart-set :
      (i : ℕ) (y : Dict ℕ) (all : List (Dict ℕ))
      → get_elem? all i ≡ some x
      → Apart all
      → ((id : ℕ) → (held id (omit i all) && holds id y) ≡ false)
      → Apart (set all i y)
  Apart-set i y [] e h k = tt
  Apart-set zero y (z ∷ all) e (h, hs) k = (λ id. ground (arith, k id), hs)
  Apart-set (suc i) y (z ∷ all) e (h, hs) k = (
    λ id. ground (arith, h id, k id, held-set i id y all e, held_split i id all e),
    Apart-set i y all e hs (λ id. ground (arith, k id)),
  )

  -- What one connection sees of it.
  pub Owned-IsSafe :
      {s : Store} {b : Broker} (i : ℕ) (all : List (Dict ℕ))
      → Valid.IsValid s
      → Pubsub.Valid.IsValid b
      → Owned b all
      → get_elem? all i ≡ some x
      → IsSafe (omit i all) s b x
  Owned-IsSafe {b} i all v w o e =
      let (finds, frame) = All-omit (Finds b.made) i all e o.finds in
      let (distinct, rest) = All-omit Distinct i all e o.each in
      record {
        store = v;
        broker = w;
        distinct = distinct;
        split = λ id. ground (arith, o.split id, held_split i id all e);
        apart = λ id. held_elsewhere i id all e o.apart;
        channels = finds;
        frame = frame;
      }

  -- What one connection made of it.
  pub IsSafe-Owned :
      {s : Store} {b b' : Broker} {y : Dict ℕ} (i : ℕ) (all : List (Dict ℕ))
      → Owned b all
      → get_elem? all i ≡ some x
      → IsSafe (omit i all) s b' y
      → Owned b' (set all i y)
  IsSafe-Owned {b'} {y} i all o e h = record {
    split = λ id. ground (arith, h.split id, held-set i id y all e);
    finds = All-set (Finds b'.made) i y all e h.channels h.frame;
    each = All-set Distinct i y all e h.distinct (All-omit Distinct i all e o.each).1;
    apart = Apart-set i y all e o.apart h.apart;
  }

held-concat : (id : ℕ) (all : List (Dict ℕ)) → held id (all ++ [] ∷ []) ≡ held id all
held-concat id [] = refl
held-concat id (x ∷ all) = ground (arith, held-concat id all)

All-concat {ℓ} :
    (Q : Dict ℕ → Type ℓ) (y : Dict ℕ) (all : List (Dict ℕ))
    → All Q all
    → Q y
    → All Q (all ++ y ∷ [])
All-concat Q y [] h q = (q, tt)
All-concat Q y (x ∷ all) (h, hs) q = (h, All-concat Q y all hs q)

Apart-concat : (all : List (Dict ℕ)) → Apart all → Apart (all ++ [] ∷ [])
Apart-concat [] h = (λ id. refl, tt)
Apart-concat (x ∷ all) (h, hs) =
    (λ id. ground (arith, h id, held-concat id all), Apart-concat all hs)

-- A connection more, which has no subscription yet.
pub concat-Owned : {b : Broker} (all : List (Dict ℕ)) → Owned b all → Owned b (all ++ [] ∷ [])
unfolding Dict.lookup
concat-Owned {b} all o = record {
  split = λ id. ground (arith, o.split id, held-concat id all);
  finds = All-concat (Finds b.made) [] all o.finds (λ ch id. cc);
  each = All-concat Distinct [] all o.each tt;
  apart = Apart-concat all o.apart;
}
