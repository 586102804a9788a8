-- ===== src/Command/Safety/Holds.antt =====
-- The subscriptions of the connections, and how the map of one changes
-- (internal/command/command.go).
use voltkv.Base.{
  ℕ, ◌==◌, ==_iff, ◌≡◌, refl, Bool, true, false, ◌||◌, none, some, List, [], ◌∷◌, All, get_elem?,
  Bytes, bytes_eq_iff, bytes_eq_refl, arith, Bool-cases, inl, inr,
}
use voltkv.Base.Dict
use voltkv.Base.Dict.{
  Dict, Distinct, lookup-insert, lookup-erase, insert-Distinct, erase-Distinct, erase_absent,
}
use voltkv.Pubsub.{Subscription}
use voltkv.Pubsub.Valid.{listens}

-- The connection has the subscription.
abbrev pub holds : ℕ → Dict ℕ → Bool
holds id [] = false
holds id ((ch, i) ∷ subs) = i == id || holds id subs

abbrev pub held : ℕ → List (Dict ℕ) → Bool
held id [] = false
held id (subs ∷ others) = holds id subs || held id others

-- The connection finds its subscriptions under their channels, and they are open.
abbrev pub Finds : List Subscription → Dict ℕ → Type 0
Finds made subs =
    (ch : Bytes) (id : ℕ) → Dict.lookup ch subs ≡ some id → listens ch (get_elem? made id) ≡ true

pub holds-insert :
    (ch : Bytes) (i id : ℕ) (subs : Dict ℕ)
    → Dict.lookup ch subs ≡ none
    → holds id (Dict.insert ch i subs) ≡ (i == id || holds id subs)
unfolding Dict.lookup Dict.insert
holds-insert ch i id [] h = refl
holds-insert ch i id ((c, x) ∷ subs) h = ground (arith, holds-insert ch i id subs)

pub holds-lookup :
    (id : ℕ) (subs : Dict ℕ)
    → Distinct subs
    → holds id subs ≡ true
    → (ch : Bytes) × (Dict.lookup ch subs ≡ some id)
unfolding Dict.lookup
holds-lookup id [] d h = cc
holds-lookup id ((c, x) ∷ subs) (f, d) h = elim (Bool-cases (x == id)) [
  | inl e ↦ (c, ground (arith, bytes_eq_refl c))
  | inr e ↦
      let (ch, l) = holds-lookup id subs d (ground arith) in
      (ch, ground (arith, bytes_eq_iff c ch, l))
]

pub lookup-holds :
    (ch : Bytes) (id : ℕ) (subs : Dict ℕ) → Dict.lookup ch subs ≡ some id → holds id subs ≡ true
unfolding Dict.lookup
lookup-holds ch id [] h = cc
lookup-holds ch id ((c, x) ∷ subs) h = ground (arith, lookup-holds ch id subs, ==_iff x id)

pub holds-erase_ne :
    (ch : Bytes) (i id : ℕ) (subs : Dict ℕ)
    → Distinct subs
    → Dict.lookup ch subs ≡ some i
    → (i == id) ≡ false
    → holds id (Dict.erase ch subs) ≡ holds id subs
unfolding Dict.lookup Dict.erase
holds-erase_ne ch i id [] d h n = refl
holds-erase_ne ch i id ((c, x) ∷ subs) (f, d) h n =
    ground (arith, holds-erase_ne ch i id subs d, bytes_eq_iff c ch, erase_absent c subs)

pub frame_kept :
    (made made' : List Subscription) (others : List (Dict ℕ))
    → ((ch : Bytes) (id : ℕ)
        → held id others ≡ true
        → listens ch (get_elem? made id) ≡ true
        → listens ch (get_elem? made' id) ≡ true)
    → All (Finds made) others
    → All (Finds made') others
frame_kept made made' [] k h = tt
frame_kept made made' (subs ∷ others) k (h, hs) = (
  λ ch id l. k ch id (ground (arith, lookup-holds ch id subs l)) (h ch id l),
  frame_kept made made' others (λ ch id m. k ch id (ground arith)) hs,
)
