-- ===== src/Store/Shards/New.antt =====
-- `nextPow2` and `New` (internal/store/store.go).
use native.Mathlib.Nat.{pow-suc, pow-le-pow_right, mod-eq_of_lt, one-le-pow}
use voltkv.Base.{
  ℕ, zero, suc, ◌+◌, ◌-◌, ◌*◌, ◌^◌, ◌≡◌, ◌<◌, ◌≤◌, refl, ap, ◌∙◌, ◌⊎◌, none, [], ltb, leb, leb→le,
  length, get_or, replicate, Bytes, arith, Bool-cases, inl, inr,
}
use voltkv.Base.Int.{ℤ, pos, negsuc, ◌≤ℤ◌}
use voltkv.Base.Dict.{lookup}
use voltkv.Store.Shards.{entry_at, new, next_pow2, doubled}
use voltkv.Store.Shards.Valid.{IsValid, Homes}

room : (n j p : ℕ) → n ≤ 2 ^ 32 → p ≡ 2 ^ j → p < n → suc j ≤ 32
room n j p big e lt = elim (Bool-cases (leb 32 j)) [
  | inl far ↦ absurd (omega (arith, pow-le-pow_right {n = 2} (omega arith) (leb→le 32 j far)))
  | inr near ↦ ground arith
]

-- From a power of two below `2 * n` the loop reaches the least power of two that is not below `n`.
doubled_lem :
    (f n j p : ℕ)
    → n ≤ 2 ^ 32
    → p ≡ 2 ^ j
    → p < 2 * n ⊎ (p ≡ 1)
    → j ≤ 32
    → n ≤ p + f
    → (k : ℕ) × (doubled f n p ≡ 2 ^ k)
      × (k ≤ 32)
      × (n ≤ doubled f n p)
      × (doubled f n p < 2 * n ⊎ (doubled f n p ≡ 1))
unfolding doubled
doubled_lem zero n j p big e small w h = (j, e, w, omega arith, small)
doubled_lem (suc f) n j p big e small w h = elim (Bool-cases (ltb p n)) [
  | inr done ↦ rw done (j, e, w, ground arith, small)
  | inl more ↦ rw more (
      doubled_lem f n (suc j) (p * 2) big (omega (arith, pow-suc 2 j)) (inl (ground arith))
        (room n j p big e (ground arith)) (ground (arith, one-le-pow j 2 (omega arith))))
]

next_pow2-pow :
    (z : ℤ) → z ≤ℤ pos (2 ^ 32) → (k : ℕ) × (next_pow2 z ≡ 2 ^ k) × (next_pow2 z ≤ 2 ^ 32)
unfolding next_pow2
next_pow2-pow (negsuc n) h = (0, refl, omega arith)
next_pow2-pow (pos zero) h = (0, refl, omega arith)
next_pow2-pow (pos (suc n)) h =
    let (k, e, w, _, _) =
      doubled_lem (suc n) (suc n) 0 1 (omega arith) refl (inr refl) (omega arith) (omega arith) in
    (k, e, rw e (pow-le-pow_right {n = 2} (omega arith) w))

-- For a count from 1 to 2^32, `nextPow2` returns the least power of two that is not below it.
pub next_pow2_least :
    (n : ℕ)
    → 0 < n
    → n ≤ 2 ^ 32
    → (k : ℕ) × (next_pow2 (pos n) ≡ 2 ^ k) × (n ≤ next_pow2 (pos n)) × (next_pow2 (pos n) < 2 * n)
unfolding next_pow2
next_pow2_least zero p h = elim p [ ]
next_pow2_least (suc n) p h =
    let (k, e, w, above, below) =
      doubled_lem (suc n) (suc n) 0 1 h refl (inr refl) (omega arith) (omega arith) in
    (k, e, above, ground arith)

length-replicate {ℓ} : {A : Type ℓ} (n : ℕ) (a : A) → length (replicate n a) ≡ n
length-replicate zero a = refl
length-replicate (suc n) a = ap suc (length-replicate n a)

Homes-empty : (mask i n : ℕ) → Homes mask i (replicate n [])
Homes-empty mask i zero = tt
Homes-empty mask i (suc n) = (tt, tt, Homes-empty mask (suc i) n)

-- A new store of at most 2^32 shards is valid.
pub new-IsValid : (z : ℤ) → z ≤ℤ pos (2 ^ 32) → IsValid (new z)
unfolding new
new-IsValid z h =
    let (k, e, w) = next_pow2-pow z h in
    record {
      width = k;
      power = length-replicate (next_pow2 z) [] ∙ e;
      masked =
          let small : next_pow2 z - 1 < 2 ^ 32 = omega arith in
          omega (arith, mod-eq_of_lt small, one-le-pow k 2 (omega arith));
      homes = Homes-empty _ 0 (next_pow2 z);
    }

get_or-replicate {ℓ} : {A : Type ℓ} (n i : ℕ) (a : A) → get_or (replicate n a) i a ≡ a
get_or-replicate zero i a = refl
get_or-replicate (suc n) zero a = refl
get_or-replicate (suc n) (suc i) a = get_or-replicate n i a

-- A new store holds no key.
pub entry_at-new : (z : ℤ) (k : Bytes) → entry_at (new z) k ≡ none
unfolding entry_at new lookup
entry_at-new z k = ap (lookup k) (get_or-replicate (next_pow2 z) _ [])
