-- ===== src/Base/Bits.antt =====
-- `x & mask` for a mask of `k` ones: the remainder by 2^k.
use Prim.Native.Nat.{bit_and, min, digits, bit_and-bitwise}
use mathlib.Core.Path.{◌≡◌, refl, sym, ap, ◌∙◌}
use native.Mathlib.Omega.{arith}
use native.Mathlib.Nat.{
  pow-succ', one-le-pow, div-add-mod', mul-add-mod_self_right, mod-eq_of_lt, mod-lt, mul_assoc,
  zero-mod,
}
use voltkv.Base.{ℕ, zero, suc, ◌+◌, ◌-◌, ◌*◌, ◌/◌, ◌%◌, ◌^◌, ◌≤◌, ◌<◌}

-- The bits of `x` that lie under the mask, lowest first, in `rounds` rounds.
abbrev under_mask : ℕ → ℕ → ℕ → ℕ
under_mask rounds x mask = digits (λ y. zero) min rounds x mask

-- A remainder by 2m is the last bit and the remainder of the others by m.
mod_double : (x m : ℕ) → 1 ≤ m → x % (2 * m) ≡ (x / 2 % m) * 2 + x % 2
mod_double x m positive =
    let parts : x ≡ x / 2 / m * (2 * m) + (x / 2 % m * 2 + x % 2) =
      grind (arith, div-add-mod' (x / 2) m, mul_assoc) in
    let small : x / 2 % m * 2 + x % 2 < 2 * m = omega (arith, mod-lt (x / 2) positive) in
    let same_remainder : x % (2 * m) ≡ (x / 2 / m * (2 * m) + (x / 2 % m * 2 + x % 2)) % (2 * m) =
      ap (λ (y : ℕ). y % (2 * m)) parts in
    same_remainder
    ∙ (mul-add-mod_self_right (x / 2 / m) (2 * m) (x / 2 % m * 2 + x % 2) ∙ mod-eq_of_lt small)

under_mask-zero : (rounds mask : ℕ) → under_mask rounds 0 mask ≡ 0
under_mask-zero zero mask = refl
under_mask-zero (suc rounds) mask = refl

under_mask_lem : (k rounds x : ℕ) → x ≤ rounds → under_mask rounds x (2 ^ k - 1) ≡ x % 2 ^ k
under_mask_lem k rounds zero h = under_mask-zero rounds (2 ^ k - 1) ∙ sym (zero-mod (2 ^ k))
under_mask_lem k zero (suc x) h = absurd (omega arith)
under_mask_lem zero (suc rounds) (suc x) h =
    omega (arith, under_mask_lem zero rounds (suc x / 2) (omega arith))
under_mask_lem (suc k) (suc rounds) (suc x) h =
    let halved : (2 ^ suc k - 1) / 2 ≡ 2 ^ k - 1 =
      omega (arith, pow-succ' 2 k, one-le-pow k 2 (omega arith)) in
    let odd : (2 ^ suc k - 1) % 2 ≡ 1 =
      omega (arith, pow-succ' 2 k, one-le-pow k 2 (omega arith)) in
    let low : min (suc x % 2) 1 ≡ suc x % 2 = omega arith in
    rw (halved, odd, low, under_mask_lem k rounds (suc x / 2) (omega arith), pow-succ' 2 k)
      (sym (mod_double (suc x) (2 ^ k) (one-le-pow k 2 (omega arith))))

pub bit_and_mask : (k x : ℕ) → bit_and x (2 ^ k - 1) ≡ x % 2 ^ k
bit_and_mask k x = bit_and-bitwise x (2 ^ k - 1) ∙ under_mask_lem k x x (omega arith)
