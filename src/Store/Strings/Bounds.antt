-- ===== src/Store/Strings/Bounds.antt =====
-- The overflow guard of `IncrBy` (internal/store/store.go).
use voltkv.Base.{◌≡◌, ◌↔◌, false, arith}
use voltkv.Base.Int.{ℤ, pos, negsuc, ◌+ℤ◌}
use voltkv.Number.{IsInt64}
use voltkv.Store.Strings.{would_overflow}

-- On two int64 values the guard passes exactly if their sum is an int64, so no sum wraps around and
-- no sum that fits is refused.
pub would_overflow_iff :
    (cur delta : ℤ)
    → IsInt64 cur
    → IsInt64 delta
    → (would_overflow cur delta ≡ false) ↔ IsInt64 (cur +ℤ delta)
unfolding would_overflow ◌+ℤ◌
would_overflow_iff (pos a) (pos b) h k = (λ x. ground arith, λ x. ground arith)
would_overflow_iff (pos a) (negsuc b) h k = (λ x. ground arith, λ x. ground arith)
would_overflow_iff (negsuc a) (pos b) h k = (λ x. ground arith, λ x. ground arith)
would_overflow_iff (negsuc a) (negsuc b) h k = (λ x. ground arith, λ x. ground arith)
