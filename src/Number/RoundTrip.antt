-- ===== src/Number/RoundTrip.antt =====
-- What `FormatInt` prints, `ParseInt` reads back (internal/store/helpers.go).
use voltkv.Base.{
  ℕ, zero, suc, ◌+◌, ◌-◌, ◌*◌, ◌/◌, ◌%◌, ◌<◌, ◌≡◌, refl, ◌∙◌, ap, true, Option, none, some, [], ◌∷◌,
  ◌++◌, ltb, if◌then◌else◌, Bool-cases, inl, inr, Bytes, arith, All, All-append,
}
use voltkv.Base.Int.{ℤ, pos, negsuc}
use voltkv.Number.{
  digits, format_nat, format_int, is_digit, scan, parse_uint, parse_int64, positive, negative,
  IsInt64,
}

abbrev next_digit : ℕ → Option ℕ → Option ℕ
next_digit c none = none
next_digit c (some n) = if is_digit c then some (n * 10 + (c - b'0')) else none

scan-concat : (n : ℕ) (s : Bytes) (c : ℕ) → scan n (s ++ c ∷ []) ≡ next_digit c (scan n s)
unfolding scan
scan-concat n [] c = refl
scan-concat n (d ∷ s) c = ground (arith, scan-concat (n * 10 + (d - b'0')) s c)

scan-digits : (f n : ℕ) → n < f → scan 0 (digits f n) ≡ some n
unfolding digits
scan-digits zero n h = elim h [ ]
scan-digits (suc f) n h = elim (Bool-cases (ltb n 10)) [
  | inl small ↦ rw small (unfold scan in ground arith)
  | inr large ↦
      rw large
        (scan-concat 0 (digits f (n / 10)) (b'0' + n % 10) ∙ ground (arith, scan-digits f (n / 10)))
]

digits-All : (f n : ℕ) → All (λ c. is_digit c ≡ true) (digits f n)
unfolding digits
digits-All zero n = tt
digits-All (suc f) n = elim (Bool-cases (ltb n 10)) [
  | inl small ↦ rw small (ground arith)
  | inr large ↦ rw large (All-append _ (digits f (n / 10)) _ (digits-All f (n / 10)) (ground arith))
]

-- Every byte of a printed number is a digit.
pub format_nat-All : (n : ℕ) → All (λ c. is_digit c ≡ true) (format_nat n)
unfolding format_nat
format_nat-All n = digits-All (suc n) n

-- A printed number begins with a digit.
abbrev pub StartsWithDigit : Bytes → Type 0
StartsWithDigit [] = ⊥
StartsWithDigit (c ∷ s) = is_digit c ≡ true

StartsWithDigit-append : (s t : Bytes) → StartsWithDigit s → StartsWithDigit (s ++ t)
StartsWithDigit-append [] t h = absurd h
StartsWithDigit-append (c ∷ s) t h = h

digits-StartsWithDigit : (f n : ℕ) → n < f → StartsWithDigit (digits f n)
unfolding digits
digits-StartsWithDigit zero n h = elim h [ ]
digits-StartsWithDigit (suc f) n h = elim (Bool-cases (ltb n 10)) [
  | inl small ↦ rw small (ground arith)
  | inr large ↦ rw large (
      StartsWithDigit-append (digits f (n / 10)) _
        (digits-StartsWithDigit f (n / 10) (ground arith)))
]

parse_uint-scan : (s : Bytes) → StartsWithDigit s → parse_uint s ≡ scan 0 s
unfolding parse_uint
parse_uint-scan [] h = absurd h
parse_uint-scan (c ∷ s) h = refl

pub parse_uint-format_nat : (n : ℕ) → parse_uint (format_nat n) ≡ some n
unfolding format_nat
parse_uint-format_nat n =
    parse_uint-scan _ (digits-StartsWithDigit (suc n) n (omega arith))
    ∙ scan-digits (suc n) n (omega arith)

parse_int64-digit : (s : Bytes) → StartsWithDigit s → parse_int64 s ≡ positive (parse_uint s)
unfolding parse_int64
parse_int64-digit [] h = absurd h
parse_int64-digit (c ∷ s) h = ground arith

-- Every int64 is read back from its decimal print.
pub parse_int64-format_int : (z : ℤ) → IsInt64 z → parse_int64 (format_int z) ≡ some z
unfolding format_int
parse_int64-format_int (pos n) h =
    parse_int64-digit (format_nat n)
      (unfold format_nat in digits-StartsWithDigit (suc n) n (omega arith))
    ∙ ap positive (parse_uint-format_nat n)
    ∙ ground arith
parse_int64-format_int (negsuc n) h =
    unfold parse_int64 in ap negative (parse_uint-format_nat (suc n)) ∙ ground arith
