-- ===== src/Number.antt =====
-- Decimal integers as strconv reads and prints them (ParseInt, Atoi, FormatInt, Itoa), and int64
-- arithmetic (internal/store/helpers.go).
pub mod RoundTrip
use voltkv.Base.{
  ℕ, zero, suc, ◌+◌, ◌-◌, ◌*◌, ◌/◌, ◌%◌, ◌^◌, ◌≤◌, Bool, ◌&&◌, Option, none, some, List, [], ◌∷◌,
  ◌++◌, ltb, leb, ◌==◌, if◌then◌else◌, Bytes,
}
use voltkv.Base.Int.{ℤ, pos, negsuc, pos_part, neg_part}

-- 2^63.
abbrev pub cutoff : ℕ
cutoff = 9223372036854775808

-- `maxInt64` and `minInt64`.
abbrev pub max_int64 : ℤ
max_int64 = pos 9223372036854775807

abbrev pub min_int64 : ℤ
min_int64 = negsuc 9223372036854775807

-- The int64 with the low 64 bits of an integer.
abbrev pub low_bits : ℤ → ℕ
low_bits (pos n) = n % 2 ^ 64
low_bits (negsuc n) = (2 ^ 64 - 1) - n % 2 ^ 64

unfoldable pub wrap64 : ℤ → ℤ
wrap64 z = let b = low_bits z in if ltb b (2 ^ 63) then pos b else negsuc (2 ^ 64 - 1 - b)

-- The digits of a number. Each round divides by ten, so `suc n` rounds are enough.
unfoldable pub digits : ℕ → ℕ → Bytes
digits zero n = []
digits (suc f) n =
    let front = digits f (n / 10) in
    if ltb n 10 then (b'0' + n) ∷ [] else front ++ (b'0' + n % 10) ∷ []

unfoldable pub format_nat : ℕ → Bytes
unfolding digits
format_nat n = digits (suc n) n

unfoldable pub format_int : ℤ → Bytes
unfolding format_nat
format_int (pos n) = format_nat n
format_int (negsuc n) = b'-' ∷ format_nat (suc n)

abbrev pub is_digit : ℕ → Bool
is_digit c = leb b'0' c && leb c b'9'

-- The number that a run of digits spells behind `n`.
unfoldable pub scan : ℕ → Bytes → Option ℕ
scan n [] = some n
scan n (c ∷ s) = if is_digit c then scan (n * 10 + (c - b'0')) s else none

unfoldable pub parse_uint : Bytes → Option ℕ
unfolding scan
parse_uint [] = none
parse_uint (c ∷ s) = scan 0 (c ∷ s)

-- The range checks behind the digits.
abbrev pub positive : Option ℕ → Option ℤ
positive none = none
positive (some n) = if ltb n cutoff then some (pos n) else none

abbrev pub negative : Option ℕ → Option ℤ
negative none = none
negative (some zero) = some (pos 0)
negative (some (suc n)) = if ltb n cutoff then some (negsuc n) else none

-- `strconv.ParseInt(s, 10, 64)`; `none` for a syntax or a range error.
unfoldable pub parse_int64 : Bytes → Option ℤ
unfolding parse_uint
parse_int64 [] = none
parse_int64 (c ∷ s) =
    if c == b'+'
    then positive (parse_uint s)
    else if c == b'-'
    then negative (parse_uint s)
    else positive (parse_uint (c ∷ s))

-- The values of an int64.
abbrev pub IsInt64 : ℤ → Type 0
IsInt64 (pos n) = suc n ≤ cutoff
IsInt64 (negsuc n) = suc n ≤ cutoff
