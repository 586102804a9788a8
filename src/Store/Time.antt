-- ===== src/Store/Time.antt =====
-- `time.Time` and `time.Duration`, as nanoseconds: a time counts from the zero time, which stands
-- for "no expiry" (internal/store/store.go, internal/command/command.go).
use voltkv.Base.{◌/◌, Bool, ◌==◌, if◌then◌else◌}
use voltkv.Base.Int.{ℤ, pos, pos_part, neg_part, ltb_ℤ, sub_ℕ, ◌+ℤ◌, ◌-ℤ◌, ◌*ℤ◌}
use voltkv.Number.{max_int64, min_int64, wrap64}

abbrev pub Time : Type 0
Time = ℤ

abbrev pub Duration : Type 0
Duration = ℤ

-- `time.Time{}`.
abbrev pub zero_time : Time
zero_time = pos 0

-- `t.IsZero()`.
abbrev pub is_zero : Time → Bool
is_zero t = pos_part t == neg_part t

-- `now.After(t)`.
abbrev pub after : Time → Time → Bool
after now t = ltb_ℤ t now

-- `t.Add(d)`.
abbrev pub add : Time → Duration → Time
add t d = t +ℤ d

-- `d > 0`.
abbrev pub is_positive : Duration → Bool
is_positive d = ltb_ℤ (pos 0) d

-- `time.Until(t)` at `now`: a difference, held inside the range of a duration.
unfoldable pub until : Time → Time → Duration
unfolding ◌-ℤ◌
until t now =
    let d = t -ℤ now in
    if ltb_ℤ max_int64 d then max_int64 else if ltb_ℤ d min_int64 then min_int64 else d

abbrev pub millisecond : Duration
millisecond = pos 1_000_000

abbrev pub second : Duration
second = pos 1_000_000_000

-- `d * unit` on int64.
unfoldable pub scale : ℤ → Duration → Duration
unfolding wrap64 ◌*ℤ◌
scale amount unit = wrap64 (amount *ℤ unit)

-- `d / unit` rounds towards zero.
unfoldable pub quotient : Duration → Duration → ℤ
quotient d unit = sub_ℕ (pos_part d / pos_part unit) (neg_part d / pos_part unit)
