-- ===== src/Command/Options/Laws.antt =====
-- The options of SET (internal/command/helpers.go, internal/command/command.go).
use voltkv.Base.{
  ℕ, ◌≤◌, ◌<◌, ◌≡◌, refl, ap, Bool, true, false, ◌&&◌, Option, none, some, List, [], ◌∷◌,
  if◌then◌else◌, Bytes, bytes_eq, codes, arith, ◌==◌, zero, suc,
}
use voltkv.Base.Int.{pos}
use voltkv.Number.{parse_int64, format_nat, format_int, cutoff}
use voltkv.Number.RoundTrip.{parse_int64-format_int}
use voltkv.Store.Time.{Time, second, scale, zero_time}
use voltkv.Store.Entry.{string_entry}
use voltkv.Store.Refine.Expiry.{scale_wraps}
use voltkv.Command.World.{to_upper}
use voltkv.Command.Options.{
  SetOptions, Seen, nothing_seen, nonnegative, parse_positive_int, with_ttl, with_flag, is_ttl,
  result_of, go_on, options_loop, parse_set_opts,
}

-- At most one of NX and XX.
abbrev pub IsExclusive : SetOptions → Type 0
IsExclusive o = (o.nx && o.xx) ≡ false

with_flag-IsExclusive :
    (name : Bytes) (seen seen' : Seen)
    → IsExclusive seen.options
    → with_flag name seen ≡ some seen'
    → IsExclusive seen'.options
with_flag-IsExclusive name seen seen' h e = ground arith

with_ttl-IsExclusive :
    (name : Bytes) (o : Option ℕ) (seen seen' : Seen)
    → IsExclusive seen.options
    → with_ttl name o seen ≡ some seen'
    → IsExclusive seen'.options
with_ttl-IsExclusive name none seen seen' h e = cc
with_ttl-IsExclusive name (some n) seen seen' h e = ground arith

choose-IsExclusive :
    (b : Bool) {x y : Option SetOptions} {o : SetOptions}
    → (x ≡ some o → IsExclusive o)
    → (y ≡ some o → IsExclusive o)
    → (if b then x else y) ≡ some o
    → IsExclusive o
choose-IsExclusive true hx hy e = hx e
choose-IsExclusive false hx hy e = hy e

go_on-IsExclusive :
    (x : Option Seen) {f : Seen → Option SetOptions} {o : SetOptions}
    → ((seen : Seen) → x ≡ some seen → IsExclusive seen.options)
    → ((seen : Seen) → IsExclusive seen.options → f seen ≡ some o → IsExclusive o)
    → go_on x f ≡ some o
    → IsExclusive o
go_on-IsExclusive none hx hf e = cc
go_on-IsExclusive (some seen) hx hf e = hf seen (hx seen refl) e

result_of-IsExclusive :
    (x : Option Seen) {o : SetOptions}
    → ((seen : Seen) → x ≡ some seen → IsExclusive seen.options)
    → result_of x ≡ some o
    → IsExclusive o
result_of-IsExclusive none hx e = cc
result_of-IsExclusive (some seen) hx e = grind (arith, hx seen refl)

loop-IsExclusive :
    (opts : List Bytes) (seen : Seen) (o : SetOptions)
    → IsExclusive seen.options
    → options_loop opts seen ≡ some o
    → IsExclusive o
unfolding options_loop
loop-IsExclusive [] seen o h e = ground arith
loop-IsExclusive (t ∷ []) seen o h e =
    choose-IsExclusive (is_ttl (to_upper t)) (λ f. cc)
      (result_of-IsExclusive (with_flag (to_upper t) seen)
        λ s. with_flag-IsExclusive (to_upper t) seen s h)
      e
loop-IsExclusive (t ∷ v ∷ opts) seen o h e =
    choose-IsExclusive (is_ttl (to_upper t))
      (go_on-IsExclusive (with_ttl (to_upper t) (parse_positive_int v) seen)
        (λ s. with_ttl-IsExclusive (to_upper t) (parse_positive_int v) seen s h)
        λ s. loop-IsExclusive opts s o)
      (go_on-IsExclusive (with_flag (to_upper t) seen)
        (λ s. with_flag-IsExclusive (to_upper t) seen s h) λ s. loop-IsExclusive (v ∷ opts) s o)
      e

-- Whatever the options, SET never gets both NX and XX.
pub parse_set_opts-IsExclusive :
    (opts : List Bytes) (o : SetOptions) → parse_set_opts opts ≡ some o → IsExclusive o
unfolding parse_set_opts
parse_set_opts-IsExclusive opts o e = loop-IsExclusive opts nothing_seen o refl e

parse_positive_int-format_nat : (n : ℕ) → n < cutoff → parse_positive_int (format_nat n) ≡ some n
unfolding parse_positive_int
parse_positive_int-format_nat n h =
    let parsed : parse_int64 (format_nat n) ≡ some (pos n) =
      unfold format_int in parse_int64-format_int (pos n) h in
    ap nonnegative parsed

nonzero_lem : (m : ℕ) → (suc m == 0) ≡ false
nonzero_lem m = ground arith

seconds_lem :
    (v : Bytes) (m : ℕ)
    → parse_positive_int v ≡ some (suc m)
    → options_loop (codes "EX" ∷ v ∷ []) nothing_seen
      ≡ some (record { ttl = scale (pos (suc m)) second; nx = false; xx = false })
unfolding options_loop to_upper bytes_eq
seconds_lem v m h = rw (h, nonzero_lem m) refl

-- `EX n` for a number of seconds from 9223372037, the first that the int64 product cannot hold, to
-- 18446744073 is accepted, and the entry that SET then stores never expires.
pub expiry_lost :
    (n : ℕ) (value : Bytes) (now : Time)
    → 9223372037 ≤ n
    → n ≤ 18446744073
    → (o : SetOptions) × (parse_set_opts (codes "EX" ∷ format_nat n ∷ []) ≡ some o)
      × ((string_entry value o.ttl now).expires_at ≡ zero_time)
unfolding parse_set_opts string_entry
expiry_lost zero value now low high = absurd (omega arith)
expiry_lost (suc m) value now low high = (
  record { ttl = scale (pos (suc m)) second; nx = false; xx = false },
  seconds_lem (format_nat (suc m)) m (parse_positive_int-format_nat (suc m) (omega arith)),
  ground (arith, scale_wraps (suc m) low high),
)
