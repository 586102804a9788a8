-- ===== src/Command/Options.antt =====
-- `parseSetOpts` and `parsePositiveInt` (internal/command/helpers.go).
pub mod Laws
use voltkv.Base.{
  ℕ, Bool, true, false, ◌||◌, Option, none, some, List, [], ◌∷◌, if◌then◌else◌, Bytes, bytes_eq,
  codes, ◌==◌,
}
use voltkv.Base.Int.{ℤ, pos, negsuc}
use voltkv.Number.{parse_int64}
use voltkv.Store.Time.{Duration, second, millisecond, scale}
use voltkv.Command.World.{to_upper}

pub record SetOptions : Type 0 where
  pub ttl : Duration
  pub nx : Bool
  pub xx : Bool

-- The variables of the loop.
pub record Seen : Type 0 where
  pub options : SetOptions
  pub have_ttl : Bool

abbrev pub nothing_seen : Seen
nothing_seen = record { options = record { ttl = pos 0; nx = false; xx = false }; have_ttl = false }

abbrev pub nonnegative : Option ℤ → Option ℕ
nonnegative none = none
nonnegative (some (pos n)) = some n
nonnegative (some (negsuc n)) = none

-- `parsePositiveInt`.
unfoldable pub parse_positive_int : Bytes → Option ℕ
parse_positive_int s = nonnegative (parse_int64 s)

-- `case "EX", "PX"` with an argument behind the token `name`.
abbrev pub with_ttl : Bytes → Option ℕ → Seen → Option Seen
with_ttl name none seen = none
with_ttl name (some amount) seen =
    if seen.have_ttl || amount == 0
    then none
    else some (record {
      options = record {
        ttl = scale (pos amount) (if bytes_eq name (codes "EX") then second else millisecond);
        nx = seen.options.nx;
        xx = seen.options.xx;
      };
      have_ttl = true;
    })

-- `case "NX"` and `case "XX"`.
abbrev pub with_flag : Bytes → Seen → Option Seen
with_flag name seen =
    if bytes_eq name (codes "NX")
    then (if seen.options.xx
        then none
        else some (record seen {
          options = record { ttl = seen.options.ttl; nx = true; xx = seen.options.xx };
        }))
    else if bytes_eq name (codes "XX")
    then (if seen.options.nx
        then none
        else some (record seen {
          options = record { ttl = seen.options.ttl; nx = seen.options.nx; xx = true };
        }))
    else none

abbrev pub is_ttl : Bytes → Bool
is_ttl name = bytes_eq name (codes "EX") || bytes_eq name (codes "PX")

abbrev pub result_of : Option Seen → Option SetOptions
result_of none = none
result_of (some seen) = some seen.options

abbrev pub go_on : Option Seen → (Seen → Option SetOptions) → Option SetOptions
go_on none f = none
go_on (some seen) f = f seen

-- The loop over the tokens.
unfoldable pub options_loop : List Bytes → Seen → Option SetOptions
unfolding to_upper parse_positive_int
options_loop [] seen = some seen.options
options_loop (o ∷ []) seen =
    if is_ttl (to_upper o) then none else result_of (with_flag (to_upper o) seen)
options_loop (o ∷ v ∷ opts) seen =
    let timed = go_on (with_ttl (to_upper o) (parse_positive_int v) seen) (options_loop opts) in
    let flagged = go_on (with_flag (to_upper o) seen) (options_loop (v ∷ opts)) in
    if is_ttl (to_upper o) then timed else flagged

-- `parseSetOpts`; `none` is its syntax error.
unfoldable pub parse_set_opts : List Bytes → Option SetOptions
unfolding options_loop
parse_set_opts opts = options_loop opts nothing_seen
