-- ===== src/Glob.antt =====
-- `globMatch`, `matchHere` and `matchClass` (internal/store/helpers.go), byte by byte.
pub mod Classes
pub mod Spec
use voltkv.Base.{
  ℕ, zero, suc, ◌+◌, ◌-◌, ◌==◌, Bool, true, false, not, ◌&&◌, ◌||◌, Option, none, some, List, [],
  ◌∷◌, length, leb, if◌then◌else◌, Bytes,
}

-- The loop of `matchClass` behind the bracket and the `^`: whether `c` was found, and the pattern
-- behind the `]`; `none` if the class is not closed.
unfoldable pub class_loop : ℕ → Bytes → Bool → Option (Bool × Bytes)
class_loop c [] found = none
class_loop c (a ∷ d ∷ b ∷ p) found =
    let range = class_loop c p (found || (leb a c && leb c b)) in
    let single = class_loop c (d ∷ b ∷ p) (found || a == c) in
    if a == b']'
    then some (found, d ∷ b ∷ p)
    else if d == b'-' && not (b == b']')
    then range
    else single
class_loop c (a ∷ p) found = if a == b']' then some (found, p) else class_loop c p (found || a == c)

abbrev pub differ : Bool → Bool → Bool
differ a true = not a
differ a false = a

abbrev pub negate_with : Bool → Option (Bool × Bytes) → Option (Bool × Bytes)
negate_with negate none = none
negate_with negate (some (found, rest)) = some (differ found negate, rest)

-- `matchClass` on the pattern behind the `[`.
unfoldable pub match_class : Bytes → ℕ → Option (Bool × Bytes)
match_class [] c = none
match_class (a ∷ p) c =
    if a == b'^'
    then negate_with true (class_loop c p false)
    else negate_with false (class_loop c (a ∷ p) false)

-- The inner loop that drops the stars behind a star.
unfoldable pub collapse : Bytes → Bytes
collapse [] = []
collapse (c ∷ p) = let rest = collapse p in if c == b'*' then rest else c ∷ p

-- `for i := 0; i <= len(s); i++`: does some suffix of the text pass?
unfoldable pub any_suffix : (Bytes → Bool) → Bytes → Bool
any_suffix test [] = test []
any_suffix test (c ∷ s) = test (c ∷ s) || any_suffix test s

abbrev pub backslash : ℕ
backslash = 92

-- The branches of `matchHere`; `next` is the loop, or a call of it, on what is left.
abbrev pub Matcher : Type 0
Matcher = Bytes → Bytes → Bool

-- `case '*'`, on the pattern behind the stars.
abbrev pub star_step : Matcher → Matcher
star_step next [] s = true
star_step next (a ∷ p) s = any_suffix (next (a ∷ p)) s

-- `case '?'`.
abbrev pub any_step : Matcher → Matcher
any_step next p [] = false
any_step next p (c ∷ s) = next p s

-- `case '['`, on the result of `matchClass`.
abbrev pub class_result : Matcher → Bytes → Option (Bool × Bytes) → Bool
class_result next s none = false
class_result next s (some (matched, rest)) = if matched then next rest s else false

abbrev pub class_step : Matcher → Matcher
class_step next p [] = false
class_step next p (c ∷ s) = class_result next s (match_class p c)

-- The default case, also for a `\` at the end of the pattern.
abbrev pub literal_step : Matcher → ℕ → Matcher
literal_step next a p [] = false
literal_step next a p (c ∷ s) = if c == a then next p s else false

-- `case '\'`.
abbrev pub escape_step : Matcher → ℕ → Matcher
escape_step next a [] s = literal_step next a [] s
escape_step next a (x ∷ p) s = literal_step next x p s

unfoldable pub step : Matcher → ℕ → Matcher
step next a p s =
    if a == b'*'
    then star_step next (collapse p) s
    else if a == b'?'
    then any_step next p s
    else if a == b'['
    then class_step next p s
    else if a == backslash
    then escape_step next a p s
    else literal_step next a p s

abbrev pub is_empty : Bytes → Bool
is_empty [] = true
is_empty (c ∷ s) = false

-- `matchHere`. Each round and each inner call shortens the pattern, so fuel above its length is
-- enough; `Glob.Spec` shows it.
unfoldable pub match_here : ℕ → Bytes → Bytes → Bool
unfolding step match_class class_loop collapse any_suffix
match_here zero p s = false
match_here (suc f) [] s = is_empty s
match_here (suc f) (a ∷ p) s = step (match_here f) a p s

-- `globMatch`.
unfoldable pub glob_match : Bytes → Bytes → Bool
unfolding match_here
glob_match pattern s = match_here (length pattern + 1) pattern s
