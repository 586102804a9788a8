-- ===== src/Resp/Inline.antt =====
-- `splitInline`: a line cut at its spaces, rune by rune (internal/resp/resp.go).
use voltkv.Base.{
  ℕ, zero, suc, ◌==◌, Bool, ◌&&◌, List, [], ◌∷◌, ◌++◌, ltb, leb, if◌then◌else◌, Bytes,
}

abbrev pub within : ℕ → ℕ → ℕ → Bool
within lo hi c = leb lo c && leb c hi

abbrev pub is_tail : ℕ → Bool
is_tail c = within 0x80 0xbf c

-- The bounds of the second byte, which exclude overlong forms, surrogates and what is past the last
-- code point.
abbrev pub second_of_three : ℕ → ℕ → Bool
second_of_three a b = within (if a == 0xe0 then 0xa0 else 0x80) (if a == 0xed then 0x9f else 0xbf) b

abbrev pub second_of_four : ℕ → ℕ → Bool
second_of_four a b = within (if a == 0xf0 then 0x90 else 0x80) (if a == 0xf4 then 0x8f else 0xbf) b

-- The bytes that one round of `range` over a string takes if they are UTF-8; 0 if they are not.
unfoldable pub rune_width : Bytes → ℕ
rune_width [] = 0
rune_width (a ∷ []) = if ltb a 0x80 then 1 else 0
rune_width (a ∷ b ∷ []) = if ltb a 0x80 then 1 else if within 0xc2 0xdf a && is_tail b then 2 else 0
rune_width (a ∷ b ∷ c ∷ []) =
    if ltb a 0x80
    then 1
    else if within 0xc2 0xdf a && is_tail b
    then 2
    else if within 0xe0 0xef a && second_of_three a b && is_tail c
    then 3
    else 0
rune_width (a ∷ b ∷ c ∷ d ∷ s) =
    if ltb a 0x80
    then 1
    else if within 0xc2 0xdf a && is_tail b
    then 2
    else if within 0xe0 0xef a && second_of_three a b && is_tail c
    then 3
    else if within 0xf0 0xf4 a && second_of_four a b && is_tail c && is_tail d
    then 4
    else 0

-- U+FFFD, which a byte that is not UTF-8 becomes.
abbrev pub replacement : Bytes
replacement = 0xef ∷ 0xbf ∷ 0xbd ∷ []

-- The string of the runes of a string: the bytes of `skip` more runes stand as they are.
unfoldable pub valid_utf8 : ℕ → Bytes → Bytes
unfolding rune_width
valid_utf8 skip [] = []
valid_utf8 (suc skip) (c ∷ s) = c ∷ valid_utf8 skip s
valid_utf8 zero (c ∷ s) =
    let bad = replacement ++ valid_utf8 0 s in
    let one = c ∷ valid_utf8 0 s in
    let two = c ∷ valid_utf8 1 s in
    let three = c ∷ valid_utf8 2 s in
    let four = c ∷ valid_utf8 3 s in
    let w = rune_width (c ∷ s) in
    if w == 0
    then bad
    else if w == 1
    then one
    else if w == 2
    then two
    else if w == 3
    then three
    else four

-- The words of a line. `cur` is the word that is being read.
unfoldable pub cut : Bytes → Bytes → List Bytes
cut [] [] = []
cut [] (d ∷ cur) = (d ∷ cur) ∷ []
cut (c ∷ s) [] = cut s (if c == b' ' then [] else c ∷ [])
cut (c ∷ s) (d ∷ cur) =
    let word = (d ∷ cur) ∷ cut s [] in
    let more = cut s ((d ∷ cur) ++ c ∷ []) in if c == b' ' then word else more

-- `splitInline`. A space is a byte of no other rune, so the runes are cut where the bytes are.
unfoldable pub split_inline : Bytes → List Bytes
unfolding valid_utf8 cut
split_inline line = cut (valid_utf8 0 line) []
