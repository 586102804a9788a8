-- ===== src/Resp/Reader.antt =====
-- `ReadCommand` and what it calls (internal/resp/resp.go).
use voltkv.Base.{
  ℕ, zero, suc, ◌^◌, ◌==◌, ◌||◌, not, Option, none, some, List, [], ◌∷◌, leb, length, take, drop,
  if◌then◌else◌, Bytes,
}
use voltkv.Base.Int.{ℤ, pos, negsuc}
use voltkv.Number.{parse_int64}
use voltkv.Resp.Inline.{split_inline}

-- `io.EOF` and `io.ErrUnexpectedEOF`, a byte that is not `$`, and an error of `Atoi`.
pub data ReadError : Type 0 where
  eof unexpected_eof bad_integer : ReadError
  bad_prefix : ℕ → ReadError

-- A value and the rest of the stream, an error, or a run-time panic.
pub data Read {ℓ} (A : Type ℓ) : Type ℓ where
  got : A → Bytes → Read A
  fail : ReadError → Read A
  panic : Read A

-- The next step takes the rest of the stream.
infixl 5 ◌then_read◌
abbrev pub ◌then_read◌ {ℓ κ} : {A : Type ℓ} {B : Type κ} → Read A → (A → Bytes → Read B) → Read B
(got a s) then_read f = f a s
(fail e) then_read f = fail e
panic then_read f = panic

-- `ReadByte`.
unfoldable pub read_byte : Bytes → Read ℕ
read_byte [] = fail eof
read_byte (c ∷ s) = got c s

abbrev pub push_front : ℕ → Read Bytes → Read Bytes
push_front c (got line s) = got (c ∷ line) s
push_front c (fail e) = fail e
push_front c panic = panic

-- `ReadString('\n')`: the bytes up to the first newline, with it.
unfoldable pub read_string : Bytes → Read Bytes
read_string [] = fail eof
read_string (c ∷ s) = if c == 10 then got (c ∷ []) s else push_front c (read_string s)

abbrev pub drop_eol : ℕ → Bytes → Bytes
drop_eol c [] = if c == 10 || c == 13 then [] else c ∷ []
drop_eol c (d ∷ s) = c ∷ d ∷ s

-- The loop that strips `\r` and `\n` from the end.
unfoldable pub trim_end : Bytes → Bytes
trim_end [] = []
trim_end (c ∷ s) = drop_eol c (trim_end s)

-- `readLine`.
unfoldable pub read_line : Bytes → Read Bytes
read_line s = read_string s then_read λ line rest. got (trim_end line) rest

abbrev pub integer_or_fail : Option ℤ → Bytes → Read ℤ
integer_or_fail none rest = fail bad_integer
integer_or_fail (some z) rest = got z rest

-- `readInt`.
unfoldable pub read_int : Bytes → Read ℤ
read_int s = read_line s then_read λ line rest. integer_or_fail (parse_int64 line) rest

-- `io.ReadFull` into a buffer of `n` bytes.
unfoldable pub read_full : ℕ → Bytes → Read Bytes
read_full zero s = got [] s
read_full (suc n) [] = fail eof
read_full (suc n) (c ∷ s) =
    if leb n (length s) then got (c ∷ take n s) (drop n s) else fail unexpected_eof

-- `Discard(2)`.
unfoldable pub discard_two : Bytes → Read (Unit {0})
discard_two (c ∷ d ∷ s) = got tt s
discard_two _ = fail eof

-- The most bytes that Go allocates at once on a 64-bit Linux; `make` panics beyond.
abbrev pub max_alloc : ℕ
max_alloc = 2 ^ 48

-- `make([]byte, length)` and `ReadFull` into it.
unfoldable pub read_buffer : ℤ → Bytes → Read Bytes
unfolding read_full
read_buffer (negsuc n) s = panic
read_buffer (pos n) s = let buf = read_full n s in if leb n max_alloc then buf else panic

-- The body of the loop of `readArray` behind the `$`.
unfoldable pub read_sized : Bytes → Read Bytes
unfolding read_int read_buffer discard_two
read_sized s = read_int s then_read λ size rest.
    read_buffer size rest then_read λ buf rest'. discard_two rest' then_read λ _ end. got buf end

abbrev pub read_payload : ℕ → Bytes → Read Bytes
read_payload b s = if not (b == b'$') then fail (bad_prefix b) else read_sized s

-- The body of the loop of `readArray`.
unfoldable pub read_bulk : Bytes → Read Bytes
unfolding read_byte read_sized
read_bulk s = read_byte s then_read read_payload

abbrev pub cons_arg : Bytes → Read (List Bytes) → Read (List Bytes)
cons_arg a (got args s) = got (a ∷ args) s
cons_arg a (fail e) = fail e
cons_arg a panic = panic

-- The loop of `readArray`, `n` rounds.
unfoldable pub read_bulks : ℕ → Bytes → Read (List Bytes)
unfolding read_bulk
read_bulks zero s = got [] s
read_bulks (suc n) s = read_bulk s then_read λ a rest. cons_arg a (read_bulks n rest)

-- `make([]string, 0, n)`, of 16 bytes each, and the loop; a negative count is no command.
unfoldable pub read_counted : ℤ → Bytes → Read (List Bytes)
unfolding read_bulks
read_counted (negsuc n) s = got [] s
read_counted (pos n) s = let args = read_bulks n s in if leb n (2 ^ 44) then args else panic

-- `readArray`.
unfoldable pub read_array : Bytes → Read (List Bytes)
unfolding read_int read_counted
read_array s = read_int s then_read read_counted

-- `ReadCommand`.
unfoldable pub read_command : Bytes → Read (List Bytes)
unfolding read_array read_line
read_command [] = fail eof
read_command (c ∷ s) =
    if c == b'*'
    then read_array s
    else (read_line (c ∷ s) then_read λ line rest. got (split_inline line) rest)
