-- ===== src/Resp/Progress.antt =====
-- How much of the stream a read takes (internal/resp/resp.go).
use voltkv.Base.{
  ℕ, zero, suc, ◌^◌, ◌≤◌, ◌==◌, Option, none, some, List, [], ◌∷◌, leb, length, drop, Bytes, arith,
  Bool-cases, inl, inr,
}
use voltkv.Base.Int.{ℤ, pos, negsuc}
use voltkv.Number.{parse_int64}
use voltkv.Resp.Reader.{
  Read, got, fail, panic, read_string, read_line, read_int, read_full, read_buffer, read_bulk,
  read_bulks, read_counted, read_array, read_command, integer_or_fail, push_front, max_alloc,
  cons_arg, discard_two, read_byte, ◌then_read◌, read_sized, read_payload,
}

-- A read that succeeds leaves at most `n` bytes of the stream.
abbrev pub Leaves {ℓ} : {A : Type ℓ} → ℕ → Read A → Type 0
Leaves n (got a t) = length t ≤ n
Leaves n (fail e) = Unit
Leaves n panic = Unit

-- A reader that puts nothing back.
abbrev IsForward {ℓ} : {A : Type ℓ} → (Bytes → Read A) → Type 0
IsForward read = (s : Bytes) → Leaves (length s) (read s)

weaken_Leaves {ℓ} : {A : Type ℓ} (r : Read A) (m n : ℕ) → m ≤ n → Leaves m r → Leaves n r
weaken_Leaves (got a t) m n h l = omega arith
weaken_Leaves (fail e) m n h l = tt
weaken_Leaves panic m n h l = tt

Leaves-then {ℓ κ} :
    {A : Type ℓ} {B : Type κ} (n : ℕ) (r : Read A) (f : A → Bytes → Read B)
    → Leaves n r
    → ((a : A) → IsForward (f a))
    → Leaves n (r then_read f)
Leaves-then n (got a t) f h k = weaken_Leaves (f a t) (length t) n h (k a t)
Leaves-then n (fail e) f h k = tt
Leaves-then n panic f h k = tt

read_byte-IsForward : IsForward read_byte
unfolding read_byte
read_byte-IsForward [] = tt
read_byte-IsForward (c ∷ s) = omega arith

push_front-Leaves : (c n : ℕ) (r : Read Bytes) → Leaves n r → Leaves n (push_front c r)
push_front-Leaves c n (got a t) h = h
push_front-Leaves c n (fail e) h = tt
push_front-Leaves c n panic h = tt

cons_arg-Leaves : (a : Bytes) (n : ℕ) (r : Read (List Bytes)) → Leaves n r → Leaves n (cons_arg a r)
cons_arg-Leaves a n (got l t) h = h
cons_arg-Leaves a n (fail e) h = tt
cons_arg-Leaves a n panic h = tt

read_string-Leaves : (c : ℕ) (s : Bytes) → Leaves (length s) (read_string (c ∷ s))
unfolding read_string
read_string-Leaves c [] = elim (Bool-cases (c == 10)) [
  | inl e ↦ rw e (omega arith)
  | inr e ↦ rw e tt
]
read_string-Leaves c (d ∷ s) = elim (Bool-cases (c == 10)) [
  | inl e ↦ rw e (omega arith)
  | inr e ↦ rw e (
      push_front-Leaves c (suc (length s)) (read_string (d ∷ s))
        (weaken_Leaves (read_string (d ∷ s)) (length s) _ (omega arith) (read_string-Leaves d s)))
]

read_line-Leaves : (c : ℕ) (s : Bytes) → Leaves (length s) (read_line (c ∷ s))
unfolding read_line
read_line-Leaves c s =
    Leaves-then _ (read_string (c ∷ s)) _ (read_string-Leaves c s) (λ line t. omega arith)

read_line-IsForward : IsForward read_line
unfolding read_line read_string
read_line-IsForward [] = tt
read_line-IsForward (c ∷ s) =
    weaken_Leaves (read_line (c ∷ s)) (length s) _ (omega arith) (read_line-Leaves c s)

integer_or_fail-IsForward : (o : Option ℤ) → IsForward (integer_or_fail o)
integer_or_fail-IsForward none s = tt
integer_or_fail-IsForward (some z) s = omega arith

read_int-IsForward : IsForward read_int
unfolding read_int
read_int-IsForward s =
    Leaves-then _ (read_line s) _ (read_line-IsForward s)
      (λ line. integer_or_fail-IsForward (parse_int64 line))

length-drop-le : (n : ℕ) (s : Bytes) → length (drop n s) ≤ length s
length-drop-le zero s = omega arith
length-drop-le (suc n) [] = omega arith
length-drop-le (suc n) (c ∷ s) = omega (arith, length-drop-le n s)

read_full-IsForward : (n : ℕ) → IsForward (read_full n)
unfolding read_full
read_full-IsForward zero s = omega arith
read_full-IsForward (suc n) [] = tt
read_full-IsForward (suc n) (c ∷ s) = elim (Bool-cases (leb n (length s))) [
  | inl e ↦ rw e (omega (arith, length-drop-le n s))
  | inr e ↦ rw e tt
]

discard_two-IsForward : IsForward discard_two
unfolding discard_two
discard_two-IsForward [] = tt
discard_two-IsForward (c ∷ []) = tt
discard_two-IsForward (c ∷ d ∷ s) = omega arith

read_buffer-IsForward : (z : ℤ) → IsForward (read_buffer z)
unfolding read_buffer
read_buffer-IsForward (negsuc n) s = tt
read_buffer-IsForward (pos n) s = elim (Bool-cases (leb n max_alloc)) [
  | inl e ↦ rw e (read_full-IsForward n s)
  | inr e ↦ rw e tt
]

read_sized-IsForward : IsForward read_sized
unfolding read_sized
read_sized-IsForward s = Leaves-then _ (read_int s) _ (read_int-IsForward s) λ size s'.
    Leaves-then _ (read_buffer size s') _ (read_buffer-IsForward size s')
      λ buf s''. Leaves-then _ (discard_two s'') _ (discard_two-IsForward s'') λ _ s₃. omega arith

read_payload-IsForward : (b : ℕ) → IsForward (read_payload b)
read_payload-IsForward b s = elim (Bool-cases (b == b'$')) [
  | inl e ↦ rw e (read_sized-IsForward s)
  | inr d ↦ rw d tt
]

read_bulk-IsForward : IsForward read_bulk
unfolding read_bulk
read_bulk-IsForward s = Leaves-then _ (read_byte s) _ (read_byte-IsForward s) read_payload-IsForward

read_bulks-IsForward : (n : ℕ) → IsForward (read_bulks n)
unfolding read_bulks
read_bulks-IsForward zero s = omega arith
read_bulks-IsForward (suc n) s =
    Leaves-then _ (read_bulk s) _ (read_bulk-IsForward s)
      λ a s'. cons_arg-Leaves a _ (read_bulks n s') (read_bulks-IsForward n s')

read_counted-IsForward : (z : ℤ) → IsForward (read_counted z)
unfolding read_counted
read_counted-IsForward (negsuc n) s = omega arith
read_counted-IsForward (pos n) s = elim (Bool-cases (leb n (2 ^ 44))) [
  | inl few ↦ rw few (read_bulks-IsForward n s)
  | inr many ↦ rw many tt
]

read_array-IsForward : IsForward read_array
unfolding read_array
read_array-IsForward s = Leaves-then _ (read_int s) _ (read_int-IsForward s) read_counted-IsForward

-- A read of a command takes a byte at least.
pub read_command-Leaves : (c : ℕ) (s : Bytes) → Leaves (length s) (read_command (c ∷ s))
unfolding read_command
read_command-Leaves c s = elim (Bool-cases (c == b'*')) [
  | inl array ↦ rw array (read_array-IsForward s)
  | inr inline ↦
      rw inline (Leaves-then _ (read_line (c ∷ s)) _ (read_line-Leaves c s) (λ line t. omega arith))
]
