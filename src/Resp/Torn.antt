-- ===== src/Resp/Torn.antt =====
-- Reads on a stream that ends early (internal/resp/resp.go).
use voltkv.Base.{
  ℕ, zero, suc, ◌^◌, ◌≤◌, ◌≡◌, refl, ap, sym, ◌∙◌, ◌==◌, Option, none, some, List, [], ◌∷◌, ◌++◌,
  append-nil, leb, length, take, drop, All, length-append, Bytes, arith, Bool-cases, inl, inr,
}
use voltkv.Base.Int.{ℤ, pos, negsuc}
use voltkv.Number.{parse_int64}
use voltkv.Resp.{string_array}
use voltkv.Resp.RoundTrip.{Fits, read_command-string_array}
use voltkv.Resp.Reader.{
  Read, got, fail, panic, read_string, read_line, read_int, read_full, read_buffer, read_bulk,
  read_bulks, read_counted, read_array, read_command, integer_or_fail, push_front, max_alloc,
  cons_arg, discard_two, read_byte, ◌then_read◌, read_sized, read_payload,
}

-- More bytes at the end of a stream do not change a read that ended before them.
abbrev Extends {ℓ} : {A : Type ℓ} → Bytes → Read A → Read A → Type ℓ
Extends t (got a s) r = r ≡ got a (s ++ t)
Extends t (fail e) r = Unit
Extends t panic r = r ≡ panic

-- A reader that more bytes do not disturb.
abbrev IsStable {ℓ} : {A : Type ℓ} → (Bytes → Read A) → Type ℓ
IsStable read = (s t : Bytes) → Extends t (read s) (read (s ++ t))

Extends-then {ℓ} :
    {A B : Type ℓ} (t : Bytes) (r r' : Read A) (f : A → Bytes → Read B)
    → Extends t r r'
    → ((a : A) → IsStable (f a))
    → Extends t (r then_read f) (r' then_read f)
Extends-then t (got a s) r' f h k = rw h (k a s t)
Extends-then t (fail e) r' f h k = tt
Extends-then t panic r' f h k = rw h refl

read_byte-IsStable : IsStable read_byte
unfolding read_byte
read_byte-IsStable [] t = tt
read_byte-IsStable (c ∷ s) t = refl

push_front-Extends :
    (c : ℕ) (t : Bytes) (r r' : Read Bytes)
    → Extends t r r'
    → Extends t (push_front c r) (push_front c r')
push_front-Extends c t (got a s) r' h = rw h refl
push_front-Extends c t (fail e) r' h = tt
push_front-Extends c t panic r' h = rw h refl

cons_arg-Extends :
    (a : Bytes) (t : Bytes) (r r' : Read (List Bytes))
    → Extends t r r'
    → Extends t (cons_arg a r) (cons_arg a r')
cons_arg-Extends c t (got a s) r' h = rw h refl
cons_arg-Extends c t (fail e) r' h = tt
cons_arg-Extends c t panic r' h = rw h refl

read_string-IsStable : IsStable read_string
unfolding read_string
read_string-IsStable [] t = tt
read_string-IsStable (c ∷ s) t = elim (Bool-cases (c == 10)) [
  | inl end ↦ rw end refl
  | inr more ↦ rw more (push_front-Extends c t (read_string s) _ (read_string-IsStable s t))
]

read_line-IsStable : IsStable read_line
unfolding read_line
read_line-IsStable s t =
    Extends-then t (read_string s) _ _ (read_string-IsStable s t) (λ a s' t'. refl)

integer_or_fail-IsStable : (o : Option ℤ) → IsStable (integer_or_fail o)
integer_or_fail-IsStable none s t = tt
integer_or_fail-IsStable (some z) s t = refl

read_int-IsStable : IsStable read_int
unfolding read_int
read_int-IsStable s t =
    Extends-then t (read_line s) _ _ (read_line-IsStable s t)
      (λ line. integer_or_fail-IsStable (parse_int64 line))

take-append : (n : ℕ) (s t : Bytes) → n ≤ length s → take n (s ++ t) ≡ take n s
take-append zero s t h = refl
take-append (suc n) [] t h = elim h [ ]
take-append (suc n) (c ∷ s) t h = ap (λ x. c ∷ x) (take-append n s t (omega arith))

drop-append : (n : ℕ) (s t : Bytes) → n ≤ length s → drop n (s ++ t) ≡ drop n s ++ t
drop-append zero s t h = refl
drop-append (suc n) [] t h = elim h [ ]
drop-append (suc n) (c ∷ s) t h = drop-append n s t (omega arith)

read_full-IsStable : (n : ℕ) → IsStable (read_full n)
unfolding read_full
read_full-IsStable zero s t = refl
read_full-IsStable (suc n) [] t = tt
read_full-IsStable (suc n) (c ∷ s) t =
    ground (arith, length-append s t, take-append n s t, drop-append n s t)

discard_two-IsStable : IsStable discard_two
unfolding discard_two
discard_two-IsStable [] t = tt
discard_two-IsStable (c ∷ []) t = tt
discard_two-IsStable (c ∷ d ∷ s) t = refl

read_buffer-IsStable : (z : ℤ) → IsStable (read_buffer z)
unfolding read_buffer
read_buffer-IsStable (negsuc n) s t = refl
read_buffer-IsStable (pos n) s t = elim (Bool-cases (leb n max_alloc)) [
  | inl small ↦ rw small (read_full-IsStable n s t)
  | inr large ↦ rw large refl
]

read_sized-IsStable : IsStable read_sized
unfolding read_sized
read_sized-IsStable s t = Extends-then t (read_int s) _ _ (read_int-IsStable s t) λ size s' t'.
    Extends-then t' (read_buffer size s') _ _ (read_buffer-IsStable size s' t') λ buf s'' t''.
      Extends-then t'' (discard_two s'') _ _ (discard_two-IsStable s'' t'') λ _ s₃ t₃. refl

read_payload-IsStable : (b : ℕ) → IsStable (read_payload b)
read_payload-IsStable b s t = elim (Bool-cases (b == b'$')) [
  | inl e ↦ rw e (read_sized-IsStable s t)
  | inr d ↦ rw d tt
]

read_bulk-IsStable : IsStable read_bulk
unfolding read_bulk
read_bulk-IsStable s t =
    Extends-then t (read_byte s) _ _ (read_byte-IsStable s t) read_payload-IsStable

read_bulks-IsStable : (n : ℕ) → IsStable (read_bulks n)
unfolding read_bulks
read_bulks-IsStable zero s t = refl
read_bulks-IsStable (suc n) s t =
    Extends-then t (read_bulk s) _ _ (read_bulk-IsStable s t)
      λ a s' t'. cons_arg-Extends a t' (read_bulks n s') _ (read_bulks-IsStable n s' t')

read_counted-IsStable : (z : ℤ) → IsStable (read_counted z)
unfolding read_counted
read_counted-IsStable (negsuc n) s t = refl
read_counted-IsStable (pos n) s t = elim (Bool-cases (leb n (2 ^ 44))) [
  | inl few ↦ rw few (read_bulks-IsStable n s t)
  | inr many ↦ rw many refl
]

read_array-IsStable : IsStable read_array
unfolding read_array
read_array-IsStable s t =
    Extends-then t (read_int s) _ _ (read_int-IsStable s t) read_counted-IsStable

-- A read that ended before the end of a stream gives the same with more bytes behind it.
read_command-IsStable : IsStable read_command
unfolding read_command
read_command-IsStable [] t = tt
read_command-IsStable (c ∷ s) t = elim (Bool-cases (c == b'*')) [
  | inl array ↦ rw array (read_array-IsStable s t)
  | inr line ↦
      rw line
        (Extends-then t (read_line (c ∷ s)) _ _ (read_line-IsStable (c ∷ s) t) (λ l s' t'. refl))
]

-- The read ended with an error, and neither with a command nor with a panic.
abbrev pub IsError {ℓ} : {A : Type ℓ} → Read A → Type 0
IsError (fail e) = Unit
IsError _ = ⊥

torn_case :
    (args : List Bytes) (c : ℕ) (t : Bytes) (r whole : Read (List Bytes))
    → Extends (c ∷ t) r whole
    → whole ≡ got args []
    → IsError r
torn_case args c t (got a []) whole h e = cc
torn_case args c t (got a (x ∷ s)) whole h e = cc
torn_case args c t (fail x) whole h e = tt
torn_case args c t panic whole h e = cc

-- A command that is cut off anywhere before its last byte is an error to the reader, and never
-- another command.
pub read_command-torn :
    (args : List Bytes) (front : Bytes) (c : ℕ) (back : Bytes)
    → All Fits args
    → length args ≤ 2 ^ 44
    → string_array args ≡ front ++ c ∷ back
    → IsError (read_command front)
read_command-torn args front c back h few split =
    torn_case args c back (read_command front) _ (read_command-IsStable front (c ∷ back)) (
      ap read_command (sym split ∙ sym (append-nil (string_array args)))
      ∙ read_command-string_array args [] h few)
