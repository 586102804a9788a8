-- ===== src/Resp/RoundTrip.antt =====
-- What is written as an array of bulk strings is read back as the same command
-- (internal/resp/resp.go).
use voltkv.Base.{
  ℕ, ◌^◌, ◌<◌, ◌≤◌, ◌≡◌, refl, ap, ◌∙◌, true, some, List, [], ◌∷◌, ◌++◌, append_assoc, leb, length,
  take, drop, All, length-append, Bytes, arith,
}
use voltkv.Base.Int.{pos}
use voltkv.Number.{parse_int64, format_nat, format_int, is_digit, cutoff}
use voltkv.Number.RoundTrip.{format_nat-All, parse_int64-format_int}
use voltkv.Resp.{crlf, bulk_string, array_header, bulk_strings, string_array}
use voltkv.Resp.Reader.{
  got, read_string, trim_end, read_line, read_int, read_full, read_bulk, read_bulks, read_command,
  drop_eol, max_alloc,
}

abbrev pub AllDigits : Bytes → Type 0
AllDigits ds = All (λ c. is_digit c ≡ true) ds

pub read_string-digits :
    (ds t : Bytes) → AllDigits ds → read_string (ds ++ (crlf ++ t)) ≡ got (ds ++ crlf) t
unfolding read_string
read_string-digits [] t h = refl
read_string-digits (c ∷ ds) t (h, hs) = ground (arith, read_string-digits ds t hs)

pub trim_end-digits : (ds : Bytes) → AllDigits ds → trim_end (ds ++ crlf) ≡ ds
unfolding trim_end
trim_end-digits [] h = refl
trim_end-digits (c ∷ ds) (h, hs) = ap (drop_eol c) (trim_end-digits ds hs) ∙ keep c ds h
  where
    keep : (c : ℕ) (ds : Bytes) → is_digit c ≡ true → drop_eol c ds ≡ c ∷ ds
    keep c [] h = ground arith
    keep c (d ∷ ds) h = refl

pub parse_int64-format_nat : (n : ℕ) → n < cutoff → parse_int64 (format_nat n) ≡ some (pos n)
parse_int64-format_nat n h = unfold format_int in parse_int64-format_int (pos n) h

pub read_int-format_nat :
    (n : ℕ) (t : Bytes) → n < cutoff → read_int (format_nat n ++ (crlf ++ t)) ≡ got (pos n) t
unfolding read_int read_line
read_int-format_nat n t h =
    rw (read_string-digits (format_nat n) t (format_nat-All n))
      (rw (trim_end-digits (format_nat n) (format_nat-All n), parse_int64-format_nat n h))

pub take-length : (s t : Bytes) → take (length s) (s ++ t) ≡ s
take-length [] t = refl
take-length (c ∷ s) t = ap (λ x. c ∷ x) (take-length s t)

drop-length : (s t : Bytes) → drop (length s) (s ++ t) ≡ t
drop-length [] t = refl
drop-length (c ∷ s) t = drop-length s t

read_full-length : (s t : Bytes) → read_full (length s) (s ++ t) ≡ got s t
unfolding read_full
read_full-length [] t = refl
read_full-length (c ∷ s) t = ground (arith, length-append s t, take-length s t, drop-length s t)

-- A string that Go can allocate.
abbrev pub Fits : Bytes → Type 0
Fits s = length s ≤ max_alloc

pub read_bulk-bulk_string : (s t : Bytes) → Fits s → read_bulk (bulk_string s ++ t) ≡ got s t
unfolding read_bulk bulk_string
read_bulk-bulk_string s t h =
    let fits : leb (length s) max_alloc ≡ true = ground arith in
    rw (append_assoc (format_nat (length s)) (crlf ++ (s ++ crlf)) t) (
      rw (read_int-format_nat (length s) ((s ++ crlf) ++ t) (omega arith))
        (rw (append_assoc s crlf t, fits) (rw (read_full-length s (crlf ++ t)))))

read_bulks-bulk_strings :
    (args : List Bytes) (t : Bytes)
    → All Fits args
    → read_bulks (length args) (bulk_strings args ++ t) ≡ got args t
unfolding read_bulks bulk_strings
read_bulks-bulk_strings [] t h = refl
read_bulks-bulk_strings (a ∷ args) t (h, hs) =
    rw (append_assoc (bulk_string a) (bulk_strings args) t) (
      rw (read_bulk-bulk_string a (bulk_strings args ++ t) h)
        (rw (read_bulks-bulk_strings args t hs)))

-- A command of at most 2^44 arguments that fit in memory, written as an array of bulk strings, is
-- read back as it was, and what follows it in the stream is left for the next read.
pub read_command-string_array :
    (args : List Bytes) (t : Bytes)
    → All Fits args
    → length args ≤ 2 ^ 44
    → read_command (string_array args ++ t) ≡ got args t
unfolding read_command string_array array_header
read_command-string_array args t h few =
    let small : leb (length args) (2 ^ 44) ≡ true = ground arith in
    rw
      (
        append_assoc (format_nat (length args) ++ crlf) (bulk_strings args) t,
        append_assoc (format_nat (length args)) crlf (bulk_strings args ++ t),
      )
      (rw (read_int-format_nat (length args) (bulk_strings args ++ t) (omega arith))
        (rw small (read_bulks-bulk_strings args t h)))
