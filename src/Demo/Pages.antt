-- ===== src/Demo/Pages.antt =====
-- What the page of a GET shows (cmd/httpdemo/main.go).
use voltkv.Base.{
  ℕ, ◌+◌, ◌<◌, ◌≤◌, ◌^◌, ◌≡◌, ◌≢◌, ◌↔◌, refl, ap, ◌∙◌, [], ◌∷◌, ◌++◌, length, length-append, Bytes,
  bytes_eq, bytes_eq_iff, codes, arith, Bool-cases, inl, inr,
}
use voltkv.Base.Int.{ℤ, pos}
use voltkv.Number.{format_nat}
use voltkv.Number.RoundTrip.{format_nat-All}
use voltkv.Resp.RoundTrip.{AllDigits, read_string-digits, trim_end-digits, take-length}
use voltkv.Resp.{crlf, bulk_string}
use voltkv.Resp.Reader.{read_string, got, drop_eol, trim_end}
use voltkv.Demo.{request, text, read_sized, read_reply, found, get_page, handle_get}

sign_read :
    (ds t : Bytes)
    → AllDigits ds
    → read_string (b'$' ∷ ds ++ (crlf ++ t)) ≡ got (b'$' ∷ ds ++ crlf) t
unfolding read_string
sign_read ds t h = rw (read_string-digits ds t h) refl

kept_sign : (ds : Bytes) → drop_eol b'$' ds ≡ b'$' ∷ ds
kept_sign [] = refl
kept_sign (d ∷ ds) = refl

sign_trimmed : (ds : Bytes) → AllDigits ds → trim_end (b'$' ∷ ds ++ crlf) ≡ b'$' ∷ ds
unfolding trim_end
sign_trimmed ds h = ap (drop_eol b'$') (trim_end-digits ds h) ∙ kept_sign ds

sized_whole :
    (v t : Bytes) → length v + 2 ≤ 2 ^ 48 → read_sized (pos (length v)) (v ++ (crlf ++ t)) ≡ text v
sized_whole v t h =
    ground (arith, length-append v (crlf ++ t), length-append crlf t, take-length v (crlf ++ t))

-- The page of a text.
shown_iff : (key v : Bytes) → (get_page key (text v) ≡ found key v) ↔ (v ≢ codes "$-1")
shown_iff key v = elim (Bool-cases (bytes_eq v (codes "$-1"))) [
  | inl e ↦ rw e (λ h. absurd (cc), λ h. absurd (h ((bytes_eq_iff v (codes "$-1")).0 e)))
  | inr e ↦ rw e (λ h q. absurd (ground (arith, e, (bytes_eq_iff v (codes "$-1")).1 q)), λ h. refl)
]

module _ (scan : Bytes → ℤ) (scan_nat : (n : ℕ) → n < 2 ^ 63 → scan (format_nat n) ≡ pos n) where
  -- A bulk string is read as it was sent.
  read_reply-bulk_string :
      (v : Bytes) → length v + 2 ≤ 2 ^ 48 → read_reply scan (bulk_string v) ≡ text v
  unfolding read_reply bulk_string
  read_reply-bulk_string v h =
      let digits = format_nat-All (length v) in
      rw (sign_read (format_nat (length v)) (v ++ crlf) digits, read_reply)
        (rw (sign_trimmed (format_nat (length v)) digits, scan_nat (length v) (omega arith))
          (sized_whole v [] h))

  -- With a key asked for, a server that answers with a value of fewer than 2 ^ 48 - 1 bytes, and a
  -- `Sscanf` that reads a number back from its digits, the page shows the value as found exactly if
  -- the value is not the text `$-1`.
  pub handle_get_iff :
      (exchange : Bytes → Bytes) (c : ℕ) (key v : Bytes)
      → exchange (request (codes "GET" ∷ (c ∷ key) ∷ [])) ≡ bulk_string v
      → length v + 2 ≤ 2 ^ 48
      → (handle_get scan exchange (c ∷ key) ≡ found (c ∷ key) v) ↔ (v ≢ codes "$-1")
  unfolding handle_get
  handle_get_iff exchange c key v e h = rw (e, read_reply-bulk_string v h) (shown_iff (c ∷ key) v)
