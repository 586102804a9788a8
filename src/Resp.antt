-- ===== src/Resp.antt =====
-- The RESP2 protocol (internal/resp/resp.go). A reader is the bytes that its connection still
-- delivers before the end of the stream; a writer is the bytes written.
pub mod Inline
pub mod Reader
pub mod RoundTrip
pub mod Torn
pub mod Progress
use voltkv.Base.{
  ℕ, Bool, true, false, Option, none, some, List, [], ◌∷◌, ◌++◌, length, if◌then◌else◌, Bytes,
  codes,
}
use voltkv.Base.Int.{ℤ}
use voltkv.Number.{format_int, format_nat}

abbrev pub crlf : Bytes
crlf = 13 ∷ 10 ∷ []

-- `WriteSimpleString`.
unfoldable pub simple_string : Bytes → Bytes
simple_string s = b'+' ∷ s ++ crlf

-- `WriteError`.
unfoldable pub error_reply : Bytes → Bytes
error_reply msg = b'-' ∷ msg ++ crlf

-- `WriteInteger` and `WriteInteger64`.
unfoldable pub integer_reply : ℤ → Bytes
integer_reply n = b':' ∷ format_int n ++ crlf

-- `WriteBulkString`.
unfoldable pub bulk_string : Bytes → Bytes
bulk_string s = b'$' ∷ format_nat (length s) ++ (crlf ++ (s ++ crlf))

-- `WriteNull`.
abbrev pub null_reply : Bytes
null_reply = codes "$-1" ++ crlf

-- `WriteNullArray`.
abbrev pub null_array : Bytes
null_array = codes "*-1" ++ crlf

-- `WriteArrayHeader`.
unfoldable pub array_header : ℕ → Bytes
array_header n = b'*' ∷ format_nat n ++ crlf

unfoldable pub bulk_strings : List Bytes → Bytes
bulk_strings [] = []
bulk_strings (s ∷ items) = bulk_string s ++ bulk_strings items

-- `WriteStringArray`.
unfoldable pub string_array : List Bytes → Bytes
string_array items = array_header (length items) ++ bulk_strings items

-- An element of `WriteNullableStringArray`: its text where `ok[i]` holds.
abbrev pub nullable : Option Bytes → Bytes
nullable none = null_reply
nullable (some s) = bulk_string s

unfoldable pub nullables : List (Option Bytes) → Bytes
nullables [] = []
nullables (o ∷ items) = nullable o ++ nullables items

-- `WriteNullableStringArray`.
unfoldable pub nullable_string_array : List (Option Bytes) → Bytes
nullable_string_array items = array_header (length items) ++ nullables items
