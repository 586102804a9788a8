-- ===== src/Demo.antt =====
-- The client of the HTTP demo: what it asks the server, and what it shows of the replies
-- (cmd/httpdemo/main.go).
pub mod Pages
use voltkv.Base.{
  ℕ, ◌+◌, ◌==◌, ◌||◌, List, [], ◌∷◌, ◌++◌, length, take, leb, if◌then◌else◌, Bytes, bytes_eq, codes,
}
use voltkv.Base.Int.{ℤ, pos, negsuc}
use voltkv.Resp.{array_header, bulk_strings}
use voltkv.Resp.Reader.{Read, got, fail, panic, read_string, trim_end, max_alloc}

-- The text that `respCommand` sends.
unfoldable pub request : List Bytes → Bytes
request cmds = array_header (length cmds) ++ bulk_strings cmds

-- What `readReply` returns: a text or an error, or a panic of `make`.
pub data Reply : Type 0 where
  text : Bytes → Reply
  broken crashed : Reply

-- `make([]byte, n+2)` and `readFull` into it.
abbrev pub read_sized : ℤ → Bytes → Reply
read_sized (negsuc n) s = text (codes "$-1")
read_sized (pos n) s =
    if leb (n + 2) max_alloc
    then (if leb (n + 2) (length s) then text (take n s) else broken)
    else crashed

-- What `fmt.Sscanf(s, "%d", &n)` leaves in an `n` of 0 is the library's to say.
module _ (scan : Bytes → ℤ) where
  -- The `switch` on the first byte of a line.
  abbrev pub read_line_reply : Bytes → Bytes → Reply
  read_line_reply [] s = broken
  read_line_reply (c ∷ line) s =
      if c == b'+' || (c == b':' || c == b'-')
      then text (c ∷ line)
      else if c == b'$'
      then read_sized (scan line) s
      else text (c ∷ line)

  -- `readReply`.
  unfoldable pub read_reply : Bytes → Reply
  read_reply s = elim (read_string s) [
    | got line rest ↦ read_line_reply (trim_end line) rest
    | fail e ↦ broken
    | panic ↦ crashed
  ]

-- The answers to a browser, without the JSON around them; `crashed_page` is the connection that
-- net/http drops after a panic of a handler.
pub data Page : Type 0 where
  key_required failed crashed_page : Page
  replied : Bytes → Page
  found : Bytes → Bytes → Page
  not_found : Bytes → Page
  info : Bytes → Page

-- `strings.TrimPrefix(reply, "+")`.
abbrev pub trim_plus : Bytes → Bytes
trim_plus [] = []
trim_plus (c ∷ s) = if c == b'+' then s else c ∷ s

-- `writeJSONorErr`.
abbrev pub set_page : Reply → Page
set_page (text reply) = replied (trim_plus reply)
set_page broken = failed
set_page crashed = crashed_page

abbrev pub get_page : Bytes → Reply → Page
get_page key (text reply) = if bytes_eq reply (codes "$-1") then not_found key else found key reply
get_page key broken = failed
get_page key crashed = crashed_page

abbrev pub info_page : Reply → Page
info_page (text reply) = info reply
info_page broken = failed
info_page crashed = crashed_page

-- The handlers. `exchange` is what the server answers to a request.
module _ (scan : Bytes → ℤ) (exchange : Bytes → Bytes) where
  unfoldable pub handle_set : Bytes → Bytes → Page
  unfolding read_reply request
  handle_set [] value = key_required
  handle_set (c ∷ key) value =
      set_page (read_reply scan (exchange (request (codes "SET" ∷ (c ∷ key) ∷ value ∷ []))))

  unfoldable pub handle_get : Bytes → Page
  unfolding read_reply request
  handle_get [] = key_required
  handle_get (c ∷ key) =
      get_page (c ∷ key) (read_reply scan (exchange (request (codes "GET" ∷ (c ∷ key) ∷ []))))

  unfoldable pub handle_info : Page
  unfolding read_reply request
  handle_info = info_page (read_reply scan (exchange (request (codes "INFO" ∷ []))))
