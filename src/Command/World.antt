-- ===== src/Command/World.antt =====
-- What a command reads and changes: the parts of `Deps` and `ConnState`, the reply written so far,
-- and the clock (internal/command/command.go).
use voltkv.Base.{
  ℕ, ◌+◌, Bool, Option, none, some, List, [], ◌∷◌, ◌++◌, if◌then◌else◌, Bytes, codes, leb, ◌-◌,
  ◌==◌, ◌&&◌,
}
use voltkv.Base.Int.{ℤ, pos}
use voltkv.Base.Dict.{Dict}
use voltkv.Resp
use voltkv.Store.Time.{Time, Duration}
use voltkv.Store.Entry.{Result, ok, err, error_text}
use voltkv.Store.Shards.{Store}
use voltkv.Pubsub.{Broker}

-- What `Stats` and `AOFInfo` report to INFO.
pub record Stats : Type 0 where
  pub uptime : Duration
  pub clients : ℤ
  pub commands : ℤ

pub record World : Type 0 where
  pub store : Store
  -- The commands sent to the log, in order; `none` if persistence is disabled.
  pub aof : Option (List (List Bytes))
  pub broker : Broker
  -- `ConnState.Subs`, and the subscriptions handed to `ConnState.Deliver`.
  pub subs : Dict ℕ
  pub delivering : List ℕ
  -- What was written to the client.
  pub out : Bytes
  -- What `time.Now()` returns at each of its calls, and how many were made.
  pub clock : ℕ → Time
  pub reads : ℕ
  pub stats : Option Stats
  pub aof_size : Option ℤ

-- The `error` of a handler: nil, or `resp.ErrEmptyCommand`. A write to the buffer of a client
-- returns nil here; its failure comes back from the flush behind the command.
pub data GoError : Type 0 where
  nil empty_command : GoError

-- A handler; `none` is a run-time panic.
abbrev pub M : Type 0 → Type 0
M A = World → Option (A × World)

infixl 5 ◌>>=◌ ◌>>◌
abbrev pub ◌>>=◌ : {A B : Type 0} → M A → (A → M B) → M B
◌>>=◌ m f w = elim (m w) [ none ↦ none | some (a, w') ↦ f a w' ]

abbrev pub ◌>>◌ : {A B : Type 0} → M A → M B → M B
m >> k = m >>= λ _. k

abbrev pub pure : {A : Type 0} → A → M A
pure a w = some (a, w)

-- A write to the client.
abbrev pub emit : Bytes → M GoError
emit bytes w = some (nil, record w { out = w.out ++ bytes })

-- `time.Now()`.
abbrev pub time_now : M Time
time_now w = some (w.clock w.reads, record w { reads = w.reads + 1 })

-- A method of the store, which reads the clock once.
abbrev pub store_call : {A : Type 0} → (Time → Store → Store × A) → M A
store_call f w =
    let (s, a) = f (w.clock w.reads) w.store in
    some (a, record w { store = s; reads = w.reads + 1 })

abbrev pub store_read : {A : Type 0} → (Time → Store → A) → M A
store_read f w = some (f (w.clock w.reads) w.store, record w { reads = w.reads + 1 })

abbrev pub logged : List Bytes → Option (List (List Bytes)) → Option (List (List Bytes))
logged args none = none
logged args (some cmds) = some (cmds ++ args ∷ [])

-- `appendAOF`.
abbrev pub append_aof : List Bytes → M (Unit {0})
append_aof args w = some (tt, record w { aof = logged args w.aof })

abbrev pub write_error : Bytes → M GoError
write_error msg = emit (Resp.error_reply msg)

abbrev pub write_integer : ℤ → M GoError
write_integer n = emit (Resp.integer_reply n)

abbrev pub write_simple : Bytes → M GoError
write_simple s = emit (Resp.simple_string s)

abbrev pub write_bulk : Bytes → M GoError
write_bulk s = emit (Resp.bulk_string s)

abbrev pub write_null : M GoError
write_null = emit Resp.null_reply

-- `argErr`.
abbrev pub arg_err : Bytes → M GoError
arg_err cmd = write_error (codes "ERR wrong number of arguments for '" ++ (cmd ++ codes "'"))

abbrev pub not_an_integer : Bytes
not_an_integer = codes "ERR value is not an integer or out of range"

abbrev pub syntax_error : Bytes
syntax_error = codes "ERR syntax error"

-- `if err != nil { return w.WriteError(err.Error()) }`, and the rest of a handler.
abbrev pub or_error : {A : Type 0} → Result A → (A → M GoError) → M GoError
or_error (ok a) f = f a
or_error (err e) f = write_error (error_text e)

-- A bulk string, or a null where there is none.
abbrev pub bulk_or_null : Option Bytes → M GoError
bulk_or_null none = write_null
bulk_or_null (some v) = write_bulk v

abbrev pub one_or_zero : Bool → M GoError
one_or_zero b = write_integer (if b then pos 1 else pos 0)

abbrev pub upper_byte : ℕ → ℕ
upper_byte c = if leb b'a' c && leb c b'z' then c - 32 else c

-- `strings.ToUpper`, as far as a comparison with an ASCII text shows: the ASCII letters, and the two
-- characters outside ASCII whose upper case is one, U+0131 and U+017F.
unfoldable pub to_upper : Bytes → Bytes
to_upper [] = []
to_upper (c ∷ []) = upper_byte c ∷ []
to_upper (c ∷ d ∷ s) =
    let two = to_upper s in
    let one = to_upper (d ∷ s) in
    if c == 0xc4 && d == 0xb1
    then b'I' ∷ two
    else if c == 0xc5 && d == 0xbf
    then b'S' ∷ two
    else upper_byte c ∷ one

abbrev pub lower_byte : ℕ → ℕ
lower_byte c = if leb b'A' c && leb c b'Z' then c + 32 else c

-- `strings.ToLower` of a command name, in which no other character changes.
unfoldable pub to_lower : Bytes → Bytes
to_lower [] = []
to_lower (c ∷ s) = lower_byte c ∷ to_lower s
