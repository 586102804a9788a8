-- ===== src/Store/Generic.antt =====
-- The methods on keys of any kind (internal/store/store.go).
use voltkv.Base.{Bool, true, false, not, Option, none, some, is_some, if◌then◌else◌, Bytes}
use voltkv.Store.Time.{Time, Duration, zero_time, is_zero, add, until}
use voltkv.Store.Entry.{Entry, Kind, kind_none, expired}
use voltkv.Store.Shards.{Store, entry_at, get_live, write, remove}

-- `existed && !e.expired(now)`.
abbrev pub is_live_at : Option Entry → Time → Bool
is_live_at none now = false
is_live_at (some e) now = not (expired e now)

-- `Del`.
unfoldable pub del : Bytes → Time → Store → Store × Bool
del key now s = (remove s key, is_live_at (entry_at s key) now)

-- `Exists`.
unfoldable pub exists : Bytes → Time → Store → Bool
exists key now s = is_some (get_live s key now)

-- `Type`.
unfoldable pub type_of : Bytes → Time → Store → Kind
type_of key now s = elim (get_live s key now) [ none ↦ kind_none | some e ↦ e.kind ]

-- `Expire`.
unfoldable pub expire : Bytes → Duration → Time → Store → Store × Bool
expire key ttl now s = elim (get_live s key now) [
  | none ↦ (s, false)
  | some e ↦ (write s key (record e { expires_at = add now ttl }), true)
]

-- `Persist`.
unfoldable pub persist : Bytes → Time → Store → Store × Bool
persist key now s = elim (get_live s key now) [
  | none ↦ (s, false)
  | some e ↦
      if is_zero e.expires_at
      then (s, false)
      else (write s key (record e { expires_at = zero_time }), true)
]

-- The three results of `TTL`: no key, no expiry, or the time that is left.
pub data Remaining : Type 0 where
  no_key no_expiry : Remaining
  left : Duration → Remaining

-- `TTL`, which reads the clock again, at `later`, for the time that is left.
unfoldable pub ttl : Bytes → Time → Time → Store → Remaining
ttl key now later s = elim (get_live s key now) [
  | none ↦ no_key
  | some e ↦ if is_zero e.expires_at then no_expiry else left (until e.expires_at later)
]
