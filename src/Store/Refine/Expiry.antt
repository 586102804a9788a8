-- ===== src/Store/Refine/Expiry.antt =====
-- Entries with a deadline: what a reader sees of them later (internal/store/store.go).
use voltkv.Base.{
  ℕ, ◌≤◌, ◌≡◌, true, false, none, some, if◌then◌else◌, Bytes, bytes_eq_iff, bytes_eq_refl, arith,
}
use voltkv.Base.Int.{pos, ◌+ℤ◌, ◌≤ℤ◌}
use voltkv.Store.Time.{Time, Duration, is_positive, scale, second, after}
use voltkv.Store.Entry.{string_entry, expired, ok}
use voltkv.Store.Shards.{Store, get_live, entry_at}
use voltkv.Store.Shards.Valid.{IsValid}
use voltkv.Store.Shards.Laws.{entry_at-write, entry_at-remove}
use voltkv.Store.Strings
use voltkv.Store.Refine.Traces.{if_live-if_live}

-- What a `Get` at `now` of the entry `o` returns to a client.
module _ {s : Store} (v : IsValid s) (k : Bytes) (value : Bytes) (d : Duration) (t now : Time) where
  -- After a `Set` with no duration, `Get` returns the value at any time.
  pub get-set_plain :
      is_positive d ≡ false → (Strings.get k now (Strings.set k value d t s)).1 ≡ ok (some value)
  unfolding Strings.get Strings.set string_entry expired
  get-set_plain h = ground (arith, entry_at-write v k k (string_entry value d t), bytes_eq_refl k)

  -- After a `Set` with a positive duration at `t`, `Get` returns the value up to the deadline `t + d`
  -- and nothing after it, if the deadline lies after the zero time.
  pub get-set_timed :
      is_positive d ≡ true
      → pos 1 ≤ℤ t +ℤ d
      → (Strings.get k now (Strings.set k value d t s)).1
        ≡ ok (if after now (t +ℤ d) then none else some value)
  unfolding Strings.get Strings.set string_entry expired
  get-set_timed h late =
      ground (arith, entry_at-write v k k (string_entry value d t), bytes_eq_refl k)

-- The clean-up that `Get` does in a second critical section, at any later state of the store: no key
-- that is live then or later is lost.
pub lazy_delete-get_live :
    {s : Store} (v : IsValid s) (k j : Bytes) (now later : Time)
    → now ≤ℤ later
    → get_live (Strings.lazy_delete k now s) j later ≡ get_live s j later
unfolding Strings.lazy_delete get_live
lazy_delete-get_live {s} v k j now later h =
    ground
      (arith, entry_at-remove v k j, if_live-if_live (entry_at s k) now later h, bytes_eq_iff k j)

-- An amount of seconds in this range does not fit a duration: the product wraps around to a
-- negative one.
pub scale_wraps :
    (n : ℕ) → 9223372037 ≤ n → n ≤ 18446744073 → is_positive (scale (pos n) second) ≡ false
unfolding scale
scale_wraps n low high = ground arith
