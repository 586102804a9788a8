-- ===== src/Store/Shards.antt =====
-- The shards, and which of them holds a key (internal/store/store.go).
pub mod Valid
pub mod Laws
pub mod Keep
pub mod New
use Prim.Native.Nat.{bit_and, bit_xor}
use voltkv.Base.{
  ℕ, zero, suc, ◌+◌, ◌-◌, ◌*◌, ◌%◌, ◌^◌, ◌≡◌, ◌≤◌, Option, none, some, List, [], ◌∷◌, ltb, length,
  get_or, set, replicate, if◌then◌else◌, Bytes,
}
use voltkv.Base.Int.{ℤ, pos, negsuc}
use voltkv.Base.Dict
use voltkv.Base.Dict.{Dict}
use voltkv.Store.Time.{Time}
use voltkv.Store.Entry.{Entry, expired}

-- A shard is its map; its lock is what makes each method one step.
abbrev pub Shard : Type 0
Shard = Dict Entry

pub record Store : Type 0 where
  pub shards : List Shard
  pub mask : ℕ

-- `for p < n { p <<= 1 }`, on fuel.
pub doubled : ℕ → ℕ → ℕ → ℕ
doubled zero n p = p
doubled (suc f) n p = let next = doubled f n (p * 2) in if ltb p n then next else p

unfoldable pub next_pow2 : ℤ → ℕ
unfolding doubled
next_pow2 (negsuc n) = 1
next_pow2 (pos zero) = 1
next_pow2 (pos (suc n)) = doubled (suc n) (suc n) 1

-- `New`; the mask is a uint32.
unfoldable pub new : ℤ → Store
new shard_count =
    let n = next_pow2 shard_count in record { shards = replicate n []; mask = (n - 1) % 2 ^ 32 }

abbrev pub num_shards : Store → ℕ
num_shards s = length s.shards

-- The 32-bit FNV-1a hash of hash/fnv, from the state `h`.
unfoldable pub fnv_from : ℕ → Bytes → ℕ
fnv_from h [] = h
fnv_from h (c ∷ s) = fnv_from (bit_xor h c * 16777619 % 2 ^ 32) s

unfoldable pub fnv32a : Bytes → ℕ
unfolding fnv_from
fnv32a s = fnv_from 2166136261 s

-- `h.Sum32() & s.mask`.
unfoldable pub shard_index : ℕ → Bytes → ℕ
shard_index mask key = bit_and (fnv32a key) mask

-- `s.shards[...]`, which is in range in a store that `IsValid` describes.
unfoldable pub shard_for : Store → Bytes → Shard
shard_for s key = get_or s.shards (shard_index s.mask key) []

-- `sh.data[key]`.
unfoldable pub entry_at : Store → Bytes → Option Entry
unfolding shard_for
entry_at s key = Dict.lookup key (shard_for s key)

abbrev pub if_live : Option Entry → Time → Option Entry
if_live none now = none
if_live (some e) now = if expired e now then none else some e

unfoldable pub get_live : Store → Bytes → Time → Option Entry
get_live s key now = if_live (entry_at s key) now

abbrev pub put_shard : Store → Bytes → Shard → Store
put_shard s key sh = record s { shards = set s.shards (shard_index s.mask key) sh }

-- `sh.data[key] = e`.
unfoldable pub write : Store → Bytes → Entry → Store
unfolding shard_for
write s key e = put_shard s key (Dict.insert key e (shard_for s key))

-- `delete(sh.data, key)`.
unfoldable pub remove : Store → Bytes → Store
unfolding shard_for
remove s key = put_shard s key (Dict.erase key (shard_for s key))
