-- ===== src/Store/Shards/Valid.antt =====
-- What holds of every store that `New` built and the methods changed (internal/store/store.go).
use Prim.Native.Nat.{bit_and}
use native.Mathlib.Nat.{mod-lt, one-le-pow}
use voltkv.Base.{ℕ, suc, ◌+◌, ◌%◌, ◌^◌, ◌≡◌, ◌<◌, ap, sym, ◌∙◌, List, [], ◌∷◌, length, Bytes, arith}
use voltkv.Base.Dict
use voltkv.Base.Dict.{Dict}
use voltkv.Base.Bits.{bit_and_mask}
use voltkv.Store.Shards.{Store, Shard, fnv32a, shard_index}

-- Every key of the shard belongs to shard number `i`.
abbrev pub AtHome : ℕ → ℕ → Shard → Type 0
AtHome mask i [] = Unit
AtHome mask i ((k, e) ∷ sh) = (shard_index mask k ≡ i) × AtHome mask i sh

-- The shards from number `i` on hold their own keys, each once.
abbrev pub Homes : ℕ → ℕ → List Shard → Type 0
Homes mask i [] = Unit
Homes mask i (sh ∷ shs) = Dict.Distinct sh × AtHome mask i sh × Homes mask (suc i) shs

pub record IsValid (s : Store) : Type 0 where
  pub width : ℕ
  pub power : length s.shards ≡ 2 ^ width
  pub masked : s.mask + 1 ≡ 2 ^ width
  pub homes : Homes s.mask 0 s.shards

-- The bit-mask picks the shard that the remainder by the number of shards would pick.
pub shard_index-mod :
    {s : Store} (v : IsValid s) (key : Bytes)
    → shard_index s.mask key ≡ fnv32a key % length s.shards
unfolding shard_index
shard_index-mod {s} v key =
    ap (bit_and (fnv32a key)) (omega (arith, v.masked))
    ∙ bit_and_mask v.width (fnv32a key)
    ∙ ap (λ (n : ℕ). fnv32a key % n) (sym v.power)

pub shard_index-lt :
    {s : Store} (v : IsValid s) (key : Bytes) → shard_index s.mask key < length s.shards
shard_index-lt {s} v key =
    rw (shard_index-mod v key)
      (mod-lt (fnv32a key) (rw v.power (one-le-pow v.width 2 (omega arith))))
