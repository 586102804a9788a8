-- ===== src/Store/Shards/Laws.antt =====
-- A shard's map through the whole store: what a key holds after an assignment or a deletion
-- (internal/store/store.go).
use voltkv.Base.{
  ◌≡◌, ◌≢◌, ap, none, some, [], if◌then◌else◌, Bytes, arith, bytes_eq, bytes_eq_ne, ◌==◌, ==_iff,
  get_or-set_self, get_or-set_ne, Bool-cases, inl, inr, false,
}
use voltkv.Base.Dict.{lookup-insert, lookup-erase}
use voltkv.Store.Entry.{Entry}
use voltkv.Store.Shards.{Store, Shard, shard_index, shard_for, entry_at, put_shard, write, remove}
use voltkv.Store.Shards.Valid.{IsValid, shard_index-lt}

module _ {s : Store} (v : IsValid s) (k j : Bytes) where
  same_shard :
      (sh : Shard)
      → shard_index s.mask k ≡ shard_index s.mask j
      → shard_for (put_shard s k sh) j ≡ sh
  unfolding shard_for
  same_shard sh e =
      rw (← e) (get_or-set_self s.shards (shard_index s.mask k) sh [] (shard_index-lt v k))

  other_shard :
      (sh : Shard)
      → shard_index s.mask k ≢ shard_index s.mask j
      → shard_for (put_shard s k sh) j ≡ shard_for s j
  unfolding shard_for
  other_shard sh d = get_or-set_ne s.shards _ _ sh [] d

  shard_for_eq : shard_index s.mask k ≡ shard_index s.mask j → shard_for s k ≡ shard_for s j
  unfolding shard_for
  shard_for_eq e = rw e

  other_key : shard_index s.mask k ≢ shard_index s.mask j → bytes_eq k j ≡ false
  other_key d = bytes_eq_ne k j (λ e. d (ap (shard_index s.mask) e))

  -- An assignment changes what its own key holds, and no other.
  pub entry_at-write :
      (e : Entry) → entry_at (write s k e) j ≡ (if bytes_eq k j then some e else entry_at s j)
  unfolding entry_at write
  entry_at-write e = elim (Bool-cases (shard_index s.mask k == shard_index s.mask j)) [
    | inl same ↦ let i = (==_iff _ _).0 same in rw (same_shard _ i, lookup-insert, shard_for_eq i)
    | inr differ ↦
        let d : shard_index s.mask k ≢ shard_index s.mask j = ground arith in
        rw (other_shard _ d, other_key d)
  ]

  -- A deletion empties its own key, and no other.
  pub entry_at-remove : entry_at (remove s k) j ≡ (if bytes_eq k j then none else entry_at s j)
  unfolding entry_at remove
  entry_at-remove = elim (Bool-cases (shard_index s.mask k == shard_index s.mask j)) [
    | inl same ↦ let i = (==_iff _ _).0 same in rw (same_shard _ i, lookup-erase, shard_for_eq i)
    | inr differ ↦
        let d : shard_index s.mask k ≢ shard_index s.mask j = ground arith in
        rw (other_shard _ d, other_key d)
  ]
