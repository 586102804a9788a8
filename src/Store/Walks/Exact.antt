-- ===== src/Store/Walks/Exact.antt =====
-- What KEYS lists and DBSIZE counts (internal/store/store.go).
use voltkv.Base.{
  ◌≡◌, refl, ap, sym, ◌∙◌, Bool, true, false, ◌&&◌, Option, none, some, List, [], ◌∷◌, length,
  length-append, is_some, Bytes, codes, arith, bytes_eq_iff, bytes_eq_refl,
}
use voltkv.Base.Dict.{lookup, Distinct}
use voltkv.Glob.{glob_match}
use voltkv.Store.Time.{Time}
use voltkv.Store.Entry.{Entry}
use voltkv.Store.Generic.{exists, is_live_at}
use voltkv.Store.Shards.{Store, Shard, shard_index, shard_for, entry_at, get_live, if_live}
use voltkv.Store.Shards.Valid.{IsValid}
use voltkv.Store.Walks.{gather, matching_keys, keys, live_count, total, db_size}
use voltkv.Store.Walks.Listed.{contains, NoRepeats, contains-gather, gather-NoRepeats}

live-if_live : (o : Option Entry) (now : Time) → is_live_at o now ≡ is_some (if_live o now)
live-if_live none now = refl
live-if_live (some e) now = ground arith

module _ (pattern : Bytes) (now : Time) where
  -- Whether KEYS lists a key, by what its shard holds for it.
  listed : Bytes → Option Entry → Bool
  listed k o = is_live_at o now && glob_match pattern k

  absent-matching_keys :
      (k : Bytes) (sh : Shard)
      → lookup k sh ≡ none
      → contains (matching_keys pattern now sh) k ≡ false
  unfolding lookup matching_keys
  absent-matching_keys k [] h = refl
  absent-matching_keys k ((j, e) ∷ sh) h = ground (arith, absent-matching_keys k sh)

  matching_keys-exact :
      (k : Bytes) (sh : Shard)
      → Distinct sh
      → contains (matching_keys pattern now sh) k ≡ listed k (lookup k sh)
  unfolding lookup matching_keys listed
  matching_keys-exact k [] d = refl
  matching_keys-exact k ((j, e) ∷ sh) (f, d) = ground (
    arith,
    matching_keys-exact k sh d,
    absent-matching_keys k sh,
    bytes_eq_iff j k,
    bytes_eq_refl j,
  )

  matching_keys-NoRepeats : (sh : Shard) → Distinct sh → NoRepeats (matching_keys pattern now sh)
  unfolding matching_keys
  matching_keys-NoRepeats [] d = tt
  matching_keys-NoRepeats ((j, e) ∷ sh) (f, d) =
      ground (arith, matching_keys-NoRepeats sh d, absent-matching_keys j sh f)

  -- KEYS lists a key exactly if the key is live and matches the pattern.
  pub contains-keys :
      {s : Store} (v : IsValid s) (k : Bytes)
      → contains (keys pattern now s) k ≡ (exists k now s && glob_match pattern k)
  unfolding keys exists get_live entry_at shard_for listed
  contains-keys {s} v k =
      contains-gather s.mask (matching_keys pattern now) listed matching_keys-exact (λ j. refl)
        matching_keys-NoRepeats 0 (shard_index s.mask k) k s.shards v.homes (omega arith)
      ∙ ap (λ b. b && glob_match pattern k) (live-if_live _ now)

  -- KEYS lists no key twice.
  pub keys-NoRepeats : {s : Store} → IsValid s → NoRepeats (keys pattern now s)
  unfolding keys listed
  keys-NoRepeats {s} v =
      gather-NoRepeats s.mask (matching_keys pattern now) listed matching_keys-exact (λ j. refl)
        matching_keys-NoRepeats 0 s.shards v.homes

pub glob_match_star : (k : Bytes) → glob_match (codes "*") k ≡ true
unfolding glob_match
glob_match_star k = refl

length-matching_keys :
    (now : Time) (sh : Shard) → length (matching_keys (codes "*") now sh) ≡ live_count now sh
unfolding matching_keys live_count
length-matching_keys now [] = refl
length-matching_keys now ((k, e) ∷ sh) =
    ground (arith, length-matching_keys now sh, glob_match_star k)

length-gather :
    (now : Time) (shards : List Shard)
    → length (gather (matching_keys (codes "*") now) shards) ≡ total (live_count now) shards
length-gather now [] = refl
length-gather now (sh ∷ shards) = omega (
  arith,
  length-append (matching_keys (codes "*") now sh) (gather (matching_keys (codes "*") now) shards),
  length-matching_keys now sh,
  length-gather now shards,
)

-- DBSIZE counts the keys that `KEYS *` lists.
pub db_size-keys : (now : Time) (s : Store) → db_size now s ≡ length (keys (codes "*") now s)
unfolding db_size keys
db_size-keys now s = sym (length-gather now s.shards)
