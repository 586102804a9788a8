-- ===== src/Store/Shards/Keep.antt =====
-- Assignments and deletions keep a store valid (internal/store/store.go).
use voltkv.Base.{
  ℕ, zero, suc, ◌+◌, ◌≡◌, refl, subst, ◌∙◌, List, [], ◌∷◌, get_or, set, Bytes, arith, length-set,
}
use voltkv.Base.Dict
use voltkv.Base.Dict.{Dict, insert-Distinct, erase-Distinct}
use voltkv.Store.Entry.{Entry}
use voltkv.Store.Shards.{Store, Shard, shard_index, shard_for, put_shard, write, remove}
use voltkv.Store.Shards.Valid.{IsValid, AtHome, Homes}

module _ (mask : ℕ) where
  insert-AtHome :
      (i : ℕ) (k : Bytes) (e : Entry) (sh : Shard)
      → shard_index mask k ≡ i
      → AtHome mask i sh
      → AtHome mask i (Dict.insert k e sh)
  unfolding Dict.insert
  insert-AtHome i k e [] p h = (p, tt)
  insert-AtHome i k e ((j, x) ∷ sh) p (q, h) = ground (arith, insert-AtHome i k e sh p h)

  erase-AtHome :
      (i : ℕ) (k : Bytes) (sh : Shard) → AtHome mask i sh → AtHome mask i (Dict.erase k sh)
  unfolding Dict.erase
  erase-AtHome i k [] h = tt
  erase-AtHome i k ((j, x) ∷ sh) (q, h) = ground (arith, erase-AtHome i k sh h)

  -- What the shard in place `n` of those from number `i` on satisfies.
  Homes-get :
      (i n m : ℕ) (shs : List Shard)
      → i + n ≡ m
      → Homes mask i shs
      → Dict.Distinct (get_or shs n []) × AtHome mask m (get_or shs n [])
  Homes-get i n m [] e h = (tt, tt)
  Homes-get i zero m (sh ∷ shs) e (d, a, h) =
      let e' : i ≡ m = omega arith in (d, subst (λ x. AtHome mask x sh) e' a)
  Homes-get i (suc n) m (sh ∷ shs) e (d, a, h) = Homes-get (suc i) n m shs (omega arith) h

  Homes-set :
      (i n m : ℕ) (sh : Shard) (shs : List Shard)
      → i + n ≡ m
      → Dict.Distinct sh
      → AtHome mask m sh
      → Homes mask i shs
      → Homes mask i (set shs n sh)
  Homes-set i n m x [] e d a h = tt
  Homes-set i zero m x (sh ∷ shs) e d a h =
      let e' : m ≡ i = omega arith in (d, subst (λ y. AtHome mask y x) e' a, h.2)
  Homes-set i (suc n) m x (sh ∷ shs) e d a h =
      (h.0, h.1, Homes-set (suc i) n m x shs (omega arith) d a h.2)

module _ {s : Store} (v : IsValid s) (k : Bytes) where
  pub shard_for-Homes :
      Dict.Distinct (shard_for s k) × AtHome s.mask (shard_index s.mask k) (shard_for s k)
  unfolding shard_for
  shard_for-Homes = Homes-get s.mask 0 _ _ s.shards (omega arith) v.homes

  put_shard-IsValid :
      (sh : Shard)
      → Dict.Distinct sh
      → AtHome s.mask (shard_index s.mask k) sh
      → IsValid (put_shard s k sh)
  put_shard-IsValid sh d a = record {
    width = v.width;
    power = length-set s.shards _ sh ∙ v.power;
    masked = v.masked;
    homes = Homes-set s.mask 0 _ _ sh s.shards (omega arith) d a v.homes;
  }

  pub write-IsValid : (e : Entry) → IsValid (write s k e)
  unfolding write
  write-IsValid e =
      let (d, a) = shard_for-Homes in
      put_shard-IsValid _ (insert-Distinct k e _ d) (insert-AtHome s.mask _ k e _ refl a)

  pub remove-IsValid : IsValid (remove s k)
  unfolding remove
  remove-IsValid =
      let (d, a) = shard_for-Homes in
      put_shard-IsValid _ (erase-Distinct k _ d) (erase-AtHome s.mask _ k _ a)
