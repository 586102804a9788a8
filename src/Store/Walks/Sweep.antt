-- ===== src/Store/Walks/Sweep.antt =====
-- The sweeper and FLUSHDB (internal/store/store.go).
use voltkv.Base.{
  ℕ, zero, suc, ◌+◌, ◌≡◌, refl, ap, sym, ◌∙◌, none, List, [], ◌∷◌, map, length, get_or, Bytes,
  arith, bytes_eq_iff,
}
use voltkv.Base.Dict.{lookup, Distinct}
use voltkv.Store.Time.{Time}
use voltkv.Store.Shards.{Store, Shard, shard_index, shard_for, entry_at, get_live, if_live}
use voltkv.Store.Shards.Valid.{IsValid, AtHome, Homes}
use voltkv.Store.Shards.Keep.{shard_for-Homes}
use voltkv.Store.Walks.{swept, expired_count, sweep_expired, flush_db, total}

lookup-swept-absent :
    (now : Time) (k : Bytes) (sh : Shard) → lookup k sh ≡ none → lookup k (swept now sh) ≡ none
unfolding lookup swept
lookup-swept-absent now k [] h = refl
lookup-swept-absent now k ((j, e) ∷ sh) h = ground (arith, lookup-swept-absent now k sh)

lookup-swept :
    (now : Time) (k : Bytes) (sh : Shard)
    → Distinct sh
    → lookup k (swept now sh) ≡ if_live (lookup k sh) now
unfolding lookup swept
lookup-swept now k [] d = refl
lookup-swept now k ((j, e) ∷ sh) (f, d) =
    ground (arith, lookup-swept now k sh d, lookup-swept-absent now k sh, bytes_eq_iff j k)

swept-Distinct : (now : Time) (sh : Shard) → Distinct sh → Distinct (swept now sh)
unfolding swept
swept-Distinct now [] d = tt
swept-Distinct now ((k, e) ∷ sh) (f, d) =
    ground (arith, swept-Distinct now sh d, lookup-swept-absent now k sh f)

swept-AtHome :
    (now : Time) (mask i : ℕ) (sh : Shard) → AtHome mask i sh → AtHome mask i (swept now sh)
unfolding swept
swept-AtHome now mask i [] a = tt
swept-AtHome now mask i ((k, e) ∷ sh) (p, a) = ground (arith, swept-AtHome now mask i sh a)

length-map {ℓ} : {A B : Type ℓ} (f : A → B) (xs : List A) → length (map f xs) ≡ length xs
length-map f [] = refl
length-map f (x ∷ xs) = ap suc (length-map f xs)

get_or-map :
    (f : Shard → Shard) (n : ℕ) (shs : List Shard)
    → f [] ≡ []
    → get_or (map f shs) n [] ≡ f (get_or shs n [])
get_or-map f n [] e = sym e
get_or-map f zero (sh ∷ shs) e = refl
get_or-map f (suc n) (sh ∷ shs) e = get_or-map f n shs e

Homes-map :
    (mask i : ℕ) (f : Shard → Shard) (shs : List Shard)
    → ((sh : Shard) → Distinct sh → Distinct (f sh))
    → ((j : ℕ) (sh : Shard) → AtHome mask j sh → AtHome mask j (f sh))
    → Homes mask i shs
    → Homes mask i (map f shs)
Homes-map mask i f [] k l h = tt
Homes-map mask i f (sh ∷ shs) k l (d, a, h) = (k sh d, l i sh a, Homes-map mask (suc i) f shs k l h)

-- A pass over the shards that keeps them well formed keeps the store valid.
map-IsValid :
    {s : Store} (f : Shard → Shard)
    → ((sh : Shard) → Distinct sh → Distinct (f sh))
    → ((j : ℕ) (sh : Shard) → AtHome s.mask j sh → AtHome s.mask j (f sh))
    → IsValid s
    → IsValid (record s { shards = map f s.shards })
map-IsValid {s} f k l v = record {
  width = v.width;
  power = length-map f s.shards ∙ v.power;
  masked = v.masked;
  homes = Homes-map s.mask 0 f s.shards k l v.homes;
}

pub sweep_expired-IsValid : {s : Store} (now : Time) → IsValid s → IsValid (sweep_expired now s).0
unfolding sweep_expired
sweep_expired-IsValid {s} now v =
    map-IsValid {s = s} (swept now) (swept-Distinct now) (swept-AtHome now s.mask) v

pub flush_db-IsValid : {s : Store} → IsValid s → IsValid (flush_db s)
unfolding flush_db
flush_db-IsValid {s} v = map-IsValid {s = s} (λ sh. []) (λ sh d. tt) (λ j sh a. tt) v

-- After a sweep a key holds what was live at the sweep, and nothing else.
pub entry_at-sweep_expired :
    {s : Store} (v : IsValid s) (now : Time) (k : Bytes)
    → entry_at (sweep_expired now s).0 k ≡ get_live s k now
unfolding entry_at get_live sweep_expired shard_for
entry_at-sweep_expired {s} v now k =
    ap (lookup k) (get_or-map (swept now) (shard_index s.mask k) s.shards (unfold swept in refl))
    ∙ lookup-swept now k _ (unfold shard_for in (shard_for-Homes {s = s} v k).0)

pub entry_at-flush_db : (s : Store) (k : Bytes) → entry_at (flush_db s) k ≡ none
unfolding entry_at flush_db shard_for lookup
entry_at-flush_db s k = ap (lookup k) (get_or-map (λ sh. []) (shard_index s.mask k) s.shards refl)

length-swept : (now : Time) (sh : Shard) → length (swept now sh) + expired_count now sh ≡ length sh
unfolding swept expired_count
length-swept now [] = refl
length-swept now ((k, e) ∷ sh) = ground (arith, length-swept now sh)

-- Nothing is lost or counted twice: what stays and what the sweep reports add up to what was there.
pub total-sweep_expired :
    (now : Time) (s : Store)
    → total length (sweep_expired now s).0.shards + (sweep_expired now s).1 ≡ total length s.shards
unfolding sweep_expired
total-sweep_expired now s = go s.shards
  where
    go :
        (shs : List Shard)
        → total length (map (swept now) shs) + total (expired_count now) shs ≡ total length shs
    go [] = refl
    go (sh ∷ shs) = omega (arith, length-swept now sh, go shs)
