-- ===== src/Store/Sound.antt =====
-- The methods that change the store keep it valid and its entries well-typed, each as the command
-- layer calls it
-- (internal/store/store.go).
use voltkv.Base.{◌<◌, length, List, Bytes}
use voltkv.Base.Int.{ℤ}
use voltkv.Store.Time.{Time, Duration}
use voltkv.Store.Shards.{Store}
use voltkv.Store.Shards.Valid.{IsValid}
use voltkv.Store.Strings
use voltkv.Store.Generic
use voltkv.Store.Hashes
use voltkv.Store.Lists
use voltkv.Store.Refine.{
  set, set_nx, set_xx, get, str_len, del, persist, append, get_set, incr_by, expire, h_set, h_del,
  l_pop, r_pop, l_push, r_push, run,
}
use voltkv.Store.Walks.{flush_db}
use voltkv.Store.Walks.Sweep.{flush_db-IsValid, entry_at-flush_db}
use voltkv.Store.Refine.{Call}
use voltkv.Store.Refine.Typed.{IsProper}
use voltkv.Store.Refine.Typed.Stores.{HoldsTyped, run-HoldsTyped}
use voltkv.Store.Refine.Traces.{run-IsValid}

-- A change of the store that keeps what every store has to be.
pub record Changes (s s' : Store) : Type 0 where
  pub valid : IsValid s → IsValid s'
  pub typed : IsValid s → HoldsTyped s → HoldsTyped s'

pub record IsSound {A : Type 0} (f : Time → Store → Store × A) : Type 0 where
  pub at : (now : Time) (s : Store) → Changes s (f now s).0

run-Changes :
    (c : Call) (k : Bytes) (now : Time) (s : Store) → IsProper c → Changes s (run c k now s).0
run-Changes c k now s p = record {
  valid = λ v. run-IsValid v c k now;
  typed = λ v t. run-HoldsTyped v c k now p t;
}

pub flush_db-Changes : (s : Store) → Changes s (flush_db s)
flush_db-Changes s = record {
  valid = λ v. flush_db-IsValid v;
  typed = λ v t. record { at = λ k. rw (entry_at-flush_db s k) tt };
}

module _ (k : Bytes) where
  pub set-IsSound :
      (v : Bytes) (d : Duration) → IsSound {A = Unit {0}} (λ now s. (Strings.set k v d now s, tt))
  unfolding run
  set-IsSound v d = record { at = λ now s. run-Changes (set v d) k now s tt }

  pub set_nx-IsSound : (v : Bytes) (d : Duration) → IsSound (Strings.set_nx k v d)
  unfolding run
  set_nx-IsSound v d = record { at = λ now s. run-Changes (set_nx v d) k now s tt }

  pub set_xx-IsSound : (v : Bytes) (d : Duration) → IsSound (Strings.set_xx k v d)
  unfolding run
  set_xx-IsSound v d = record { at = λ now s. run-Changes (set_xx v d) k now s tt }

  pub get-IsSound : IsSound (Strings.get k)
  unfolding run
  get-IsSound = record { at = λ now s. run-Changes get k now s tt }

  pub str_len-IsSound : IsSound (Strings.str_len k)
  unfolding run
  str_len-IsSound = record { at = λ now s. run-Changes str_len k now s tt }

  pub get_set-IsSound : (v : Bytes) → IsSound (Strings.get_set k v)
  unfolding run
  get_set-IsSound v = record { at = λ now s. run-Changes (get_set v) k now s tt }

  pub append-IsSound : (x : Bytes) → IsSound (Strings.append k x)
  unfolding run
  append-IsSound x = record { at = λ now s. run-Changes (append x) k now s tt }

  pub incr_by-IsSound : (d : ℤ) → IsSound (Strings.incr_by k d)
  unfolding run
  incr_by-IsSound d = record { at = λ now s. run-Changes (incr_by d) k now s tt }

  pub del-IsSound : IsSound (Generic.del k)
  unfolding run
  del-IsSound = record { at = λ now s. run-Changes del k now s tt }

  pub expire-IsSound : (d : Duration) → IsSound (Generic.expire k d)
  unfolding run
  expire-IsSound d = record { at = λ now s. run-Changes (expire d) k now s tt }

  pub persist-IsSound : IsSound (Generic.persist k)
  unfolding run
  persist-IsSound = record { at = λ now s. run-Changes persist k now s tt }

  pub h_set-IsSound : (ps : List (Bytes × Bytes)) → 0 < length ps → IsSound (Hashes.h_set k ps)
  unfolding run
  h_set-IsSound ps h = record { at = λ now s. run-Changes (h_set ps) k now s h }

  pub h_del-IsSound : (fs : List Bytes) → IsSound (Hashes.h_del k fs)
  unfolding run
  h_del-IsSound fs = record { at = λ now s. run-Changes (h_del fs) k now s tt }

  pub l_pop-IsSound : IsSound (Lists.l_pop k)
  unfolding run
  l_pop-IsSound = record { at = λ now s. run-Changes l_pop k now s tt }

  pub r_pop-IsSound : IsSound (Lists.r_pop k)
  unfolding run
  r_pop-IsSound = record { at = λ now s. run-Changes r_pop k now s tt }

  pub l_push-IsSound : (vs : List Bytes) → 0 < length vs → IsSound (Lists.l_push k vs)
  unfolding run
  l_push-IsSound vs h = record { at = λ now s. run-Changes (l_push vs) k now s h }

  pub r_push-IsSound : (vs : List Bytes) → 0 < length vs → IsSound (Lists.r_push k vs)
  unfolding run
  r_push-IsSound vs h = record { at = λ now s. run-Changes (r_push vs) k now s h }
