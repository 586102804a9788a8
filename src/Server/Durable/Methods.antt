-- ===== src/Server/Durable/Methods.antt =====
-- The methods of the store that commands change it by, as calls (internal/store/store.go).
use voltkv.Base.{◌<◌, ℕ, ◌≡◌, refl, Bool, false, Option, List, length, Bytes}
use voltkv.Base.Int.{ℤ}
use voltkv.Store.Time.{Time, Duration, is_positive}
use voltkv.Store.Shards.{Store}
use voltkv.Store.Entry.{Result, err, wrong_type}
use voltkv.Store.Strings
use voltkv.Store.Generic
use voltkv.Store.Hashes
use voltkv.Store.Lists
use voltkv.Store.Refine.{
  Call, Reply, run, done, flag, number, text, integer, set, set_nx, set_xx, append, get_set,
  incr_by, del, persist, h_set, h_del, l_pop, r_pop, l_push, r_push,
}
use voltkv.Store.Refine.Typed.{IsProper}
use voltkv.Store.Refine.Untimed.{IsUntimed}
use voltkv.Command.Strings.{plain_set}
use voltkv.Server.Durable.Calls.{Calls}

un_flag : Reply → Bool
un_flag (flag b) = b
un_flag _ = false

un_number : Reply → Result ℕ
un_number (number r) = r
un_number _ = err wrong_type

un_text : Reply → Result (Option Bytes)
un_text (text r) = r
un_text _ = err wrong_type

un_integer : Reply → Result ℤ
un_integer (integer r) = r
un_integer _ = err wrong_type

-- A method that is the call `c` on `k`, whose reply holds the result under `forth`.
called :
    {A : Type 0} (c : Call) (k : Bytes) (f : Time → Store → Store × A) (forth : A → Reply)
    (back : Reply → A)
    → ((a : A) → back (forth a) ≡ a)
    → IsProper c
    → IsUntimed c
    → ((now : Time) (s : Store) → (run c k now s).0 ≡ (f now s).0)
    → ((now : Time) (s : Store) → (run c k now s).1 ≡ forth (f now s).1)
    → Calls f c forth
called c k f forth back round p u stores replies = record {
  key = k;
  back = back;
  round = round;
  proper = p;
  untimed = u;
  stores = stores;
  replies = replies;
}

module _ (k : Bytes) where
  pub set-Calls :
      (v : Bytes) (d : Duration)
      → is_positive d ≡ false
      → Calls (plain_set k v d) (set v d) (λ a. done)
  unfolding run
  set-Calls v d u =
      called (set v d) k _ (λ a. done) (λ r. tt) (λ a. refl) tt u (λ now s. refl) (λ now s. refl)

  pub set_nx-Calls :
      (v : Bytes) (d : Duration)
      → is_positive d ≡ false
      → Calls (Strings.set_nx k v d) (set_nx v d) flag
  unfolding run un_flag
  set_nx-Calls v d u =
      called (set_nx v d) k _ flag un_flag (λ a. refl) tt u (λ now s. refl) (λ now s. refl)

  pub set_xx-Calls :
      (v : Bytes) (d : Duration)
      → is_positive d ≡ false
      → Calls (Strings.set_xx k v d) (set_xx v d) flag
  unfolding run un_flag
  set_xx-Calls v d u =
      called (set_xx v d) k _ flag un_flag (λ a. refl) tt u (λ now s. refl) (λ now s. refl)

  pub append-Calls : (x : Bytes) → Calls (Strings.append k x) (append x) number
  unfolding run un_number
  append-Calls x =
      called (append x) k _ number un_number (λ a. refl) tt tt (λ now s. refl) (λ now s. refl)

  pub get_set-Calls : (v : Bytes) → Calls (Strings.get_set k v) (get_set v) text
  unfolding run un_text
  get_set-Calls v =
      called (get_set v) k _ text un_text (λ a. refl) tt tt (λ now s. refl) (λ now s. refl)

  pub incr_by-Calls : (d : ℤ) → Calls (Strings.incr_by k d) (incr_by d) integer
  unfolding run un_integer
  incr_by-Calls d =
      called (incr_by d) k _ integer un_integer (λ a. refl) tt tt (λ now s. refl) (λ now s. refl)

  pub del-Calls : Calls (Generic.del k) del flag
  unfolding run un_flag
  del-Calls = called del k _ flag un_flag (λ a. refl) tt tt (λ now s. refl) (λ now s. refl)

  pub persist-Calls : Calls (Generic.persist k) persist flag
  unfolding run un_flag
  persist-Calls = called persist k _ flag un_flag (λ a. refl) tt tt (λ now s. refl) (λ now s. refl)

  pub h_set-Calls :
      (ps : List (Bytes × Bytes)) → 0 < length ps → Calls (Hashes.h_set k ps) (h_set ps) number
  unfolding run un_number
  h_set-Calls ps h =
      called (h_set ps) k _ number un_number (λ a. refl) h tt (λ now s. refl) (λ now s. refl)

  pub h_del-Calls : (fs : List Bytes) → Calls (Hashes.h_del k fs) (h_del fs) number
  unfolding run un_number
  h_del-Calls fs =
      called (h_del fs) k _ number un_number (λ a. refl) tt tt (λ now s. refl) (λ now s. refl)

  pub l_pop-Calls : Calls (Lists.l_pop k) l_pop text
  unfolding run un_text
  l_pop-Calls = called l_pop k _ text un_text (λ a. refl) tt tt (λ now s. refl) (λ now s. refl)

  pub r_pop-Calls : Calls (Lists.r_pop k) r_pop text
  unfolding run un_text
  r_pop-Calls = called r_pop k _ text un_text (λ a. refl) tt tt (λ now s. refl) (λ now s. refl)

  pub l_push-Calls :
      (vs : List Bytes) → 0 < length vs → Calls (Lists.l_push k vs) (l_push vs) number
  unfolding run un_number
  l_push-Calls vs h =
      called (l_push vs) k _ number un_number (λ a. refl) h tt (λ now s. refl) (λ now s. refl)

  pub r_push-Calls :
      (vs : List Bytes) → 0 < length vs → Calls (Lists.r_push k vs) (r_push vs) number
  unfolding run un_number
  r_push-Calls vs h =
      called (r_push vs) k _ number un_number (λ a. refl) h tt (λ now s. refl) (λ now s. refl)
