-- ===== src/Store/Refine/Steps/Shapes.antt =====
-- What a method may do to the store, and the shapes of the methods (internal/store/store.go).
use voltkv.Base.{◌≡◌, refl, sym, Bool, true, false, not, none, some, if◌then◌else◌, Bytes}
use voltkv.Store.Time.{Time}
use voltkv.Store.Entry.{Entry, Result, ok, err, wrong_type}
use voltkv.Store.Shards.{Store, get_live, write, remove}
use voltkv.Store.Refine.{Call, Reply, run, Cell, promise, with_reply}

-- The three things that a method may do to the store, and what they make of the key's cell.
pub data Effect (s : Store) (k : Bytes) (now : Time) (s' : Store) (o : Cell) : Type 0 where
  kept : s' ≡ s → o ≡ get_live s k now → Effect s k now s' o
  wrote : (e : Entry) → s' ≡ write s k e → o ≡ some e → Effect s k now s' o
  removed : s' ≡ remove s k → o ≡ none → Effect s k now s' o

-- The run of a call follows what is promised of it.
pub record Follows (s : Store) (k : Bytes) (now : Time) (r : Store × Reply) (p : Cell × Reply)
    : Type 0 where
  pub effect : Effect s k now r.0 p.0
  pub reply : r.1 ≡ p.1

module _ (s : Store) (k : Bytes) (now : Time) where
  -- The shape of a method that wants one kind of entry.
  pub typed-Follows :
      {A : Type 0} (e : Entry) (b : Bool) (f : Result A → Reply) (body : Store × Result A)
      (p : Cell × Reply)
      → get_live s k now ≡ some e
      → Follows s k now (with_reply f body) p
      → Follows s k now
          (with_reply f (if not b then (s, err wrong_type) else body))
          (if b then p else (some e, f (err wrong_type)))
  typed-Follows e true f body p h follows = follows
  typed-Follows e false f body p h follows = record { effect = kept refl (sym h); reply = refl }

  -- The shape of a method that only reads one kind of entry.
  pub read-Follows :
      {A : Type 0} (e : Entry) (b : Bool) (f : Result A → Reply) (a : A)
      → get_live s k now ≡ some e
      → Follows s k now
          (s, f (if not b then err wrong_type else ok a))
          (if b then (some e, f (ok a)) else (some e, f (err wrong_type)))
  read-Follows e true f a h = record { effect = kept refl (sym h); reply = refl }
  read-Follows e false f a h = record { effect = kept refl (sym h); reply = refl }

  -- A run of `c` follows its promise.
  abbrev pub Runs : Call → Type 0
  Runs c = Follows s k now (run c k now s) (promise c now (get_live s k now))
