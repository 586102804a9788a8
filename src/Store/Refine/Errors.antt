-- ===== src/Store/Refine/Errors.antt =====
-- Calls that fail (internal/store/store.go).
use voltkv.Base.{◌≡◌, refl, Bool, true, false, none, some, Bytes, bytes_eq_iff, arith}
use voltkv.Store.Time.{Time}
use voltkv.Store.Entry.{Entry, Kind, Result, ok, err}
use voltkv.Store.Shards.{Store, get_live}
use voltkv.Store.Shards.Valid.{IsValid}
use voltkv.Store.Shards.Laws.{entry_at-write, entry_at-remove}
use voltkv.Store.Refine.{
  Call, incr_by, Reply, done, flag, text, number, integer, strings, test, kind, remaining, run,
  Cell, promise, on_absent, on_entry, typed,
}
use voltkv.Store.Refine.Steps.Shapes.{Effect, kept, wrote, removed}
use voltkv.Store.Refine.Steps.{run-Follows}

abbrev pub is_err {ℓ} : {A : Type ℓ} → Result A → Bool
is_err (ok a) = false
is_err (err e) = true

-- The replies that a client gets as an error.
abbrev pub is_error : Reply → Bool
is_error done = false
is_error (flag b) = false
is_error (text r) = is_err r
is_error (number r) = is_err r
is_error (integer r) = is_err r
is_error (strings r) = is_err r
is_error (test r) = is_err r
is_error (kind k) = false
is_error (remaining r) = false

typed_error :
    {A : Type 0} (k : Kind) (f : Result A → Reply) (e : Entry) (p : Cell × Reply)
    → (is_error p.1 ≡ true → p.0 ≡ some e)
    → is_error (typed k f e p).1 ≡ true
    → (typed k f e p).0 ≡ some e
typed_error k f e p h x = ground arith

absent_error :
    (c : Call) (now : Time) → is_error (on_absent c now).1 ≡ true → (on_absent c now).0 ≡ none
unfolding on_absent
absent_error (incr_by d) now h = ground arith
absent_error _ now h = cc

entry_error :
    (c : Call) (now : Time) (e : Entry)
    → is_error (on_entry c now e).1 ≡ true
    → (on_entry c now e).0 ≡ some e
unfolding on_entry
entry_error (incr_by d) now e h = ground arith
entry_error _ now e h = ground arith

promise_error :
    (c : Call) (now : Time) (o : Cell)
    → is_error (promise c now o).1 ≡ true
    → (promise c now o).0 ≡ o
unfolding promise
promise_error c now none h = absent_error c now h
promise_error c now (some e) h = entry_error c now e h

-- A call whose cell stays as it was changes no live entry.
Effect-kept :
    {s s' : Store} (v : IsValid s) (k : Bytes) (now : Time) (o : Cell)
    → Effect s k now s' o
    → o ≡ get_live s k now
    → (j : Bytes) → get_live s' j now ≡ get_live s j now
unfolding get_live
Effect-kept v k now o (kept e e') same j = rw e refl
Effect-kept v k now o (wrote x e e') same j =
    rw e (ground (arith, entry_at-write v k j x, bytes_eq_iff k j))
Effect-kept v k now o (removed e e') same j =
    rw e (ground (arith, entry_at-remove v k j, bytes_eq_iff k j))

-- A call that is answered by an error (a wrong type, a text that is no integer, an overflow) changes
-- no key's live entry.
pub run_error :
    {s : Store} (v : IsValid s) (c : Call) (k : Bytes) (now : Time)
    → is_error (run c k now s).1 ≡ true
    → (j : Bytes) → get_live (run c k now s).0 j now ≡ get_live s j now
run_error {s} v c k now h j =
    let f = run-Follows c s k now in
    Effect-kept v k now _ f.effect (promise_error c now (get_live s k now) (rw f.reply at h)) j
