-- ===== src/Store/Refine/Untimed/Twins.antt =====
-- Two stores that hold the same entries, all without a deadline (internal/store/store.go).
use voltkv.Base.{
  ◌≡◌, refl, sym, ap, ◌∙◌, subst, Bool, true, false, some, if◌then◌else◌, Bytes, bytes_eq,
  bytes_eq_iff, arith,
}
use voltkv.Store.Time.{Time}
use voltkv.Store.Shards.{Store, entry_at, get_live}
use voltkv.Store.Shards.Valid.{IsValid}
use voltkv.Store.Shards.Laws.{entry_at-write, entry_at-remove}
use voltkv.Base.Int.{pos}
use voltkv.Store.Entry.{string_entry}
use voltkv.Store.Strings
use voltkv.Store.Refine.{Call, set, run, Cell, promise}
use voltkv.Store.Refine.Steps.Shapes.{Effect, kept, wrote, removed}
use voltkv.Store.Refine.Steps.{run-Follows}
use voltkv.Store.Refine.Traces.{run-IsValid}
use voltkv.Store.Refine.Typed.{IsProper}
use voltkv.Store.Refine.Typed.Stores.{HoldsTyped, run-HoldsTyped}
use voltkv.Store.Refine.Untimed.Idle.{Idle}
use voltkv.Store.Refine.Untimed.{
  IsUntimed, CellUntimed, live-CellUntimed, promise-CellUntimed, promise_any,
}

-- A valid store, in which every entry has the contents of its kind and no deadline.
pub record IsLasting (s : Store) : Type 0 where
  pub valid : IsValid s
  pub typed : HoldsTyped s
  pub untimed : (k : Bytes) → CellUntimed (entry_at s k)

-- Every key holds the same in both, whatever the number of shards and the order within.
pub record Twin (s t : Store) : Type 0 where
  pub left : IsLasting s
  pub right : IsLasting t
  pub same : (k : Bytes) → entry_at s k ≡ entry_at t k

pub Twin-refl : {s : Store} → IsLasting s → Twin s s
Twin-refl h = record { left = h; right = h; same = λ k. refl }

pub Twin-sym : {s t : Store} → Twin s t → Twin t s
Twin-sym h = record { left = h.right; right = h.left; same = λ k. sym (h.same k) }

pub Twin-trans : {r s t : Store} → Twin r s → Twin s t → Twin r t
Twin-trans h g = record { left = h.left; right = g.right; same = λ k. h.same k ∙ g.same k }

module _ {s : Store} (l : IsLasting s) (k : Bytes) (now : Time) where
  pub live-IsLasting : get_live s k now ≡ entry_at s k
  unfolding get_live
  live-IsLasting = live-CellUntimed (entry_at s k) now (l.untimed k)

  -- A call sets the cell of its key to what is promised, and no other.
  pub entry_at-run :
      (c : Call) (j : Bytes)
      → entry_at (run c k now s).0 j
        ≡ (if bytes_eq k j then (promise c now (entry_at s k)).0 else entry_at s j)
  entry_at-run c j = go (run-Follows c s k now).effect
    where
      go :
          {s' : Store}
          → Effect s k now s' (promise c now (get_live s k now)).0
          → entry_at s' j
            ≡ (if bytes_eq k j then (promise c now (entry_at s k)).0 else entry_at s j)
      go (kept e q) = rw (← live-IsLasting, e, q, live-IsLasting) (ground (arith, bytes_eq_iff k j))
      go (wrote x e q) = rw (← live-IsLasting, e, q) (entry_at-write l.valid k j x)
      go (removed e q) = rw (← live-IsLasting, e, q) (entry_at-remove l.valid k j)

  pub reply-run : (c : Call) → (run c k now s).1 ≡ (promise c now (entry_at s k)).1
  reply-run c = (run-Follows c s k now).reply ∙ ap (λ o. (promise c now o).1) live-IsLasting

if-CellUntimed :
    (b : Bool) (o p : Cell) → CellUntimed o → CellUntimed p → CellUntimed (if b then o else p)
if-CellUntimed true o p h g = h
if-CellUntimed false o p h g = g

pub run-IsLasting :
    {s : Store} (l : IsLasting s) (c : Call) (k : Bytes) (now : Time)
    → IsProper c
    → IsUntimed c
    → IsLasting (run c k now s).0
run-IsLasting {s} l c k now p u = record {
  valid = run-IsValid l.valid c k now;
  typed = run-HoldsTyped l.valid c k now p l.typed;
  untimed = λ j. subst CellUntimed (sym (entry_at-run l k now c j)) (
      if-CellUntimed (bytes_eq k j) _ _ (promise-CellUntimed now c _ u (l.untimed k))
        (l.untimed j));
}

-- Twins stay twins under the same call at any two times, and reply the same.
pub run-Twin :
    {s t : Store} (h : Twin s t) (c : Call) (k : Bytes) (now later : Time)
    → IsProper c
    → IsUntimed c
    → Twin (run c k now s).0 (run c k later t).0 × ((run c k now s).1 ≡ (run c k later t).1)
run-Twin {s} {t} h c k now later p u =
    let q : promise c now (entry_at s k) ≡ promise c later (entry_at t k) =
      ap (promise c now) (h.same k) ∙ promise_any c (entry_at t k) now later u in
    (
      record {
        left = run-IsLasting h.left c k now p u;
        right = run-IsLasting h.right c k later p u;
        same = λ j.
            rw (entry_at-run h.left k now c j, entry_at-run h.right k later c j, q, h.same j) refl;
      },
      rw (reply-run h.left k now c, reply-run h.right k later c, q) refl,
    )

-- A call whose reply tells that it changed nothing leaves a twin.
pub run-Idle :
    {s : Store} (l : IsLasting s) (k : Bytes) (now : Time) (c : Call)
    → IsProper c
    → IsUntimed c
    → Idle c (run c k now s).1
    → Twin (run c k now s).0 s
run-Idle {s} l k now c p u idle =
    let same : (promise c now (entry_at s k)).0 ≡ entry_at s k =
      idle (entry_at s k) now (l.typed.at k) (l.untimed k) (sym (reply-run l k now c)) in
    record {
      left = run-IsLasting l c k now p u;
      right = l;
      same = λ j. entry_at-run l k now c j ∙ rw same (ground (arith, bytes_eq_iff k j));
    }

-- A call that stores what a plain SET stores is a twin of that SET.
pub set-Twin :
    {s : Store} (l : IsLasting s) (k v : Bytes) (now later : Time) (c : Call)
    → IsProper c
    → IsUntimed c
    → ((promise c now (entry_at s k)).1 ≡ (run c k now s).1
        → (promise c now (entry_at s k)).0 ≡ some (string_entry v (pos 0) later))
    → Twin (Strings.set k v (pos 0) later s) (run c k now s).0
unfolding run
set-Twin {s} l k v now later c p u stores = record {
  left = run-IsLasting l (set v (pos 0)) k later tt refl;
  right = run-IsLasting l c k now p u;
  same = λ j.
      let e = stores (sym (reply-run l k now c)) in
      unfold Strings.set in
      entry_at-write l.valid k j _
      ∙ sym (entry_at-run l k now c j ∙ ap (λ o. if bytes_eq k j then o else entry_at s j) e);
}
