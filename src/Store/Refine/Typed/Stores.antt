-- ===== src/Store/Refine/Typed/Stores.antt =====
-- Stores in which every entry has the contents of its kind (internal/store/store.go).
use voltkv.Base.{
  ◌≡◌, ◌⊎◌, sym, subst, Bool, true, false, none, some, if◌then◌else◌, Bytes, bytes_eq, Bool-cases,
  inl, inr,
}
use voltkv.Store.Time.{Time}
use voltkv.Store.Entry.{expired}
use voltkv.Store.Shards.{Store, entry_at, get_live, if_live}
use voltkv.Store.Shards.Valid.{IsValid}
use voltkv.Store.Shards.Laws.{entry_at-write, entry_at-remove}
use voltkv.Store.Refine.{Call, run, Cell}
use voltkv.Store.Refine.Steps.Shapes.{Effect, kept, wrote, removed}
use voltkv.Store.Refine.Steps.{run-Follows}
use voltkv.Store.Refine.Typed.{CellTyped, IsProper, promise-CellTyped}

-- Every key holds an entry with the contents of its kind, or nothing.
pub record HoldsTyped (s : Store) : Type 0 where
  pub at : (k : Bytes) → CellTyped (entry_at s k)

live-CellTyped : (o : Cell) (now : Time) → CellTyped o → CellTyped (if_live o now)
live-CellTyped none now t = t
live-CellTyped (some e) now t = elim (Bool-cases (expired e now)) [
  | inl dead ↦ rw dead tt
  | inr live ↦ rw live t
]

if-CellTyped : (b : Bool) (o p : Cell) → CellTyped o → CellTyped p → CellTyped (if b then o else p)
if-CellTyped true o p h k = h
if-CellTyped false o p h k = k

-- An effect on a valid store sets the cell of its key, and no other, but for expired entries.
pub entry_at-Effect :
    {s s' : Store} {now : Time} (v : IsValid s) (k j : Bytes) (o : Cell)
    → Effect s k now s' o
    → (s' ≡ s) ⊎ (entry_at s' j ≡ (if bytes_eq k j then o else entry_at s j))
entry_at-Effect v k j o (kept e _) = inl e
entry_at-Effect v k j o (wrote x e q) = inr (rw (e, q) (entry_at-write v k j x))
entry_at-Effect v k j o (removed e q) = inr (rw (e, q) (entry_at-remove v k j))

-- A call of the command layer on a valid store in which every entry has the contents of its kind (a
-- string no fields and no elements, a hash some fields and each once, a list some elements) leaves
-- such a store.
pub run-HoldsTyped :
    {s : Store} (v : IsValid s) (c : Call) (k : Bytes) (now : Time)
    → IsProper c
    → HoldsTyped s
    → HoldsTyped (run c k now s).0
unfolding get_live
run-HoldsTyped {s} v c k now p t = record {
  at = λ j. elim (entry_at-Effect v k j _ (run-Follows c s k now).effect) [
    | inl same ↦ rw same (t.at j)
    | inr changed ↦ subst CellTyped (sym changed) (
        if-CellTyped (bytes_eq k j) _ _
          (promise-CellTyped now c _ p (live-CellTyped (entry_at s k) now (t.at k))) (t.at j))
  ];
}
