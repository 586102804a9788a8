-- ===== src/Store/Refine/Typed.antt =====
-- Every stored entry has the contents of its kind, and no other (internal/store/store.go).
pub mod Stores
use voltkv.Base.{
  ℕ, ◌<◌, ◌+◌, ◌≡◌, refl, sym, subst, Bool, true, false, Option, none, some, List, [], ◌∷◌, ◌++◌,
  reverse, length, length-append, append-nil, if◌then◌else◌, Bytes, arith, bytes_eq, bytes_eq_iff,
  Bool-cases, inl, inr,
}
use voltkv.Base.Int.{ℤ, pos}
use voltkv.Base.Dict.{Dict, Distinct, insert, insert-Distinct, erase-Distinct}
use voltkv.Number.{parse_int64}
use voltkv.Store.Time.{is_zero, Time}
use voltkv.Store.Entry.{
  Entry, Kind, kind_none, kind_string, kind_hash, kind_list, kind_eq, string_entry, Result, err,
  wrong_type,
}
use voltkv.Store.Shards.{Store, get_live, entry_at, if_live}
use voltkv.Store.Shards.Valid.{IsValid}
use voltkv.Store.Shards.Laws.{entry_at-write, entry_at-remove}
use voltkv.Store.Strings.{would_overflow}
use voltkv.Store.Hashes.{set_fields, delete_fields}
use voltkv.Store.Hashes.Fields.{set_fields_lem, delete_fields_lem}
use voltkv.Store.Lists.{split_left, split_right}
use voltkv.Store.Refine.{
  Call, set, set_nx, set_xx, get, str_len, del, exists, type_of, persist, ttl, append, get_set,
  incr_by, expire, h_set, h_del, h_get, h_exists, h_get_all, h_keys, h_vals, h_len, l_pop, r_pop,
  l_len, l_push, r_push, l_index, l_range, Reply, run, Cell, promise, on_absent, on_entry, typed,
  text, number, integer, test, strings, unless_empty, popped, deleted, merged, added_number,
}
use voltkv.Store.Refine.Steps.Shapes.{Effect, kept, wrote, removed}
use voltkv.Store.Refine.Steps.Pushes.{prepend-reverse, length-prepend}
use voltkv.Store.Refine.Steps.{run-Follows}

-- The fields that an entry of each kind uses; a hash or a list that would be empty is not stored.
abbrev pub Contents : Kind → Bytes → Dict Bytes → List Bytes → Type 0
Contents kind_none s h l = ⊥
Contents kind_string s h l = (h ≡ []) × (l ≡ [])
Contents kind_hash s h l = (s ≡ []) × (l ≡ []) × (0 < length h) × Distinct h
Contents kind_list s h l = (s ≡ []) × (h ≡ []) × (0 < length l)

abbrev pub IsTyped : Entry → Type 0
IsTyped e = Contents e.kind e.str e.hash e.list

abbrev pub CellTyped : Cell → Type 0
CellTyped none = Unit
CellTyped (some e) = IsTyped e

-- The calls as the command layer makes them: HSET, LPUSH and RPUSH have something to add.
abbrev pub IsProper : Call → Type 0
IsProper (h_set ps) = 0 < length ps
IsProper (l_push vs) = 0 < length vs
IsProper (r_push vs) = 0 < length vs
IsProper _ = Unit

pub of_kind : (a b : Kind) → kind_eq a b ≡ true → a ≡ b
of_kind a b h = ground arith

-- The fields of an entry that keeps its kind.
refill :
    (k : Kind) (e : Entry) (s : Bytes) (h : Dict Bytes) (l : List Bytes)
    → e.kind ≡ k
    → IsTyped e
    → (Contents k e.str e.hash e.list → Contents k s h l)
    → Contents e.kind s h l
refill k e s h l q t f =
    subst (λ j. Contents j s h l) (sym q) (f (subst (λ j. Contents j e.str e.hash e.list) q t))

typed-CellTyped :
    {A : Type 0} (k : Kind) (f : Result A → Reply) (e : Entry) (r : Cell × Reply)
    → IsTyped e
    → (e.kind ≡ k → CellTyped r.0)
    → CellTyped (typed k f e r).0
typed-CellTyped k f e r t h = elim (Bool-cases (kind_eq e.kind k)) [
  | inl same ↦ rw same (h (of_kind e.kind k same))
  | inr other ↦ rw other t
]

-- A method that only reads one kind of entry.
read-CellTyped :
    {A : Type 0} (k : Kind) (f : Result A → Reply) (e : Entry) (r : Reply)
    → IsTyped e
    → CellTyped (typed k f e (some e, r)).0
read-CellTyped k f e r t = typed-CellTyped k f e (some e, r) t (λ q. t)

added-CellTyped :
    (e : Entry) (d : ℤ) (o : Option ℤ)
    → e.kind ≡ kind_string
    → IsTyped e
    → CellTyped (added_number e d o).0
added-CellTyped e d none q t = t
added-CellTyped e d (some n) q t = elim (Bool-cases (would_overflow n d)) [
  | inl over ↦ rw over t
  | inr fine ↦ rw fine (refill kind_string e _ e.hash e.list q t (λ c. c))
]

popped-CellTyped :
    (e : Entry) (o : Option (Bytes × List Bytes))
    → e.kind ≡ kind_list
    → IsTyped e
    → CellTyped (popped e o).0
popped-CellTyped e none q t = t
popped-CellTyped e (some (v, [])) q t = tt
popped-CellTyped e (some (v, x ∷ l)) q t =
    let filled = refill kind_list e e.str e.hash (x ∷ l) q t (λ c. (c.0, c.1, omega arith)) in
    ground arith

deleted-CellTyped :
    (e : Entry) (h : Dict Bytes) (n : ℕ)
    → e.kind ≡ kind_hash
    → IsTyped e
    → (Distinct e.hash → Distinct h)
    → CellTyped (deleted e (h, n)).0
deleted-CellTyped e [] n q t d = tt
deleted-CellTyped e (x ∷ h) n q t d =
    let filled =
      refill kind_hash e e.str (x ∷ h) e.list q t (λ (a, b, _, c). (a, b, omega arith, d c)) in
    ground arith

length-insert_pos : (f v : Bytes) (h : Dict Bytes) → 0 < length (insert f v h)
unfolding insert
length-insert_pos f v [] = omega arith
length-insert_pos f v ((g, w) ∷ h) = ground arith

length-set_fields :
    (ps : List (Bytes × Bytes)) (h : Dict Bytes) (n : ℕ)
    → 0 < length ps + length h
    → 0 < length (set_fields ps h n).0
unfolding set_fields
length-set_fields [] h n lt = omega arith
length-set_fields ((f, v) ∷ ps) h n lt =
    length-set_fields ps (insert f v h) _ (omega (arith, length-insert_pos f v h))

length-pushed : (vs l : List Bytes) → 0 < length vs → 0 < length (reverse vs ++ l)
length-pushed vs l h =
    subst (λ (m : List Bytes). 0 < length m) (prepend-reverse vs l)
      (omega (arith, length-prepend vs l))

module _ (now : Time) where
  absent-CellTyped : (c : Call) → IsProper c → CellTyped (on_absent c now).0
  unfolding on_absent string_entry
  absent-CellTyped (set v d) h = (refl, refl)
  absent-CellTyped (set_nx v d) h = (refl, refl)
  absent-CellTyped (append x) h = (refl, refl)
  absent-CellTyped (get_set v) h = (refl, refl)
  absent-CellTyped (incr_by d) h = elim (Bool-cases (would_overflow (pos 0) d)) [
    | inl over ↦ rw over tt
    | inr fine ↦ rw fine (refl, refl)
  ]
  absent-CellTyped (h_set ps) h =
      (refl, refl, length-set_fields ps [] 0 (omega arith), (set_fields_lem ps [] 0 tt).1)
  absent-CellTyped (l_push vs) h =
      (refl, refl, subst (λ l. 0 < length l) (append-nil (reverse vs)) (length-pushed vs [] h))
  absent-CellTyped (r_push vs) h = (refl, refl, h)
  absent-CellTyped _ h = tt

  entry-CellTyped : (c : Call) (e : Entry) → IsProper c → IsTyped e → CellTyped (on_entry c now e).0
  unfolding on_entry string_entry
  entry-CellTyped (set v d) e h t = (refl, refl)
  entry-CellTyped (set_xx v d) e h t = (refl, refl)
  entry-CellTyped del e h t = tt
  entry-CellTyped persist e h t = elim (Bool-cases (is_zero e.expires_at)) [
    | inl never ↦ rw never t
    | inr ends ↦ rw ends t
  ]
  entry-CellTyped (ttl later) e h t = elim (Bool-cases (is_zero e.expires_at)) [
    | inl never ↦ rw never t
    | inr ends ↦ rw ends t
  ]
  entry-CellTyped (append x) e h t =
      typed-CellTyped kind_string number e _ t (λ q. refill kind_string e _ _ _ q t (λ c. c))
  entry-CellTyped (get_set v) e h t = typed-CellTyped kind_string text e _ t (λ q. (refl, refl))
  entry-CellTyped (incr_by d) e h t =
      typed-CellTyped kind_string integer e _ t (λ q. added-CellTyped e d (parse_int64 e.str) q t)
  entry-CellTyped (h_set ps) e h t = typed-CellTyped kind_hash number e _ t (λ q.
      refill kind_hash e _ _ _ q t (λ (a, b, _, d).
        (a, b, length-set_fields ps e.hash 0 (omega arith), (set_fields_lem ps e.hash 0 d).1)))
  entry-CellTyped (h_del fs) e h t = typed-CellTyped kind_hash number e _ t (λ q.
      deleted-CellTyped e _ (delete_fields fs e.hash 0).1 q t
        (λ d. (delete_fields_lem fs e.hash 0 d).1))
  entry-CellTyped l_pop e h t =
      typed-CellTyped kind_list text e _ t (λ q. popped-CellTyped e (split_left e.list) q t)
  entry-CellTyped r_pop e h t =
      typed-CellTyped kind_list text e _ t (λ q. popped-CellTyped e (split_right e.list) q t)
  entry-CellTyped (l_push vs) e h t =
      typed-CellTyped kind_list number e _ t
        (λ q. refill kind_list e _ _ _ q t (λ c. (c.0, c.1, length-pushed vs e.list h)))
  entry-CellTyped (r_push vs) e h t =
      typed-CellTyped kind_list number e _ t (λ q.
        refill kind_list e _ _ _ q t (λ c. (c.0, c.1, omega (arith, length-append e.list vs))))
  entry-CellTyped get e h t = read-CellTyped kind_string text e _ t
  entry-CellTyped str_len e h t = read-CellTyped kind_string number e _ t
  entry-CellTyped (h_get f) e h t = read-CellTyped kind_hash text e _ t
  entry-CellTyped (h_exists f) e h t = read-CellTyped kind_hash test e _ t
  entry-CellTyped h_get_all e h t = read-CellTyped kind_hash strings e _ t
  entry-CellTyped h_keys e h t = read-CellTyped kind_hash strings e _ t
  entry-CellTyped h_vals e h t = read-CellTyped kind_hash strings e _ t
  entry-CellTyped h_len e h t = read-CellTyped kind_hash number e _ t
  entry-CellTyped l_len e h t = read-CellTyped kind_list number e _ t
  entry-CellTyped (l_index i) e h t = read-CellTyped kind_list text e _ t
  entry-CellTyped (l_range i j) e h t = read-CellTyped kind_list strings e _ t
  entry-CellTyped _ e h t = t

  -- What a call makes of a cell has the contents of its kind, if the cell had.
  pub promise-CellTyped :
      (c : Call) (o : Cell) → IsProper c → CellTyped o → CellTyped (promise c now o).0
  unfolding promise
  promise-CellTyped c none h t = absent-CellTyped c h
  promise-CellTyped c (some e) h t = entry-CellTyped c e h t
