-- ===== src/Server/Durable/Rebuild.antt =====
-- What one command of a rewritten log does where its key is missing (internal/aof/aof.go,
-- internal/command/command.go).
use voltkv.Base.{
  ℕ, ◌+◌, ◌++◌, true, false, is_some, append-nil, append_assoc, bytes_eq_iff, bytes_eq_refl, ◌≡◌,
  refl, sym, ap, ◌∙◌, subst, Option, none, some, List, [], ◌∷◌, length, Bytes, bytes_eq, codes,
  if◌then◌else◌, arith,
}
use voltkv.Base.Int.{pos}
use voltkv.Base.Dict.{Dict, Distinct, lookup, insert}
use voltkv.Store.Entry.{Entry, kind_hash, kind_list, empty_entry, string_entry, Result, ok}
use voltkv.Store.Shards.{Store, entry_at, get_live, write}
use voltkv.Store.Shards.Laws.{entry_at-write}
use voltkv.Store.Strings
use voltkv.Store.Hashes
use voltkv.Store.Hashes.{set_fields, flattened}
use voltkv.Store.Lists
use voltkv.Store.Lists.{push_with}
use voltkv.Store.Refine.Untimed.Twins.{IsLasting, live-IsLasting}
use voltkv.Command.World.{World, GoError, or_error, append_aof, write_integer, ◌>>◌, to_upper}
use voltkv.Command.Strings.{pairs_of, with_pair}
use voltkv.Command.Hashes.{hset_pairs, cmd_hset}
use voltkv.Command.Lists.{cmd_push}
use voltkv.Command.Execute.{dispatch}
use voltkv.Server.Start.{left}
use voltkv.Server.Recovery.{executed}
use voltkv.Server.Durable.Calls.{IsLasting-Calls}
use voltkv.Server.Durable.Sets.{execute-dispatch, executed-set}
use voltkv.Server.Durable.Methods.{set-Calls, h_set-Calls, r_push-Calls}

-- The arguments of HSET are read back as the pairs they were made of.
pairs_of-flattened : (h : Dict Bytes) → pairs_of (flattened h) ≡ some h
unfolding pairs_of
pairs_of-flattened [] = refl
pairs_of-flattened ((f, v) ∷ h) = ap (with_pair (f, v)) (pairs_of-flattened h)

insert_end : (f v : Bytes) (h : Dict Bytes) → lookup f h ≡ none → insert f v h ≡ h ++ (f, v) ∷ []
unfolding insert lookup
insert_end f v [] e = refl
insert_end f v ((g, w) ∷ h) e = ground (arith, insert_end f v h)

lookup-concat :
    (f g v : Bytes) (h : Dict Bytes)
    → bytes_eq g f ≡ false
    → lookup f (h ++ (g, v) ∷ []) ≡ lookup f h
unfolding lookup
lookup-concat f g v [] e = rw e refl
lookup-concat f g v ((j, w) ∷ h) e = ground (arith, lookup-concat f g v h)

-- Fields that are new, each once, go behind those that are there.
set_fields-append :
    (ps h : Dict Bytes) (n : ℕ)
    → Distinct ps
    → ((f : Bytes) → is_some (lookup f ps) ≡ true → lookup f h ≡ none)
    → (set_fields ps h n).0 ≡ h ++ ps
unfolding set_fields lookup
set_fields-append [] h n d new = sym (append-nil h)
set_fields-append ((f, v) ∷ ps) h n (once, d) new =
    let missing : lookup f h ≡ none = ground (arith, new f, bytes_eq_refl f) in
    let m = if is_some (lookup f h) then n else n + 1 in
    let rest = set_fields-append ps (h ++ (f, v) ∷ []) m d (λ g there.
      let apart : bytes_eq f g ≡ false = ground (arith, bytes_eq_iff f g, once) in
      lookup-concat g f v h apart ∙ ground (arith, new g, apart)) in
    ap (λ t. (set_fields ps t m).0) (insert_end f v h missing)
    ∙ rest
    ∙ append_assoc h ((f, v) ∷ []) ps

-- Where the key is missing, the commands put `e` under it and change nothing else.
pub record Rebuilt (k : Bytes) (e : Entry) (cmds : List (List Bytes)) (u : World) : Type 0 where
  pub last : World
  pub runs : executed cmds u ≡ some last
  pub lasting : IsLasting last.store
  pub calm : last.subs ≡ []
  pub entries :
      (j : Bytes) → entry_at last.store j ≡ (if bytes_eq k j then some e else entry_at u.store j)

-- A command that comes down to one assignment.
written-Rebuilt :
    {k : Bytes} {e : Entry} {cmds : List (List Bytes)} {u : World} (u' : World)
    → IsLasting u.store
    → executed cmds u ≡ some u'
    → IsLasting u'.store
    → u'.subs ≡ []
    → u'.store ≡ write u.store k e
    → Rebuilt k e cmds u
written-Rebuilt {k} {e} u' l x l' calm w = record {
  last = u';
  runs = x;
  lasting = l';
  calm = calm;
  entries = λ j. ap (λ s. entry_at s j) w ∙ entry_at-write l.valid k j e;
}

module _ (k : Bytes) (u : World) (l : IsLasting u.store) (calm : u.subs ≡ [])
    (missing : entry_at u.store k ≡ none) where
  dead : get_live u.store k (u.clock u.reads) ≡ none
  dead = live-IsLasting l k (u.clock u.reads) ∙ missing

  pub set-Rebuilt :
      (v : Bytes) (e : Entry)
      → string_entry v (pos 0) (u.clock u.reads) ≡ e
      → Rebuilt k e ((codes "SET" ∷ k ∷ v ∷ []) ∷ []) u
  unfolding Strings.set
  set-Rebuilt v e same =
      let (u', x, stored, calm') = executed-set k v u calm in
      written-Rebuilt u' l x
        (subst IsLasting (sym stored)
          (IsLasting-Calls (set-Calls k v (pos 0) refl) (u.clock u.reads) u.store l))
        calm' (stored ∙ ap (write u.store k) same)

  abbrev rest_hset : List Bytes → Store × Result ℕ → Option (GoError × World)
  rest_hset args (s, r) =
      (or_error r λ n. do append_aof args; write_integer (pos n))
        (record u { store = s; reads = u.reads + 1 })

  h_set_missing :
      (ps : List (Bytes × Bytes))
      → Hashes.h_set k ps (u.clock u.reads) u.store ≡ (
        write u.store k (record (empty_entry kind_hash) { hash = (set_fields ps [] 0).0 }),
        ok (set_fields ps [] 0).1,
      )
  unfolding Hashes.h_set
  h_set_missing ps = rw (dead, Hashes.h_set) refl

  r_push_missing :
      (vs : List Bytes)
      → Lists.r_push k vs (u.clock u.reads) u.store
        ≡ (write u.store k (record (empty_entry kind_list) { list = vs }), ok (length vs))
  unfolding Lists.r_push
  r_push_missing vs = rw (dead, push_with) refl

  pub rpush-Rebuilt :
      (v : Bytes) (vs : List Bytes)
      → Rebuilt k
          (record (empty_entry kind_list) { list = v ∷ vs })
          ((codes "RPUSH" ∷ k ∷ v ∷ vs) ∷ [])
          u
  unfolding dispatch cmd_push to_upper bytes_eq
  rpush-Rebuilt v vs =
      written-Rebuilt _ l
        (ap left (
          execute-dispatch (codes "RPUSH") (k ∷ v ∷ vs) u calm
          ∙ ap (rest_hset (codes "RPUSH" ∷ k ∷ v ∷ vs)) (r_push_missing (v ∷ vs))))
        (subst (λ r. IsLasting r.0) (r_push_missing (v ∷ vs))
          (IsLasting-Calls (r_push-Calls k (v ∷ vs) (omega arith)) (u.clock u.reads) u.store l))
        calm refl

  pub hset-Rebuilt :
      (f v : Bytes) (h : Dict Bytes)
      → Distinct ((f, v) ∷ h)
      → Rebuilt k
          (record (empty_entry kind_hash) { hash = (f, v) ∷ h })
          ((codes "HSET" ∷ k ∷ flattened ((f, v) ∷ h)) ∷ [])
          u
  unfolding dispatch cmd_hset to_upper bytes_eq lookup
  hset-Rebuilt f v h d =
      let args = codes "HSET" ∷ k ∷ flattened ((f, v) ∷ h) in
      let all : (set_fields ((f, v) ∷ h) [] 0).0 ≡ (f, v) ∷ h =
        set_fields-append ((f, v) ∷ h) [] 0 d (λ g there. refl) in
      written-Rebuilt _ l
        (ap left (
          execute-dispatch (codes "HSET") (k ∷ flattened ((f, v) ∷ h)) u calm
          ∙ ap (λ o. hset_pairs args k o u) (pairs_of-flattened ((f, v) ∷ h))
          ∙ ap (rest_hset args) (h_set_missing ((f, v) ∷ h))))
        (subst (λ r. IsLasting r.0) (h_set_missing ((f, v) ∷ h))
          (IsLasting-Calls (h_set-Calls k ((f, v) ∷ h) (omega arith)) (u.clock u.reads) u.store l))
        calm (ap (λ m. write u.store k (record (empty_entry kind_hash) { hash = m })) all)
