-- ===== src/Server/Durable/Depicts.antt =====
-- The commands of a rewritten log against the entries they were made of (internal/aof/aof.go).
use voltkv.Base.{
  false, suc, ltb, ◌≡◌, refl, sym, ap, ◌∙◌, subst, true, Option, none, some, List, [], ◌∷◌, ◌++◌,
  append_assoc, length, is_some, Bytes, bytes_eq, bytes_eq_iff, bytes_eq_refl, if◌then◌else◌, arith,
  Option-cases, Bool-cases, inl, inr,
}
use voltkv.Base.Dict.{Dict}
use voltkv.Store.Time.{Time, zero_time}
use voltkv.Store.Entry.{Entry, Kind, kind_none, kind_string, kind_hash, kind_list, string_entry}
use voltkv.Store.Shards.{entry_at}
use voltkv.Store.Walks.{Snapshot, snapshot_of}
use voltkv.Store.Walks.Listed.{contains, NoRepeats}
use voltkv.Store.Walks.Snapshots.{find, snapshot_at}
use voltkv.Store.Refine.Typed.{Contents, IsTyped}
use voltkv.Store.Refine.Untimed.Twins.{IsLasting}
use voltkv.Aof.{snapshot_commands, rewrite, write_command, write_commands}
use voltkv.Command.World.{World}
use voltkv.Server.Recovery.{executed}
use voltkv.Server.Start.{silent}
use voltkv.Server.{new}
use voltkv.Aof.Replays.{apply_all}
use voltkv.Server.Durable.Rounds.{apply_all-append}
use voltkv.Server.Durable.Restart.{some-injective}
use voltkv.Server.Durable.Rebuild.{Rebuilt, set-Rebuilt, rpush-Rebuilt, hset-Rebuilt}

some-none : {A : Type 0} {a : A} → some a ≡ none → ⊥
some-none e = ground arith

-- An entry without a deadline, by its parts.
abbrev plain : Kind → Bytes → Dict Bytes → List Bytes → Entry
plain kind s h l = record { kind = kind; str = s; hash = h; list = l; expires_at = zero_time }

module _ (k : Bytes) (now : Time) (u : World) (l : IsLasting u.store) (calm : u.subs ≡ [])
    (missing : entry_at u.store k ≡ none) where
  plain-Rebuilt :
      (kind : Kind) (s : Bytes) (h : Dict Bytes) (items : List Bytes)
      → Contents kind s h items
      → Rebuilt k
          (plain kind s h items)
          (snapshot_commands (snapshot_of k (plain kind s h items)) now)
          u
  unfolding snapshot_of snapshot_commands string_entry
  plain-Rebuilt kind_none s h items c = absurd c
  plain-Rebuilt kind_string s h items (a, b) =
      rw (a, b) (set-Rebuilt k u l calm missing s (plain kind_string s [] []) refl)
  plain-Rebuilt kind_hash s [] items (a, b, c, d) = absurd (omega arith)
  plain-Rebuilt kind_hash s ((f, v) ∷ h) items (a, b, c, d) =
      let filled : ltb 0 (suc (length h)) ≡ true = ground arith in
      rw (a, b, filled) (hset-Rebuilt k u l calm missing f v h d)
  plain-Rebuilt kind_list s h [] (a, b, c) = absurd (omega arith)
  plain-Rebuilt kind_list s h (v ∷ items) (a, b, c) =
      let filled : ltb 0 (suc (length items)) ≡ true = ground arith in
      rw (a, b, filled) (rpush-Rebuilt k u l calm missing v items)

  -- The commands of a snapshot rebuild the entry that it is of.
  snapshot-Rebuilt :
      (e : Entry)
      → IsTyped e
      → e.expires_at ≡ zero_time
      → Rebuilt k e (snapshot_commands (snapshot_of k e) now) u
  snapshot-Rebuilt e t untimed =
      let same : plain e.kind e.str e.hash e.list ≡ e =
        ap (λ t. record e { expires_at = t }) (sym untimed) in
      subst (λ x. Rebuilt k x (snapshot_commands (snapshot_of k x) now) u) same
        (plain-Rebuilt e.kind e.str e.hash e.list t)

abbrev pub names : List Snapshot → List Bytes
names [] = []
names (x ∷ snaps) = x.key ∷ names snaps

-- The commands of a rewritten log.
abbrev pub commands_of : List Snapshot → Time → List (List Bytes)
commands_of [] now = []
commands_of (x ∷ snaps) now = snapshot_commands x now ++ commands_of snaps now

write_commands-append :
    (xs ys : List (List Bytes)) → write_commands (xs ++ ys) ≡ write_commands xs ++ write_commands ys
unfolding write_commands
write_commands-append [] ys = refl
write_commands-append (x ∷ xs) ys =
    ap (λ t. write_command x ++ t) (write_commands-append xs ys)
    ∙ sym (append_assoc (write_command x) (write_commands xs) (write_commands ys))

pub rewrite-commands_of :
    (snaps : List Snapshot) (now : Time)
    → write_commands (commands_of snaps now) ≡ rewrite snaps now
unfolding rewrite write_commands
rewrite-commands_of [] now = refl
rewrite-commands_of (x ∷ snaps) now =
    write_commands-append (snapshot_commands x now) (commands_of snaps now)
    ∙ ap (λ t. write_commands (snapshot_commands x now) ++ t) (rewrite-commands_of snaps now)

find_unnamed :
    (k : Bytes) (snaps : List Snapshot) → contains (names snaps) k ≡ false → find k snaps ≡ none
unfolding find
find_unnamed k [] h = refl
find_unnamed k (x ∷ snaps) h = ground (arith, find_unnamed k snaps)

-- What is to be held, over what is held.
abbrev pub over : Option Entry → Option Entry → Option Entry
over none o = o
over (some e) o = some e

pub over-none : (o : Option Entry) → over o none ≡ o
over-none none = refl
over-none (some e) = refl

-- The snapshots are those of what `held` says, each key once.
pub record Depicts (held : Bytes → Option Entry) (snaps : List Snapshot) : Type 0 where
  pub once : NoRepeats (names snaps)
  pub exact : (k : Bytes) → find k snaps ≡ snapshot_at k (held k)
  pub lasts : (k : Bytes) (e : Entry) → held k ≡ some e → IsTyped e × (e.expires_at ≡ zero_time)

abbrev without : Bytes → (Bytes → Option Entry) → Bytes → Option Entry
without j held k = if bytes_eq j k then none else held k

rest-Depicts :
    (held : Bytes → Option Entry) (x : Snapshot) (snaps : List Snapshot)
    → Depicts held (x ∷ snaps)
    → Depicts (without x.key held) snaps
unfolding find
rest-Depicts held x snaps d = record {
  once = d.once.1;
  exact = λ k. elim (Bool-cases (bytes_eq x.key k)) [
    | inl same ↦
        let e : x.key ≡ k = (bytes_eq_iff x.key k).0 same in
        rw same (subst (λ j. find j snaps ≡ none) e (find_unnamed x.key snaps d.once.0))
    | inr apart ↦ rw apart (ap (λ b. if b then some x else find k snaps) (sym apart) ∙ d.exact k)
  ];
  lasts = λ k e h. ground (arith, d.lasts k e);
}

first_entry :
    (held : Bytes → Option Entry) (x : Snapshot) (snaps : List Snapshot)
    → Depicts held (x ∷ snaps)
    → (e : Entry) × (held x.key ≡ some e) × (snapshot_of x.key e ≡ x)
unfolding find
first_entry held x snaps d =
    let at_head : some x ≡ snapshot_at x.key (held x.key) =
      ap (λ b. if b then some x else find x.key snaps) (sym (bytes_eq_refl x.key))
      ∙ d.exact x.key in
    elim (Option-cases (held x.key)) [
      | inl h ↦ absurd (some-none (at_head ∙ ap (snapshot_at x.key) h))
      | inr (e, h) ↦ (
        e,
        h,
        sym (some-injective x x (snapshot_of x.key e) (at_head ∙ ap (snapshot_at x.key) h)),
      )
    ]

-- A client without subscriptions who has executed the commands holds what was depicted, and beside
-- it what was there.
pub record Rewritten (held : Bytes → Option Entry) (cmds : List (List Bytes)) (u : World)
    : Type 0 where
  pub last : World
  pub runs : executed cmds u ≡ some last
  pub lasting : IsLasting last.store
  pub calm : last.subs ≡ []
  pub entries : (k : Bytes) → entry_at last.store k ≡ over (held k) (entry_at u.store k)

pub commands_of-Rewritten :
    (now : Time) (snaps : List Snapshot) (held : Bytes → Option Entry) (u : World)
    → Depicts held snaps
    → IsLasting u.store
    → u.subs ≡ []
    → ((k : Bytes) → is_some (held k) ≡ true → entry_at u.store k ≡ none)
    → Rewritten held (commands_of snaps now) u
unfolding find
commands_of-Rewritten now [] held u d l calm new = record {
  last = u;
  runs = refl;
  lasting = l;
  calm = calm;
  entries = λ k. ground (arith, d.exact k);
}
commands_of-Rewritten now (x ∷ snaps) held u d l calm new =
    let (e, at_key, same) = first_entry held x snaps d in
    let (typed, untimed) = d.lasts x.key e at_key in
    let missing : entry_at u.store x.key ≡ none = new x.key (rw at_key refl) in
    let b =
      subst (λ y. Rebuilt x.key e (snapshot_commands y now) u) same
        (snapshot-Rebuilt x.key now u l calm missing e typed untimed) in
    let r =
      commands_of-Rewritten now snaps (without x.key held) b.last (rest-Depicts held x snaps d)
        b.lasting b.calm (λ k h. b.entries k ∙ ground (arith, new k)) in
    record {
      last = r.last;
      runs =
          apply_all-append (snapshot_commands x now) (commands_of snaps now) (some u)
          ∙ ap (apply_all silent (commands_of snaps now)) b.runs
          ∙ r.runs;
      lasting = r.lasting;
      calm = r.calm;
      entries = λ k.
          r.entries k
          ∙ ap (over (without x.key held k)) (b.entries k)
          ∙ ground (arith, bytes_eq_iff x.key k, at_key);
    }
