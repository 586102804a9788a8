-- ===== src/Store/Refine/Steps/Lazy.antt =====
-- The methods that look at the entry before its deadline: Del, Get and StrLen
-- (internal/store/store.go).
use voltkv.Base.{
  ◌≡◌, refl, sym, ap, Bool, true, false, not, Option, none, some, length, if◌then◌else◌, Bytes,
  Option-cases, Bool-cases, inl, inr, arith,
}
use voltkv.Store.Time.{Time}
use voltkv.Store.Entry.{Entry, kind_string, kind_eq, Result, ok, err, wrong_type, expired}
use voltkv.Store.Shards.{Store, get_live, entry_at, remove}
use voltkv.Store.Strings
use voltkv.Store.Strings.{would_overflow, add_parsed, length_of}
use voltkv.Store.Generic
use voltkv.Store.Generic.{no_key, no_expiry, left}
use voltkv.Store.Refine.{
  get, str_len, del, Reply, text, number, typed, run, Cell, promise, with_reply,
}
use voltkv.Store.Refine.Steps.Shapes.{kept, removed, Follows, Runs}

module _ (s : Store) (k : Bytes) (now : Time) where
  live_absent : entry_at s k ≡ none → get_live s k now ≡ none
  unfolding get_live
  live_absent h = ground arith

  live_expired :
      (e : Entry) → entry_at s k ≡ some e → expired e now ≡ true → get_live s k now ≡ none
  unfolding get_live
  live_expired e h x = ground arith

  live_found :
      (e : Entry) → entry_at s k ≡ some e → expired e now ≡ false → get_live s k now ≡ some e
  unfolding get_live
  live_found e h x = ground arith

  lazy_delete-expired :
      (e : Entry)
      → entry_at s k ≡ some e
      → expired e now ≡ true
      → Strings.lazy_delete k now s ≡ remove s k
  unfolding Strings.lazy_delete
  lazy_delete-expired e h x = ground arith

  pub del-Follows : Runs s k now del
  unfolding run promise Generic.del
  del-Follows = elim (Option-cases (entry_at s k)) [
    | inl h ↦
        rw (live_absent h)
          (rw (h, Generic.del) (record { effect = removed refl refl; reply = refl }))
    | inr (e, h) ↦ elim (Bool-cases (expired e now)) [
      | inl x ↦
          rw (live_expired e h x)
            (rw (h, Generic.del) (rw x (record { effect = removed refl refl; reply = refl })))
      | inr x ↦
          rw (live_found e h x)
            (rw (h, Generic.del) (rw x (record { effect = removed refl refl; reply = refl })))
    ]
  ]

  -- The two methods that read a string, one through the other.
  module _ {A : Type 0} (f : Result A → Reply) (g : Result (Option Bytes) → Result A) where
    get_case :
        (absent : A) (present : Entry → A)
        → (g (ok none) ≡ ok absent)
        → ((e : Entry) → g (ok (some e.str)) ≡ ok (present e))
        → (g (err wrong_type) ≡ err wrong_type)
        → (p : Cell → Cell × Reply) → (p none ≡ (none, f (ok absent)))
        → ((e : Entry) → p (some e) ≡ typed kind_string f e (some e, f (ok (present e))))
        → Follows s k now
            (with_reply f ((Strings.get k now s).0, g (Strings.get k now s).1))
            (p (get_live s k now))
    unfolding Strings.get
    get_case absent present on_none on_some on_err p p_none p_some =
        elim (Option-cases (entry_at s k)) [
          | inl h ↦
              rw (live_absent h, p_none)
                (rw (h, Strings.get)
                  (record { effect = kept refl (sym (live_absent h)); reply = ap f on_none }))
          | inr (e, h) ↦ elim (Bool-cases (expired e now)) [
            | inl x ↦
                rw (live_expired e h x, p_none)
                  (rw (h, Strings.get)
                    (rw x (record {
                      effect = removed (lazy_delete-expired e h x) refl;
                      reply = ap f on_none;
                    })))
            | inr x ↦
                rw (live_found e h x, p_some)
                  (rw (h, Strings.get)
                    (rw x (found e (kind_eq e.kind kind_string) (live_found e h x))))
          ]
        ]
      where
        found :
            (e : Entry) (b : Bool)
            → get_live s k now ≡ some e
            → Follows s k now
                (with_reply f (
                  let r : Store × Result (Option Bytes) =
                    if not b then (s, err wrong_type) else (s, ok (some e.str)) in
                  (r.0, g r.1)))
                (if b then (some e, f (ok (present e))) else (some e, f (err wrong_type)))
        found e true h = record { effect = kept refl (sym h); reply = ap f (on_some e) }
        found e false h = record { effect = kept refl (sym h); reply = ap f on_err }

  pub get-Follows : Runs s k now get
  unfolding run promise
  get-Follows =
      get_case text (λ r. r) none (λ e. some e.str) refl (λ e. refl) refl (promise get now) refl
        (λ e. refl)

  pub str_len-Follows : Runs s k now str_len
  unfolding run promise Strings.str_len
  str_len-Follows =
      get_case number length_of 0 (λ e. length e.str) refl (λ e. refl) refl (promise str_len now)
        refl (λ e. refl)
