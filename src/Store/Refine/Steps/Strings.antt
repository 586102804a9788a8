-- ===== src/Store/Refine/Steps/Strings.antt =====
-- The methods that write a string or a deadline (internal/store/store.go).
use voltkv.Base.{
  ◌≡◌, refl, sym, Bool, true, false, Option, none, some, if◌then◌else◌, Bytes, Option-cases, inl,
  inr,
}
use voltkv.Base.Int.{ℤ, pos, ◌+ℤ◌}
use voltkv.Number.{parse_int64, format_int}
use voltkv.Store.Time.{Time, Duration, is_zero}
use voltkv.Store.Entry.{Entry, kind_string, empty_entry, ok, err, overflow}
use voltkv.Store.Shards.{Store, get_live, write}
use voltkv.Store.Strings
use voltkv.Store.Strings.{would_overflow, add_parsed, length_of}
use voltkv.Store.Generic
use voltkv.Store.Generic.{no_key, no_expiry, left}
use voltkv.Store.Refine.{
  set, set_nx, set_xx, persist, append, get_set, incr_by, expire, text, number, integer, flag,
  added_number, run, Cell, promise, with_reply,
}
use voltkv.Store.Refine.Steps.Shapes.{kept, wrote, Follows, Runs, typed-Follows}

module _ (s : Store) (k : Bytes) (now : Time) where
  pub append-Follows : (x : Bytes) → Runs s k now (append x)
  unfolding run promise Strings.append
  append-Follows x = elim (Option-cases (get_live s k now)) [
    | inl h ↦ rw (h, Strings.append) (record { effect = wrote _ refl refl; reply = refl })
    | inr (e, h) ↦
        rw (h, Strings.append)
          (typed-Follows s k now e _ number _ _ h
            (record { effect = wrote _ refl refl; reply = refl }))
  ]

  pub set_nx-Follows : (v : Bytes) (d : Duration) → Runs s k now (set_nx v d)
  unfolding run promise Strings.set_nx
  set_nx-Follows v d = elim (Option-cases (get_live s k now)) [
    | inl h ↦ rw (h, Strings.set_nx) (record { effect = wrote _ refl refl; reply = refl })
    | inr (e, h) ↦ rw (h, Strings.set_nx) (record { effect = kept refl (sym h); reply = refl })
  ]

  pub set_xx-Follows : (v : Bytes) (d : Duration) → Runs s k now (set_xx v d)
  unfolding run promise Strings.set_xx
  set_xx-Follows v d = elim (Option-cases (get_live s k now)) [
    | inl h ↦ rw (h, Strings.set_xx) (record { effect = kept refl (sym h); reply = refl })
    | inr (e, h) ↦ rw (h, Strings.set_xx) (record { effect = wrote _ refl refl; reply = refl })
  ]

  pub get_set-Follows : (v : Bytes) → Runs s k now (get_set v)
  unfolding run promise Strings.get_set
  get_set-Follows v = elim (Option-cases (get_live s k now)) [
    | inl h ↦ rw (h, Strings.get_set) (record { effect = wrote _ refl refl; reply = refl })
    | inr (e, h) ↦
        rw (h, Strings.get_set)
          (typed-Follows s k now e _ text _ _ h
            (record { effect = wrote _ refl refl; reply = refl }))
  ]

  pub expire-Follows : (d : Duration) → Runs s k now (expire d)
  unfolding run promise Generic.expire
  expire-Follows d = elim (Option-cases (get_live s k now)) [
    | inl h ↦ rw (h, Generic.expire) (record { effect = kept refl (sym h); reply = refl })
    | inr (e, h) ↦ rw (h, Generic.expire) (record { effect = wrote _ refl refl; reply = refl })
  ]

  pub set-Follows : (v : Bytes) (d : Duration) → Runs s k now (set v d)
  unfolding run promise Strings.set
  set-Follows v d = elim (Option-cases (get_live s k now)) [
    | inl h ↦ rw h (record { effect = wrote _ refl refl; reply = refl })
    | inr (e, h) ↦ rw h (record { effect = wrote _ refl refl; reply = refl })
  ]

  persist_case :
      (e e' : Entry) (b : Bool)
      → get_live s k now ≡ some e
      → Follows s k now
          (with_reply flag (if b then (s, false) else (write s k e', true)))
          (if b then (some e, flag false) else (some e', flag true))
  persist_case e e' true h = record { effect = kept refl (sym h); reply = refl }
  persist_case e e' false h = record { effect = wrote _ refl refl; reply = refl }

  pub persist-Follows : Runs s k now persist
  unfolding run promise Generic.persist
  persist-Follows = elim (Option-cases (get_live s k now)) [
    | inl h ↦ rw (h, Generic.persist) (record { effect = kept refl (sym h); reply = refl })
    | inr (e, h) ↦ rw (h, Generic.persist) (persist_case e _ (is_zero e.expires_at) h)
  ]

  add_case :
      (e : Entry) (d cur : ℤ) (b : Bool) (c : Cell)
      → get_live s k now ≡ c
      → Follows s k now
          (with_reply integer (
            if b
            then (s, err overflow)
            else (write s k (record e { str = format_int (cur +ℤ d) }), ok (cur +ℤ d))))
          (if b
            then (c, integer (err overflow))
            else (some (record e { str = format_int (cur +ℤ d) }), integer (ok (cur +ℤ d))))
  add_case e d cur true c h = record { effect = kept refl (sym h); reply = refl }
  add_case e d cur false c h = record { effect = wrote _ refl refl; reply = refl }

  parsed_case :
      (e : Entry) (d : ℤ) (o : Option ℤ)
      → get_live s k now ≡ some e
      → Follows s k now (with_reply integer (add_parsed k d s e o)) (added_number e d o)
  parsed_case e d none h = record { effect = kept refl (sym h); reply = refl }
  parsed_case e d (some n) h = add_case e d n (would_overflow n d) (some e) h

  pub incr_by-Follows : (d : ℤ) → Runs s k now (incr_by d)
  unfolding run promise Strings.incr_by
  incr_by-Follows d = elim (Option-cases (get_live s k now)) [
    | inl h ↦
        rw (h, Strings.incr_by)
          (add_case (empty_entry kind_string) d (pos 0) (would_overflow (pos 0) d) none h)
    | inr (e, h) ↦
        rw (h, Strings.incr_by)
          (typed-Follows s k now e _ integer _ _ h (parsed_case e d (parse_int64 e.str) h))
  ]
