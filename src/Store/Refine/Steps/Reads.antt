-- ===== src/Store/Refine/Steps/Reads.antt =====
-- The methods that only read (internal/store/store.go).
use voltkv.Base.{
  ◌≡◌, refl, sym, Bool, true, false, some, if◌then◌else◌, Bytes, Option-cases, inl, inr,
}
use voltkv.Base.Int.{ℤ}
use voltkv.Store.Time.{Time, is_zero, until}
use voltkv.Store.Entry.{Entry}
use voltkv.Store.Shards.{Store, get_live}
use voltkv.Store.Generic
use voltkv.Store.Generic.{no_key, no_expiry, left}
use voltkv.Store.Hashes
use voltkv.Store.Lists
use voltkv.Store.Lists.{pop_from, split_left, split_right}
use voltkv.Store.Refine.{
  exists, type_of, ttl, h_get, h_exists, h_get_all, h_keys, h_vals, h_len, l_len, l_index, l_range,
  text, number, test, strings, remaining, run, promise,
}
use voltkv.Store.Refine.Steps.Shapes.{kept, Follows, Runs, read-Follows}

module _ (s : Store) (k : Bytes) (now : Time) where
  pub exists-Follows : Runs s k now exists
  unfolding run promise Generic.exists
  exists-Follows = elim (Option-cases (get_live s k now)) [
    | inl h ↦ rw (h, Generic.exists) (record { effect = kept refl (sym h); reply = refl })
    | inr (e, h) ↦ rw (h, Generic.exists) (record { effect = kept refl (sym h); reply = refl })
  ]

  pub type_of-Follows : Runs s k now type_of
  unfolding run promise Generic.type_of
  type_of-Follows = elim (Option-cases (get_live s k now)) [
    | inl h ↦ rw (h, Generic.type_of) (record { effect = kept refl (sym h); reply = refl })
    | inr (e, h) ↦ rw (h, Generic.type_of) (record { effect = kept refl (sym h); reply = refl })
  ]

  pub h_get-Follows : (f : Bytes) → Runs s k now (h_get f)
  unfolding run promise Hashes.h_get
  h_get-Follows f = elim (Option-cases (get_live s k now)) [
    | inl h ↦
        rw (h, Hashes.h_get, Hashes.read_hash) (record { effect = kept refl (sym h); reply = refl })
    | inr (e, h) ↦ rw (h, Hashes.h_get, Hashes.read_hash) (read-Follows s k now e _ text _ h)
  ]

  pub h_exists-Follows : (f : Bytes) → Runs s k now (h_exists f)
  unfolding run promise Hashes.h_exists
  h_exists-Follows f = elim (Option-cases (get_live s k now)) [
    | inl h ↦
        rw (h, Hashes.h_exists, Hashes.read_hash)
          (record { effect = kept refl (sym h); reply = refl })
    | inr (e, h) ↦ rw (h, Hashes.h_exists, Hashes.read_hash) (read-Follows s k now e _ test _ h)
  ]

  pub h_get_all-Follows : Runs s k now h_get_all
  unfolding run promise Hashes.h_get_all
  h_get_all-Follows = elim (Option-cases (get_live s k now)) [
    | inl h ↦
        rw (h, Hashes.h_get_all, Hashes.read_hash)
          (record { effect = kept refl (sym h); reply = refl })
    | inr (e, h) ↦ rw (h, Hashes.h_get_all, Hashes.read_hash) (read-Follows s k now e _ strings _ h)
  ]

  pub h_keys-Follows : Runs s k now h_keys
  unfolding run promise Hashes.h_keys
  h_keys-Follows = elim (Option-cases (get_live s k now)) [
    | inl h ↦
        rw (h, Hashes.h_keys, Hashes.read_hash)
          (record { effect = kept refl (sym h); reply = refl })
    | inr (e, h) ↦ rw (h, Hashes.h_keys, Hashes.read_hash) (read-Follows s k now e _ strings _ h)
  ]

  pub h_vals-Follows : Runs s k now h_vals
  unfolding run promise Hashes.h_vals
  h_vals-Follows = elim (Option-cases (get_live s k now)) [
    | inl h ↦
        rw (h, Hashes.h_vals, Hashes.read_hash)
          (record { effect = kept refl (sym h); reply = refl })
    | inr (e, h) ↦ rw (h, Hashes.h_vals, Hashes.read_hash) (read-Follows s k now e _ strings _ h)
  ]

  pub h_len-Follows : Runs s k now h_len
  unfolding run promise Hashes.h_len
  h_len-Follows = elim (Option-cases (get_live s k now)) [
    | inl h ↦
        rw (h, Hashes.h_len, Hashes.read_hash) (record { effect = kept refl (sym h); reply = refl })
    | inr (e, h) ↦ rw (h, Hashes.h_len, Hashes.read_hash) (read-Follows s k now e _ number _ h)
  ]

  pub l_len-Follows : Runs s k now l_len
  unfolding run promise Lists.l_len
  l_len-Follows = elim (Option-cases (get_live s k now)) [
    | inl h ↦
        rw (h, Lists.l_len, Lists.read_list) (record { effect = kept refl (sym h); reply = refl })
    | inr (e, h) ↦ rw (h, Lists.l_len, Lists.read_list) (read-Follows s k now e _ number _ h)
  ]

  pub l_index-Follows : (i : ℤ) → Runs s k now (l_index i)
  unfolding run promise Lists.l_index
  l_index-Follows i = elim (Option-cases (get_live s k now)) [
    | inl h ↦
        rw (h, Lists.l_index, Lists.read_list) (record { effect = kept refl (sym h); reply = refl })
    | inr (e, h) ↦ rw (h, Lists.l_index, Lists.read_list) (read-Follows s k now e _ text _ h)
  ]

  pub l_range-Follows : (i : ℤ) (j : ℤ) → Runs s k now (l_range i j)
  unfolding run promise Lists.l_range
  l_range-Follows i j = elim (Option-cases (get_live s k now)) [
    | inl h ↦
        rw (h, Lists.l_range, Lists.read_list) (record { effect = kept refl (sym h); reply = refl })
    | inr (e, h) ↦ rw (h, Lists.l_range, Lists.read_list) (read-Follows s k now e _ strings _ h)
  ]

  ttl_case :
      (e : Entry) (later : Time) (b : Bool)
      → get_live s k now ≡ some e
      → Follows s k now
          (s, remaining (if b then no_expiry else left (until e.expires_at later)))
          (if b
            then (some e, remaining no_expiry)
            else (some e, remaining (left (until e.expires_at later))))
  ttl_case e later true h = record { effect = kept refl (sym h); reply = refl }
  ttl_case e later false h = record { effect = kept refl (sym h); reply = refl }

  pub ttl-Follows : (later : Time) → Runs s k now (ttl later)
  unfolding run promise Generic.ttl
  ttl-Follows later = elim (Option-cases (get_live s k now)) [
    | inl h ↦ rw (h, Generic.ttl) (record { effect = kept refl (sym h); reply = refl })
    | inr (e, h) ↦ rw (h, Generic.ttl) (ttl_case e later (is_zero e.expires_at) h)
  ]
