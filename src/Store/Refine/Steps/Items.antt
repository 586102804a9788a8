-- ===== src/Store/Refine/Steps/Items.antt =====
-- The methods that change the items of a hash or a list (internal/store/store.go).
use voltkv.Base.{
  ℕ, ◌≡◌, refl, sym, ap, Bool, true, false, Option, none, some, List, [], length, if◌then◌else◌,
  Bytes, Option-cases, inl, inr, arith,
}
use voltkv.Store.Time.{Time}
use voltkv.Store.Entry.{Entry, kind_list, empty_entry, ok}
use voltkv.Store.Shards.{Store, get_live, write, remove}
use voltkv.Store.Hashes
use voltkv.Store.Lists
use voltkv.Store.Lists.{pop_from, split_left, split_right}
use voltkv.Store.Refine.Steps.Pushes.{prepend-reverse, prepend-nil, length-prepend}
use voltkv.Store.Refine.{
  h_set, h_del, l_pop, r_pop, l_push, r_push, text, number, popped, with_items, run, promise,
  with_reply,
}
use voltkv.Store.Refine.Steps.Shapes.{Effect, kept, wrote, removed, Follows, Runs, typed-Follows}

module _ (s : Store) (k : Bytes) (now : Time) where
  pub h_set-Follows : (ps : List (Bytes × Bytes)) → Runs s k now (h_set ps)
  unfolding run promise Hashes.h_set
  h_set-Follows ps = elim (Option-cases (get_live s k now)) [
    | inl h ↦ rw (h, Hashes.h_set) (record { effect = wrote _ refl refl; reply = refl })
    | inr (e, h) ↦
        rw (h, Hashes.h_set)
          (typed-Follows s k now e _ number _ _ h
            (record { effect = wrote _ refl refl; reply = refl }))
  ]

  drop_case :
      (e : Entry) (b : Bool)
      → Effect s k now (if b then remove s k else write s k e) (if b then none else some e)
  drop_case e true = removed refl refl
  drop_case e false = wrote e refl refl

  pub h_del-Follows : (fs : List Bytes) → Runs s k now (h_del fs)
  unfolding run promise Hashes.h_del
  h_del-Follows fs = elim (Option-cases (get_live s k now)) [
    | inl h ↦ rw (h, Hashes.h_del) (record { effect = kept refl (sym h); reply = refl })
    | inr (e, h) ↦
        rw (h, Hashes.h_del)
          (typed-Follows s k now e _ number _ _ h (record { effect = drop_case _ _; reply = refl }))
  ]

  pop_case :
      (e : Entry) (o : Option (Bytes × List Bytes))
      → get_live s k now ≡ some e
      → Follows s k now (with_reply text (pop_from k s e o)) (popped e o)
  pop_case e none h = record { effect = kept refl (sym h); reply = refl }
  pop_case e (some (v, l)) h = record { effect = drop_case _ _; reply = refl }

  pub l_pop-Follows : Runs s k now l_pop
  unfolding run promise Lists.l_pop
  l_pop-Follows = elim (Option-cases (get_live s k now)) [
    | inl h ↦ rw (h, Lists.l_pop, Lists.pop) (record { effect = kept refl (sym h); reply = refl })
    | inr (e, h) ↦
        rw (h, Lists.l_pop, Lists.pop)
          (typed-Follows s k now e _ text _ _ h (pop_case e (split_left e.list) h))
  ]

  pub r_pop-Follows : Runs s k now r_pop
  unfolding run promise Lists.r_pop
  r_pop-Follows = elim (Option-cases (get_live s k now)) [
    | inl h ↦ rw (h, Lists.r_pop, Lists.pop) (record { effect = kept refl (sym h); reply = refl })
    | inr (e, h) ↦
        rw (h, Lists.r_pop, Lists.pop)
          (typed-Follows s k now e _ text _ _ h (pop_case e (split_right e.list) h))
  ]

  pub l_push-Follows : (vs : List Bytes) → Runs s k now (l_push vs)
  unfolding run promise Lists.l_push
  l_push-Follows vs = elim (Option-cases (get_live s k now)) [
    | inl h ↦
        rw (h, Lists.l_push, Lists.push_with)
          (record {
            effect =
                wrote _ refl
                  (ap (λ l. some (with_items (empty_entry kind_list) l)) (sym (prepend-nil vs)));
            reply =
                let n : length (Lists.prepend vs []) ≡ length vs =
                  omega (arith, length-prepend vs []) in
                ap (λ (n : ℕ). number (ok n)) n;
          })
    | inr (e, h) ↦
        rw (h, Lists.l_push, Lists.push_with)
          (typed-Follows s k now e _ number _ _ h (record {
            effect =
                wrote _ refl (ap (λ l. some (with_items e l)) (sym (prepend-reverse vs e.list)));
            reply = ap (λ (l : List Bytes). number (ok (length l))) (prepend-reverse vs e.list);
          }))
  ]

  pub r_push-Follows : (vs : List Bytes) → Runs s k now (r_push vs)
  unfolding run promise Lists.r_push
  r_push-Follows vs = elim (Option-cases (get_live s k now)) [
    | inl h ↦
        rw (h, Lists.r_push, Lists.push_with) (record { effect = wrote _ refl refl; reply = refl })
    | inr (e, h) ↦
        rw (h, Lists.r_push, Lists.push_with)
          (typed-Follows s k now e _ number _ _ h
            (record { effect = wrote _ refl refl; reply = refl }))
  ]
