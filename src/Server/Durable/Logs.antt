-- ===== src/Server/Durable/Logs.antt =====
-- A command that makes one call of the store and then logs or not, by what the call returned
-- (internal/command/command.go).
use voltkv.Base.{
  ◌≡◌, refl, sym, ap, ◌∙◌, subst, ◌⊎◌, inl, inr, Bool, true, false, some, List, [], ◌∷◌, Bytes,
  codes, if◌then◌else◌,
}
use voltkv.Store.Time.{Time}
use voltkv.Store.Entry.{Result, ok, err, StoreError}
use voltkv.Store.Shards.{Store}
use voltkv.Store.Refine.{Call, Reply}
use voltkv.Store.Refine.Untimed.Twins.{IsLasting, Twin, Twin-trans}
use voltkv.Command.World.{
  World, M, ◌>>=◌, GoError, nil, store_call, or_error, append_aof, emit, ◌>>◌,
}
use voltkv.Server.Durable.{Durable, Outcome, quiet, own, other, Left}
use voltkv.Server.Durable.Calls.{Calls, Mutes, IsLasting-Calls, Twin-Calls, Loud, Mute, after}
use voltkv.Server.Durable.Sets.{Sets, executed-set, Twin-set, logged-logged_all}

module _ {A : Type 0} (args : List Bytes) {f : Time → Store → Store × A} {c : Call}
    {forth : A → Reply} (m : Calls f c forth) (g : A → M GoError) where
  abbrev Ends : World → Type 0
  Ends w = Left (λ e w'. Outcome args (store_call f >>= g) w w') ((store_call f >>= g) w)

  -- A rest that ends in `w'` where the call returns `a`.
  ends :
      (w w' : World) (a : A)
      → (f (w.clock w.reads) w.store).1 ≡ a
      → g a (after f w) ≡ some (nil, w')
      → Outcome args (store_call f >>= g) w w'
      → Ends w
  ends w w' a e q o =
      subst (Left (λ e w'. Outcome args (store_call f >>= g) w w'))
        (sym (ap (λ b. g b (after f w)) e ∙ q)) o

  Mute-Ends :
      (w : World) (a : A)
      → IsLasting w.store
      → (f (w.clock w.reads) w.store).1 ≡ a
      → Mute (g a)
      → Mutes f a
      → Ends w
  Mute-Ends w a l e mute still =
      let (out, q) = mute (after f w) in ends w _ a e q (quiet (still _ w.store l e) refl)

  Loud-Ends :
      (w : World) (a : A)
      → IsLasting w.store
      → (f (w.clock w.reads) w.store).1 ≡ a
      → Loud args (g a)
      → Ends w
  Loud-Ends w a l e loud =
      let (out, q) = loud (after f w) in
      ends w _ a e q (
        own (IsLasting-Calls m _ w.store l) refl (λ u tw.
          let (tw', v) = Twin-Calls m (u.clock u.reads) (w.clock w.reads) u.store w.store tw in
          let (out', q') = loud (after f u) in
          (nil, _, ap (λ b. g b (after f u)) (v ∙ e) ∙ q', tw', refl)))

  -- Each result of the call either has the command logged, or comes with no change.
  pub Calls-Durable :
      ((a : A) → Loud args (g a) ⊎ (Mute (g a) × Mutes f a)) → Durable args (store_call f >>= g)
  Calls-Durable h = record { at = λ w l. go w l _ refl (h (f (w.clock w.reads) w.store).1) }
    where
      go :
          (w : World)
          → IsLasting w.store
          → (a : A) → (f (w.clock w.reads) w.store).1 ≡ a
          → Loud args (g a) ⊎ (Mute (g a) × Mutes f a)
          → Ends w
      go w l a e (inr (mute, still)) = Mute-Ends w a l e mute still
      go w l a e (inl loud) = Loud-Ends w a l e loud

  set-Ends :
      (w : World) (a : A) (k v : Bytes)
      → IsLasting w.store
      → (f (w.clock w.reads) w.store).1 ≡ a
      → Loud (codes "SET" ∷ k ∷ v ∷ []) (g a)
      → Sets f k v a
      → Ends w
  set-Ends w a k v l e loud sets =
      let (out, q) = loud (after f w) in
      ends w _ a e q (
        other (IsLasting-Calls m _ w.store l) ((codes "SET" ∷ k ∷ v ∷ []) ∷ [])
          (logged-logged_all _ w.aof)
          (λ u tw calm.
            let (u', x, stored, calm') = executed-set k v u calm in
            let tw' = Twin-set k v (u.clock u.reads) (w.clock w.reads) u.store w.store tw in
            (
              u',
              x,
              subst (λ s. Twin s (f (w.clock w.reads) w.store).0) (sym stored)
                  (Twin-trans tw' (sets _ _ w.store l e)),
              calm',
            )))

  -- Each result of the call either has a plain SET logged that does the same, or comes with no
  -- change.
  pub Sets-Durable :
      ((a : A)
        → ((k v : Bytes) × Loud (codes "SET" ∷ k ∷ v ∷ []) (g a) × Sets f k v a)
          ⊎ (Mute (g a) × Mutes f a))
      → Durable args (store_call f >>= g)
  Sets-Durable h = record { at = λ w l. go w l _ refl (h (f (w.clock w.reads) w.store).1) }
    where
      go :
          (w : World)
          → IsLasting w.store
          → (a : A) → (f (w.clock w.reads) w.store).1 ≡ a
          → ((k v : Bytes) × Loud (codes "SET" ∷ k ∷ v ∷ []) (g a) × Sets f k v a)
            ⊎ (Mute (g a) × Mutes f a)
          → Ends w
      go w l a e (inr (mute, still)) = Mute-Ends w a l e mute still
      go w l a e (inl (k, v, loud, sets)) = set-Ends w a k v l e loud sets

module _ {A : Type 0} (args : List Bytes) {f : Time → Store → Store × Result A} {c : Call}
    {forth : Result A → Reply} (m : Calls f c forth) (g : A → M GoError)
    (still : (e : StoreError) → Mutes f (err e)) where
  -- The same, where an error of the call is the reply.
  pub Calls-or_error :
      ((a : A) → Loud args (g a) ⊎ (Mute (g a) × Mutes f (ok a)))
      → Durable args (store_call f >>= λ r. or_error r g)
  Calls-or_error h = Calls-Durable args m (λ r. or_error r g) go
    where
      go : (r : Result A) → Loud args (or_error r g) ⊎ (Mute (or_error r g) × Mutes f r)
      go (ok a) = h a
      go (err e) = inr (λ w. (_, refl), still e)

  pub Sets-or_error :
      ((a : A) → (k v : Bytes) × Loud (codes "SET" ∷ k ∷ v ∷ []) (g a) × Sets f k v (ok a))
      → Durable args (store_call f >>= λ r. or_error r g)
  Sets-or_error h = Sets-Durable args m (λ r. or_error r g) go
    where
      go :
          (r : Result A)
          → ((k v : Bytes) × Loud (codes "SET" ∷ k ∷ v ∷ []) (or_error r g) × Sets f k v r)
            ⊎ (Mute (or_error r g) × Mutes f r)
      go (ok a) = inl (h a)
      go (err e) = inr (λ w. (_, refl), still e)

-- The rest of a handler that logs where the call returned true.
pub logged_if :
    (args : List Bytes) (f : Time → Store → Store × Bool) (one two : Bytes)
    → Mutes f false
    → (b : Bool)
    → Loud args (if b then (do append_aof args; emit one) else emit two)
      ⊎ (Mute (if b then (do append_aof args; emit one) else emit two) × Mutes f b)
logged_if args f one two still true = inl (λ w. (_, refl))
logged_if args f one two still false = inr (λ w. (_, refl), still)
