-- ===== src/Command/Keeps.antt =====
-- Invariants of handlers: one rule for each way in which a handler is built
-- (internal/command/command.go).
mod Strings
mod Generic
mod Items
mod Channels
pub mod Execute
use voltkv.Base.{
  ℕ, ◌≡◌, refl, Bool, true, false, Option, none, some, List, [], ◌∷◌, ◌++◌, Bytes, if◌then◌else◌,
  Option-cases, inl, inr,
}
use voltkv.Base.Int.{ℤ}
use voltkv.Base.Dict
use voltkv.Store.Time.{Time, Duration}
use voltkv.Store.Entry.{Result, ok, err}
use voltkv.Store.Shards.{Store}
use voltkv.Store.Shards.Valid.{IsValid}
use voltkv.Store.Walks
use voltkv.Store.Walks.Sweep.{flush_db-IsValid}
use voltkv.Store.Sound.{IsSound, Changes, flush_db-Changes}
use voltkv.Pubsub
use voltkv.Pubsub.{Broker, Sent, sent}
use voltkv.Command.World.{
  World, M, ◌>>=◌, ◌>>◌, pure, GoError, emit, store_call, store_read, append_aof, logged, or_error,
  bulk_or_null, one_or_zero, write_error,
}
use voltkv.Command.Generic.{ttl_call, flush_store}
use voltkv.Command.Channels.{
  subscribe_new, subscribe_one, unsubscribe_sub, unsubscribe_one, subscribe_reply, published,
  publish_to,
}

-- What a state has to keep under the single actions of a handler to be kept by every handler.
pub record IsClosed (P : World → Type 0) : Type 0 where
  pub out : (w : World) (bytes : Bytes) → P w → P (record w { out = bytes })
  pub aof : (w : World) (args : List Bytes) → P w → P (record w { aof = logged args w.aof })
  pub reads : (w : World) (n : ℕ) → P w → P (record w { reads = n })
  pub store : (w : World) (s : Store) → Changes w.store s → P w → P (record w { store = s })
  pub subscribe :
      (w : World) (ch : Bytes)
      → Dict.lookup ch w.subs ≡ none
      → P w
      → P (record w {
        broker = (Pubsub.subscribe ch w.broker).0;
        subs = Dict.insert ch (Pubsub.subscribe ch w.broker).1 w.subs;
        delivering = w.delivering ++ (Pubsub.subscribe ch w.broker).1 ∷ [];
      })
  pub unsubscribe :
      (w : World) (ch : Bytes) (id : ℕ)
      → Dict.lookup ch w.subs ≡ some id
      → P w
      → P (record w { broker = Pubsub.unsubscribe id w.broker; subs = Dict.erase ch w.subs })
  pub publish :
      (w : World) (ch payload : Bytes)
      → P w
      → (b : Broker) × (n : ℕ) × (Pubsub.publish ch payload w.broker ≡ sent (b, n))
        × P (record w { broker = b })

-- A handler returned, with no panic, and left a state with the property.
abbrev pub Returns : {A : Type 0} → (World → Type 0) → Option (A × World) → Type 0
Returns P none = ⊥
Returns P (some (a, w)) = P w

pub record Keeps {A : Type 0} (P : World → Type 0) (m : M A) : Type 0 where
  pub at : (w : World) → P w → Returns P (m w)

module _ {P : World → Type 0} (c : IsClosed P) where
  pub pure-Keeps : {A : Type 0} (a : A) → Keeps P (pure a)
  pure-Keeps a = record { at = λ w h. h }

  pub emit-Keeps : (bytes : Bytes) → Keeps P (emit bytes)
  emit-Keeps bytes = record { at = λ w h. c.out w _ h }

  pub append_aof-Keeps : (args : List Bytes) → Keeps P (append_aof args)
  append_aof-Keeps args = record { at = λ w h. c.aof w args h }

  pub store_call-Keeps :
      {A : Type 0} (f : Time → Store → Store × A) → IsSound f → Keeps P (store_call f)
  store_call-Keeps f v = record {
    at = λ w h.
        c.reads (record w { store = (f (w.clock w.reads) w.store).0 }) _
          (c.store w _ (v.at _ w.store) h);
  }

  pub store_read-Keeps : {A : Type 0} (f : Time → Store → A) → Keeps P (store_read f)
  store_read-Keeps f = record { at = λ w h. c.reads w _ h }

  pub ttl_call-Keeps : (k : Bytes) → Keeps P (ttl_call k)
  ttl_call-Keeps k = record { at = λ w h. c.reads w _ h }

  Returns-then :
      {A B : Type 0} (r : Option (A × World)) (f : A → M B)
      → Returns P r
      → ((a : A) → Keeps P (f a))
      → Returns P (elim r as (λ _. Option (B × World)) [ none ↦ none | some (a, w) ↦ f a w ])
  Returns-then none f h k = h
  Returns-then (some (a, w)) f h k = (k a).at w h

  pub bind-Keeps :
      {A B : Type 0} (m : M A) (f : A → M B)
      → Keeps P m
      → ((a : A) → Keeps P (f a))
      → Keeps P (m >>= f)
  bind-Keeps m f h k = record { at = λ w p. Returns-then (m w) f (h.at w p) k }

  pub if-Keeps :
      {A : Type 0} (b : Bool) (m n : M A) → Keeps P m → Keeps P n → Keeps P (if b then m else n)
  if-Keeps true m n h k = h
  if-Keeps false m n h k = k

  pub or_error-Keeps :
      {A : Type 0} (r : Result A) (f : A → M GoError)
      → ((a : A) → Keeps P (f a))
      → Keeps P (or_error r f)
  or_error-Keeps (ok a) f h = h a
  or_error-Keeps (err e) f h = emit-Keeps _

  pub bulk_or_null-Keeps : (o : Option Bytes) → Keeps P (bulk_or_null o)
  bulk_or_null-Keeps none = emit-Keeps _
  bulk_or_null-Keeps (some v) = emit-Keeps _

  pub flush_store-Keeps : Keeps P flush_store
  flush_store-Keeps = record { at = λ w h. c.store w _ (flush_db-Changes w.store) h }

  subscribe_new-Keeps :
      (ch : Bytes) (o : Option ℕ) (w : World)
      → Dict.lookup ch w.subs ≡ o
      → P w
      → Returns P (subscribe_new ch o w)
  subscribe_new-Keeps ch (some id) w e h = h
  subscribe_new-Keeps ch none w e h = c.out _ _ (c.subscribe w ch e h)

  pub subscribe_one-Keeps : (ch : Bytes) → Keeps P (subscribe_one ch)
  subscribe_one-Keeps ch = record {
    at = λ w h. subscribe_new-Keeps ch (Dict.lookup ch w.subs) w refl h;
  }

  unsubscribe_sub_kept :
      (ch : Bytes) (o : Option ℕ) (w : World)
      → Dict.lookup ch w.subs ≡ o
      → P w
      → P (unsubscribe_sub ch o w)
  unsubscribe_sub_kept ch none w e h = h
  unsubscribe_sub_kept ch (some id) w e h = c.unsubscribe w ch id e h

  pub unsubscribe_one-Keeps : (ch : Bytes) → Keeps P (unsubscribe_one ch)
  unsubscribe_one-Keeps ch = record {
    at = λ w h. c.out _ _ (unsubscribe_sub_kept ch (Dict.lookup ch w.subs) w refl h);
  }

  pub publish_to-Keeps : (ch payload : Bytes) → Keeps P (publish_to ch payload)
  publish_to-Keeps ch payload = record {
    at = λ w h. let (b, n, e, q) = c.publish w ch payload h in rw (e, published) q;
  }

pub ruleset keeps_rules = (
  pure-Keeps, emit-Keeps, append_aof-Keeps, store_call-Keeps, store_read-Keeps, ttl_call-Keeps,
  bind-Keeps, if-Keeps, or_error-Keeps, bulk_or_null-Keeps, flush_store-Keeps, subscribe_one-Keeps,
  unsubscribe_one-Keeps, publish_to-Keeps,
)
