-- ===== src/Server/Durable.antt =====
-- What the commands log, against what they do: a replay of the log rebuilds the store, as long as no
-- deadline is set (internal/command/command.go, internal/server/server.go).
pub mod Calls
pub mod Sets
pub mod Logs
pub mod Methods
pub mod Reads
pub mod Channels
pub mod Items
pub mod Strings
pub mod Keys
pub mod Pairs
pub mod Dispatch
pub mod Commands
pub mod Rounds
pub mod Restart
pub mod Rebuild
pub mod Depicts
pub mod Rewrite
use voltkv.Base.{
  ◌≡◌, refl, sym, ap, ◌∙◌, ◌⊎◌, inl, inr, Bool, true, false, Option, none, some, List, [], ◌∷◌,
  ◌++◌, append_assoc, append-nil, Bytes, if◌then◌else◌,
}
use voltkv.Base.Int.{ℤ}
use voltkv.Store.Time.{Time}
use voltkv.Store.Shards.{Store}
use voltkv.Store.Entry.{Result, ok, err}
use voltkv.Store.Refine.{Call, Reply, run}
use voltkv.Store.Refine.Typed.{IsProper}
use voltkv.Store.Refine.Untimed.{IsUntimed}
use voltkv.Store.Refine.Untimed.Twins.{
  IsLasting, Twin, Twin-refl, Twin-sym, Twin-trans, run-Twin, run-IsLasting,
}
use voltkv.Command.World.{
  World, M, ◌>>=◌, ◌>>◌, pure, GoError, nil, emit, store_call, store_read, append_aof, logged,
  or_error, bulk_or_null,
}
use voltkv.Command.Generic.{ttl_call}
use voltkv.Command.Channels.{
  subscribe_new, subscribe_one, unsubscribe_sub, unsubscribe_one, published, publish_to,
}
use voltkv.Server.Recovery.{executed}

-- The log with commands behind those that were sent before.
abbrev pub logged_all : List (List Bytes) → Option (List (List Bytes)) → Option (List (List Bytes))
logged_all cmds none = none
logged_all cmds (some sent) = some (sent ++ cmds)

-- What every way to return leaves; a panic leaves nothing.
abbrev pub Left : {A : Type 0} → (A → World → Type 0) → Option (A × World) → Type 0
Left Q none = Unit
Left Q (some (a, w)) = Q a w

-- Nothing that a key holds changes, and nothing is logged.
abbrev pub Stays : {A : Type 0} → World → A → World → Type 0
Stays w a w' = Twin w'.store w.store × (w'.aof ≡ w.aof)

pub record Quiet {A : Type 0} (m : M A) : Type 0 where
  pub at : (w : World) → IsLasting w.store → Left (Stays w) (m w)

-- A method that changes nothing that a key holds.
pub record Still {A : Type 0} (f : Time → Store → Store × A) : Type 0 where
  pub at : (now : Time) (s : Store) → IsLasting s → Twin (f now s).0 s

pub pure-Quiet : {A : Type 0} (a : A) → Quiet (pure a)
pure-Quiet a = record { at = λ w l. (Twin-refl l, refl) }

pub emit-Quiet : (bytes : Bytes) → Quiet (emit bytes)
emit-Quiet bytes = record { at = λ w l. (Twin-refl l, refl) }

pub store_read-Quiet : {A : Type 0} (f : Time → Store → A) → Quiet (store_read f)
store_read-Quiet f = record { at = λ w l. (Twin-refl l, refl) }

pub ttl_call-Quiet : (k : Bytes) → Quiet (ttl_call k)
ttl_call-Quiet k = record { at = λ w l. (Twin-refl l, refl) }

pub store_call-Quiet : {A : Type 0} (f : Time → Store → Store × A) → Still f → Quiet (store_call f)
store_call-Quiet f h = record { at = λ w l. (h.at _ w.store l, refl) }

then-Quiet :
    {A B : Type 0} (w : World) (r : Option (A × World)) (f : A → M B)
    → Left (Stays w) r
    → ((a : A) → Quiet (f a))
    → Left (Stays w) (elim r as (λ _. Option (B × World)) [ none ↦ none | some (a, w) ↦ f a w ])
then-Quiet w none f h k = tt
then-Quiet {A} {B} w (some (a, w')) f (tw, e) k = go (f a w') ((k a).at w' tw.left)
  where
    go : (r : Option (B × World)) → Left (Stays w') r → Left (Stays w) r
    go none h = tt
    go (some (b, v)) (tv, q) = (Twin-trans tv tw, q ∙ e)

pub bind-Quiet :
    {A B : Type 0} (m : M A) (f : A → M B) → Quiet m → ((a : A) → Quiet (f a)) → Quiet (m >>= f)
bind-Quiet m f h k = record { at = λ w l. then-Quiet w (m w) f (h.at w l) k }

pub if-Quiet : {A : Type 0} (b : Bool) (m n : M A) → Quiet m → Quiet n → Quiet (if b then m else n)
if-Quiet true m n h k = h
if-Quiet false m n h k = k

pub or_error-Quiet :
    {A : Type 0} (r : Result A) (f : A → M GoError) → ((a : A) → Quiet (f a)) → Quiet (or_error r f)
or_error-Quiet (ok a) f h = h a
or_error-Quiet (err e) f h = emit-Quiet _

pub bulk_or_null-Quiet : (o : Option Bytes) → Quiet (bulk_or_null o)
bulk_or_null-Quiet none = emit-Quiet _
bulk_or_null-Quiet (some v) = emit-Quiet _

pub ruleset quiet_rules = (
  pure-Quiet, emit-Quiet, store_read-Quiet, ttl_call-Quiet, store_call-Quiet, bind-Quiet, if-Quiet,
  or_error-Quiet, bulk_or_null-Quiet,
)

-- What a command left that returned: nothing changed and nothing is logged; or its own words are
-- logged, and to run it again on another store with the same entries does the same; or other
-- commands are logged, which do the same there.
pub data Outcome (args : List Bytes) (m : M GoError) (w w' : World) : Type 0 where
  quiet : Twin w'.store w.store → w'.aof ≡ w.aof → Outcome args m w w'
  own :
      IsLasting w'.store
      → w'.aof ≡ logged args w.aof
      → ((u : World)
          → Twin u.store w.store
          → (e : GoError) × (u' : World) × (m u ≡ some (e, u'))
            × Twin u'.store w'.store
            × (u'.subs ≡ u.subs))
      → Outcome args m w w'
  other :
      IsLasting w'.store
      → (cmds : List (List Bytes)) → w'.aof ≡ logged_all cmds w.aof
      → ((u : World)
          → Twin u.store w.store
          → u.subs ≡ []
          → (u' : World) × (executed cmds u ≡ some u') × Twin u'.store w'.store × (u'.subs ≡ []))
      → Outcome args m w w'

pub record Durable (args : List Bytes) (m : M GoError) : Type 0 where
  pub at : (w : World) → IsLasting w.store → Left (λ e w'. Outcome args m w w') (m w)

pub Quiet-Durable : (args : List Bytes) (m : M GoError) → Quiet m → Durable args m
Quiet-Durable args m h = record { at = λ w l. go w (m w) (h.at w l) }
  where
    go :
        (w : World) (r : Option (GoError × World))
        → Left (Stays w) r
        → Left (λ e w'. Outcome args m w w') r
    go w none h = tt
    go w (some (e, w')) (tw, q) = quiet tw q

pub if-Durable :
    (args : List Bytes) (b : Bool) (m n : M GoError)
    → Durable args m
    → Durable args n
    → Durable args (if b then m else n)
if-Durable args true m n h k = h
if-Durable args false m n h k = k
