-- ===== src/Store/Refine/Traces.antt =====
-- The sharded store against the plain map, over whole runs: no client can tell the two apart
-- (internal/store/store.go).
use voltkv.Base.{
  ◌^◌, ◌≡◌, refl, ap₂, none, some, List, [], ◌∷◌, if◌then◌else◌, Bytes, bytes_eq, bytes_eq_iff,
  arith,
}
use voltkv.Base.Int.{ℤ, pos, ◌≤ℤ◌}
use voltkv.Store.Time.{Time}
use voltkv.Store.Entry.{expired}
use voltkv.Store.Shards.{Store, if_live, get_live, entry_at, new}
use voltkv.Store.Shards.Valid.{IsValid}
use voltkv.Store.Shards.Laws.{entry_at-write, entry_at-remove}
use voltkv.Store.Shards.Keep.{write-IsValid, remove-IsValid}
use voltkv.Store.Shards.New.{new-IsValid, entry_at-new}
use voltkv.Store.Refine.{Call, Reply, run, Cell, promise}
use voltkv.Store.Refine.Steps.Shapes.{Effect, kept, wrote, removed, Follows}
use voltkv.Store.Refine.Steps.{run-Follows}

-- A plain map from keys to entries, and a call on it.
abbrev pub Flat : Type 0
Flat = Bytes → Cell

abbrev pub flat_run : Call → Bytes → Time → Flat → Flat × Reply
flat_run c k now m =
    let p = promise c now (if_live (m k) now) in ((λ j. if bytes_eq k j then p.0 else m j), p.1)

pub record Request : Type 0 where
  pub time : Time
  pub key : Bytes
  pub call : Call

-- The replies to a run of requests.
pub replies : List Request → Store → List Reply
replies [] s = []
replies (q ∷ qs) s = let (s', r) = run q.call q.key q.time s in r ∷ replies qs s'

pub flat_replies : List Request → Flat → List Reply
flat_replies [] m = []
flat_replies (q ∷ qs) m = let (m', r) = flat_run q.call q.key q.time m in r ∷ flat_replies qs m'

-- The clock does not run backwards.
abbrev pub InOrder : Time → List Request → Type 0
InOrder t [] = Unit
InOrder t (q ∷ qs) = (t ≤ℤ q.time) × InOrder q.time qs

-- From `now` on the two hold the same live entries.
record Agrees (now : Time) (s : Store) (m : Flat) : Type 0 where
  at : (j : Bytes) (t : Time) → now ≤ℤ t → if_live (entry_at s j) t ≡ if_live (m j) t

-- What has expired stays expired.
pub if_live-if_live : (o : Cell) (now t : Time) → now ≤ℤ t → if_live (if_live o now) t ≡ if_live o t
unfolding expired
if_live-if_live none now t h = refl
if_live-if_live (some e) now t h = ground arith

le_trans : (a b c : Time) → a ≤ℤ b → b ≤ℤ c → a ≤ℤ c
le_trans a b c h k = omega arith

Effect-IsValid :
    {s s' : Store} {now : Time} (k : Bytes) (o : Cell)
    → IsValid s
    → Effect s k now s' o
    → IsValid s'
Effect-IsValid k o v (kept e _) = rw e v
Effect-IsValid k o v (wrote x e _) = rw e (write-IsValid v k x)
Effect-IsValid k o v (removed e _) = rw e (remove-IsValid v k)

-- Every call keeps the store valid: its shards are a power of two many, the mask fits them, and each
-- key stands once, in its own shard.
pub run-IsValid :
    {s : Store} (v : IsValid s) (c : Call) (k : Bytes) (now : Time) → IsValid (run c k now s).0
run-IsValid {s} v c k now = Effect-IsValid k _ v (run-Follows c s k now).effect

module _ {s s' : Store} {m : Flat} {t₀ now : Time} (k : Bytes) (o : Cell) where
  Effect-Agrees :
      IsValid s
      → Agrees t₀ s m
      → t₀ ≤ℤ now
      → Effect s k now s' o
      → Agrees now s' (λ j. if bytes_eq k j then o else m j)
  unfolding get_live
  Effect-Agrees v a h (kept e e') = record {
    at = λ j t le.
        rw (e, e')
          (ground (
            arith,
            a.at j t (le_trans t₀ now t h le),
            if_live-if_live (entry_at s k) now t le,
            bytes_eq_iff k j,
          ));
  }
  Effect-Agrees v a h (wrote x e e') = record {
    at = λ j t le.
        rw (e, e') (ground (arith, a.at j t (le_trans t₀ now t h le), entry_at-write v k j x));
  }
  Effect-Agrees v a h (removed e e') = record {
    at = λ j t le.
        rw (e, e') (ground (arith, a.at j t (le_trans t₀ now t h le), entry_at-remove v k j));
  }

replies-Agrees :
    (qs : List Request) (s : Store) (m : Flat) (t₀ : Time)
    → IsValid s
    → Agrees t₀ s m
    → InOrder t₀ qs
    → replies qs s ≡ flat_replies qs m
unfolding replies flat_replies
replies-Agrees [] s m t₀ v a ordered = refl
replies-Agrees (q ∷ qs) s m t₀ v a (h, ordered) =
    let cell : get_live s q.key q.time ≡ if_live (m q.key) q.time =
      unfold get_live in a.at q.key q.time h in
    let f : Follows s q.key q.time (run q.call q.key q.time s)
        (promise q.call q.time (if_live (m q.key) q.time)) =
      rw (← cell) (run-Follows q.call s q.key q.time) in
    ap₂ ◌∷◌ f.reply (
      replies-Agrees qs _ _ q.time (Effect-IsValid q.key _ v f.effect)
        (Effect-Agrees q.key _ v a h f.effect) ordered)

-- From a new store of at most 2^32 shards, and as long as the clock does not run backwards, every
-- run of calls gets the replies that one plain map would give, which has no shards, no hash and no
-- deletion of expired entries.
pub replies-new :
    (shards : ℤ) (qs : List Request) (t₀ : Time)
    → shards ≤ℤ pos (2 ^ 32)
    → InOrder t₀ qs
    → replies qs (new shards) ≡ flat_replies qs (λ k. none)
replies-new shards qs t₀ h ordered =
    replies-Agrees qs (new shards) (λ k. none) t₀ (new-IsValid shards h)
      (record { at = λ j t le. rw (entry_at-new shards j) }) ordered
