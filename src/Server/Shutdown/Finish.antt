-- ===== src/Server/Shutdown/Finish.antt =====
-- A cancelled run comes to its end (internal/server/server.go).
use voltkv.Base.{
  ℕ, zero, suc, ◌+◌, ◌<◌, ◌≡◌, ◌⊎◌, refl, sym, ap, ◌∙◌, true, ==_iff, some, List, [], ◌∷◌, All,
  length, get_elem?, arith, inl, inr,
}
use voltkv.Server.Reachable.{IsFresh}
use voltkv.Server.{Server, Conn, gone}
use voltkv.Server.Shutdown.{
  Run, launch, stop_accepting, stop_sweeping, return_nil, Runs, no_step, and_then,
}
use voltkv.Server.Shutdown.Ends.{Only, IsCalm, from_phase}

-- The end of `Run`.
abbrev pub CanReturn : Run → Type 0
CanReturn start = (r : Run) × Runs start r × (r.returned ≡ true)

-- The first `k` connections are done.
abbrev GoneBelow : ℕ → List Conn → Type 0
GoneBelow k conns = (j : ℕ) (c : Conn) → j < k → get_elem? conns j ≡ some c → c.phase ≡ gone

each_gone : (conns : List Conn) → GoneBelow (length conns) conns → All (λ c. c.phase ≡ gone) conns
each_gone [] h = tt
each_gone (c ∷ conns) h =
    (h 0 c (omega arith) refl, each_gone conns λ j x l e. h (suc j) x (omega (arith, l)) e)

elem_at : (conns : List Conn) (k : ℕ) → k < length conns → (c : Conn) × (get_elem? conns k ≡ some c)
elem_at [] k h = absurd (omega (arith, h))
elem_at (c ∷ conns) zero h = (c, refl)
elem_at (c ∷ conns) (suc k) h = elem_at conns k (omega (arith, h))

unchanged-Only : (k : ℕ) (conns : List Conn) → Only k conns conns
unchanged-Only k conns = record { size = refl; others = λ j n. refl }

last_or_below : (j k : ℕ) → j < suc k → (j ≡ k) ⊎ (j < k)
last_or_below j k h = omega (arith, h)

one_more_gone :
    (k : ℕ) (base conns : List Conn) (c : Conn)
    → Only k base conns
    → get_elem? conns k ≡ some c
    → c.phase ≡ gone
    → GoneBelow k base
    → GoneBelow (suc k) conns
one_more_gone k base conns c o e g h j x l ex = elim (last_or_below j k l) [
  | inl s ↦ let same : x ≡ c = cc in ap (λ (y : Conn). y.phase) same ∙ g
  | inr b ↦ h j x b (sym (o.others j (ground (arith, ==_iff j k, b))) ∙ ex)
]

module _ {s : Server} (fresh : IsFresh s) {start : Run} (p : Runs (launch s) start) where
  -- The connections end one after the other, then the loops.
  all_end :
      (n k : ℕ) {r : Run}
      → Runs start r
      → IsCalm r
      → GoneBelow k r.system.conns
      → n + k ≡ length r.system.conns
      → CanReturn start
  all_end zero k {r} q calm h l = (
    _,
    and_then (and_then (and_then q (stop_accepting calm.cancelled)) (stop_sweeping calm.cancelled))
        (return_nil refl refl (each_gone r.system.conns λ j c b e. h j c (omega (arith, b, l)) e)),
    refl,
  )
  all_end (suc n) k {r} q calm h l =
      let (c, e) = elem_at r.system.conns k (omega (arith, l)) in
      let (r', q', calm', o, c', e', g) =
        from_phase fresh p k c.phase q calm (unchanged-Only k r.system.conns) e refl in
      all_end n (suc k) q' calm' (one_more_gone k r.system.conns r'.system.conns c' o e' g h)
        (omega (arith, l, o.size))

  -- A server starts with a well-formed store and broker, no client counted and no subscription open.
  -- In every state that its `Run` can reach from its loop on in which the context is cancelled and no
  -- connection is behind a look that found it alive, some steps lead to the return of `Run`, whatever the connections, their subscriptions and the messages that wait.
  pub can_return : IsCalm start → CanReturn start
  can_return calm =
      all_end (length start.system.conns) 0 no_step calm (λ j c l e. absurd (omega (arith, l)))
        (omega arith)
