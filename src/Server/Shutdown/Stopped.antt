-- ===== src/Server/Shutdown/Stopped.antt =====
-- What holds when `Run` has returned (internal/server/server.go).
use voltkv.Base.{
  ℕ, zero, suc, ◌≡◌, refl, subst, sym, ap, ◌∙◌, false, true, some, List, [], ◌∷◌, All, Bytes, arith,
  get_elem?,
}
use voltkv.Base.Int.{pos}
use voltkv.Pubsub.{snapshot}
use voltkv.Server.{Server, Conn, gone}
use voltkv.Server.System.{
  System, Step, accept, begin, round, stop, drop, close, push, sweep, Reach, here, next,
}
use voltkv.Server.Counts.{counted, waiting, active_count}
use voltkv.Server.Reachable.{IsFresh, reach-IsSound, no_leak}
use voltkv.Server.Drained.{AllRested, reach-AllRested, pushed-same}
use voltkv.Server.Shutdown.{
  Run, launch, IsAllowed, RunStep, cancel, look, go, stop_accepting, stop_sweeping, return_nil,
  Runs, no_step, and_then,
}

-- The server and its connections went through steps of theirs.
pub runs-Reach : {s : Server} {r : Run} → Runs (launch s) r → Reach s r.system
runs-Reach no_step = here
runs-Reach (and_then p cancel) = runs-Reach p
runs-Reach (and_then p (look i e h n)) = runs-Reach p
runs-Reach (and_then p (go s a)) = next (runs-Reach p) s
runs-Reach (and_then p (stop_accepting e)) = runs-Reach p
runs-Reach (and_then p (stop_sweeping e)) = runs-Reach p
runs-Reach (and_then p (return_nil a b c)) = runs-Reach p

-- No goroutine is left.
record IsOver (r : Run) : Type 0 where
  accepting : r.accepting ≡ false
  sweeping : r.sweeping ≡ false
  gone : All (λ c. c.phase ≡ gone) r.system.conns

gone_at :
    (i : ℕ) (conns : List Conn) {c : Conn}
    → All (λ x. x.phase ≡ gone) conns
    → get_elem? conns i ≡ some c
    → c.phase ≡ gone
gone_at i [] h e = absurd (cc)
gone_at zero (x ∷ conns) {c} (h, hs) e =
    let same : x ≡ c = cc in ap (λ (y : Conn). y.phase) (sym same) ∙ h
gone_at (suc i) (x ∷ conns) (h, hs) e = gone_at i conns hs e

-- Then the steps of the server change nothing.
step-same :
    {r : Run} {sys' : System} (s : Step r.system sys')
    → IsAllowed r s
    → IsOver r
    → AllRested r.system.server.broker.made r.system.conns
    → sys' ≡ r.system
step-same {r} (accept input) a h rest = absurd (cc)
step-same {r} (begin i e p) a h rest =
    absurd (omega (arith, ap waiting (sym p ∙ gone_at i r.system.conns h.gone e)))
step-same {r} (round i env e p t) a h rest =
    absurd (omega (arith, ap counted (sym p ∙ gone_at i r.system.conns h.gone e)))
step-same {r} (stop i env e p t) a h rest =
    absurd (omega (arith, ap counted (sym p ∙ gone_at i r.system.conns h.gone e)))
step-same {r} (drop i ch id e p l) a h rest =
    absurd (omega (arith, ap counted (sym p ∙ gone_at i r.system.conns h.gone e)))
step-same {r} (close i e p n d) a h rest =
    absurd (omega (arith, ap counted (sym p ∙ gone_at i r.system.conns h.gone e)))
step-same {r} (push i id e m) a h rest =
    pushed-same i id rest e (gone_at i r.system.conns h.gone e) m
step-same {r} (sweep now) a h rest = absurd (cc)

-- A step of the rest leaves it so.
stays-IsOver :
    {r r' : Run}
    → RunStep r r'
    → IsOver r
    → AllRested r.system.server.broker.made r.system.conns
    → IsOver r' × (r'.system ≡ r.system)
stays-IsOver cancel o rest =
    (record { accepting = o.accepting; sweeping = o.sweeping; gone = o.gone }, refl)
stays-IsOver {r} (look i e p n) o rest =
    absurd (omega (arith, ap counted (sym p ∙ gone_at i r.system.conns o.gone e)))
stays-IsOver (go s a) o rest =
    let same = step-same s a o rest in
    (
      record {
        accepting = o.accepting;
        sweeping = o.sweeping;
        gone = subst (λ (y : System). All (λ c. c.phase ≡ gone) y.conns) (sym same) o.gone;
      },
      same,
    )
stays-IsOver (stop_accepting e) o rest =
    (record { accepting = refl; sweeping = o.sweeping; gone = o.gone }, refl)
stays-IsOver (stop_sweeping e) o rest =
    (record { accepting = o.accepting; sweeping = refl; gone = o.gone }, refl)
stays-IsOver (return_nil a b c) o rest = (record { accepting = a; sweeping = b; gone = c }, refl)

step-IsOver :
    {r r' : Run}
    → RunStep r r'
    → AllRested r.system.server.broker.made r.system.conns
    → (r.returned ≡ true → IsOver r)
    → r'.returned ≡ true
    → IsOver r'
step-IsOver (return_nil a b c) rest o h = record { accepting = a; sweeping = b; gone = c }
step-IsOver cancel rest o h = (stays-IsOver cancel (o h) rest).0
step-IsOver (look i e p n) rest o h = (stays-IsOver (look i e p n) (o h) rest).0
step-IsOver (go s a) rest o h = (stays-IsOver (go s a) (o h) rest).0
step-IsOver (stop_accepting e) rest o h = (stays-IsOver (stop_accepting e) (o h) rest).0
step-IsOver (stop_sweeping e) rest o h = (stays-IsOver (stop_sweeping e) (o h) rest).0

runs-IsOver : {s : Server} {r : Run} → IsFresh s → Runs (launch s) r → r.returned ≡ true → IsOver r
runs-IsOver fresh no_step h = absurd (cc)
runs-IsOver fresh (and_then p s) h =
    step-IsOver s (reach-AllRested fresh (runs-Reach p)) (runs-IsOver fresh p) h

gone-count : (conns : List Conn) → All (λ c. c.phase ≡ gone) conns → active_count conns ≡ 0
gone-count [] h = refl
gone-count (c ∷ conns) (h, hs) = omega (arith, ap counted h, gone-count conns hs)

later-IsOver :
    {r r' : Run}
    → Runs r r'
    → IsOver r
    → AllRested r.system.server.broker.made r.system.conns
    → IsOver r' × (r'.system ≡ r.system)
later-IsOver no_step o rest = (o, refl)
later-IsOver (and_then p s) o rest =
    let (over, same) = later-IsOver p o rest in
    let (still, same') =
      stays-IsOver s over
        (subst (λ (y : System). AllRested y.server.broker.made y.conns) (sym same) rest) in
    (still, same' ∙ same)

-- A server starts with a well-formed store and broker, no client counted and no subscription open. When
-- its `Run` has returned, with a round of a connection in one piece, then from there on the server and
-- its connections stay as they are, the counter of clients is 0, and the broker has no subscriber on
-- any channel.
pub returned_stopped :
    {s : Server} (ch : Bytes) {r r' : Run}
    → IsFresh s
    → Runs (launch s) r
    → r.returned ≡ true
    → Runs r r'
    → (r'.system ≡ r.system)
      × (r.system.server.clients ≡ pos 0)
      × (snapshot ch r.system.server.broker ≡ [])
returned_stopped ch {r} fresh p h later =
    let over = runs-IsOver fresh p h in
    let none_left : r.system.server.clients ≡ pos 0 =
      (reach-IsSound fresh (runs-Reach p)).clients ∙ ap pos (gone-count r.system.conns over.gone) in
    (
      (later-IsOver later over (reach-AllRested fresh (runs-Reach p))).1,
      none_left,
      no_leak ch fresh (runs-Reach p) none_left,
    )
