-- ===== src/Server/Shutdown/Ends.antt =====
-- The end of a cancelled run (internal/server/server.go).
use voltkv.Base.{
  ℕ, ◌≡◌, refl, ◌∙◌, true, false, not, ◌==◌, ==_iff, some, List, length, get_elem?, set,
  get_elem?-set, length-set, arith,
}
use voltkv.Base.Int.{pos}
use voltkv.Server.{Server, Conn, spawned, running, leaving, gone, Env, turn, leave, Phase}
use voltkv.Server.System.{System, accept, begin, round, stop, drop, close, push, sweep}
use voltkv.Server.Reachable.{IsFresh}
use voltkv.Server.Closing.{set-here, Leads, stay, first, can_close}
use voltkv.Server.Shutdown.{Run, launch, go, Runs, no_step, and_then}
use voltkv.Server.Shutdown.Stopped.{runs-Reach}

pub runs_trans : {r s t : Run} → Runs r s → Runs s t → Runs r t
runs_trans p no_step = p
runs_trans p (and_then q s) = and_then (runs_trans p q) s

-- Only connection `k` is not what it was.
pub record Only (k : ℕ) (base conns : List Conn) : Type 0 where
  pub size : length conns ≡ length base
  pub others : (j : ℕ) → (j == k) ≡ false → get_elem? conns j ≡ get_elem? base j

set-Only :
    {base conns : List Conn} (k : ℕ) {j : ℕ} (c : Conn)
    → j ≡ k
    → Only k base conns
    → Only k base (set conns j c)
set-Only {base} {conns} k {j} c e h = record {
  size = length-set conns j c ∙ h.size;
  others =
      λ i n. ground (arith, get_elem?-set conns j i c, h.others i n, n, ==_iff i k, ==_iff j i, e);
}

-- The steps of the clean-up of a connection are steps of the run.
lift-Leads :
    (k : ℕ) {base : List Conn} {start r : Run} {sys : System}
    → Runs start r
    → Leads k r.system sys
    → Only k base r.system.conns
    → Runs start (record r { system = sys }) × Only k base sys.conns
lift-Leads k p stay h = (p, h)
lift-Leads k p (first (drop j ch id {c} e q l) o ls) h =
    lift-Leads k (and_then p (go (drop j ch id e q l) tt)) ls (set-Only k _ o h)
lift-Leads k p (first (close j {c} e q n d) o ls) h =
    lift-Leads k (and_then p (go (close j e q n d) tt)) ls (set-Only k _ o h)
lift-Leads k p (first (push j id {c} e m) (o, q) ls) h =
    lift-Leads k (and_then p (go (push j id e m) tt)) ls (set-Only k _ o h)
lift-Leads k p (first (accept input) o ls) h = absurd o
lift-Leads k p (first (begin i e q) o ls) h = absurd o
lift-Leads k p (first (round i env e q t) o ls) h = absurd o
lift-Leads k p (first (stop i env e q t) o ls) h = absurd o
lift-Leads k p (first (sweep now) o ls) h = absurd o

-- The context is cancelled, and no connection has its last look at it behind it.
pub record IsCalm (r : Run) : Type 0 where
  pub cancelled : r.cancelled ≡ true
  pub looks : (j : ℕ) → r.passed j ≡ false

-- The run can go on until connection `k` is done, with the others of `base` as they are.
abbrev pub Brings : ℕ → Run → List Conn → Type 0
Brings k start base =
    (r : Run) × Runs start r
    × IsCalm r
    × Only k base r.system.conns
    × (c : Conn) × (get_elem? r.system.conns k ≡ some c)
    × (c.phase ≡ gone)

abbrev ending : Env
ending = record { cancelled = true; flushed = true; clock = λ n. pos 0; size = pos 0 }

leave-cancelled : (s : Server) (c : Conn) → turn ending s c ≡ leave s c
unfolding turn
leave-cancelled s c = refl

module _ {s : Server} (fresh : IsFresh s) {start : Run} (p : Runs (launch s) start) (k : ℕ)
    {base : List Conn} where
  from_leaving :
      {r : Run} {c : Conn}
      → Runs start r
      → IsCalm r
      → Only k base r.system.conns
      → get_elem? r.system.conns k ≡ some c
      → c.phase ≡ leaving
      → Brings k start base
  from_leaving q calm h e ph =
      let (sys', ls, c', e', g) = can_close fresh k (runs-Reach (runs_trans p q)) e ph in
      let (q', h') = lift-Leads k q ls h in
      (_, q', record { cancelled = calm.cancelled; looks = calm.looks }, h', c', e', g)

  from_running :
      {r : Run} {c : Conn}
      → Runs start r
      → IsCalm r
      → Only k base r.system.conns
      → get_elem? r.system.conns k ≡ some c
      → c.phase ≡ running
      → Brings k start base
  from_running {r} {c} q calm h e ph =
      let seen : true ≡ not (r.passed k) = ground (arith, calm.looks k) in
      from_leaving
        (and_then q
          (go (stop k ending e ph (leave-cancelled r.system.server c)) (seen, λ x. calm.cancelled)))
        (record { cancelled = calm.cancelled; looks = λ j. ground (arith, calm.looks j) })
        (set-Only k _ refl h) (set-here k r.system.conns c _ e) refl

  from_spawned :
      {r : Run} {c : Conn}
      → Runs start r
      → IsCalm r
      → Only k base r.system.conns
      → get_elem? r.system.conns k ≡ some c
      → c.phase ≡ spawned
      → Brings k start base
  from_spawned {r} {c} q calm h e ph =
      from_running (and_then q (go (begin k e ph) tt))
        (record { cancelled = calm.cancelled; looks = calm.looks }) (set-Only k _ refl h)
        (set-here k r.system.conns c _ e) refl

  pub from_phase :
      {r : Run} {c : Conn} (ph : Phase)
      → Runs start r
      → IsCalm r
      → Only k base r.system.conns
      → get_elem? r.system.conns k ≡ some c
      → c.phase ≡ ph
      → Brings k start base
  from_phase spawned q calm h e x = from_spawned q calm h e x
  from_phase running q calm h e x = from_running q calm h e x
  from_phase leaving q calm h e x = from_leaving q calm h e x
  from_phase gone q calm h e x = (_, q, calm, h, _, e, x)
