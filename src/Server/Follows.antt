-- ===== src/Server/Follows.antt =====
-- In every reachable state a subscription with a delivery goroutine is open only while its
-- connection has it (internal/server/server.go).
use voltkv.Base.{
  ℕ, zero, suc, ◌≡◌, refl, ap, subst, Bool, true, false, ==_iff, Option, none, some, List, [], ◌∷◌,
  All, All-append, get_elem?, set, get_elem?-set, Bytes, arith, Option-cases, Bool-cases, inl, inr,
}
use voltkv.Base.Int.{pos, ◌+ℤ◌}
use voltkv.Base.Dict.{Dict}
use voltkv.Resp.Reader.{Read, read_command, got, fail, panic}
use voltkv.Pubsub.{Subscription, Message}
use voltkv.Command.World.{World, GoError, nil, empty_command}
use voltkv.Command.Safety.{IsSafe}
use voltkv.Command.Deliveries.{
  is_spent_with, Delivers, Follows, Evolves, Evolves-Follows, unsubscribe-Follows,
  unsubscribe-Evolves, execute-Delivers,
}
use voltkv.Command.Keeps.{Returns}
use voltkv.Server.{
  Server, Conn, accepted, is_full, Env, turn, Turn, again, leave, crash, settle, run_command,
  world_of, receive, receive_at, receive_from,
}
use voltkv.Server.System.{
  System, Step, accept, begin, round, stop, drop, close, push, sweep, Reach, here, next,
}
use voltkv.Server.Counts.{subs_of}
use voltkv.Server.Owners.{omit}
use voltkv.Server.Sound.{IsSound, at_conn}
use voltkv.Server.Reachable.{IsFresh, reach-IsSound}

abbrev pub AllFollow : List Subscription → List Conn → Type 0
AllFollow made = All (λ c. Follows made c.subs c.delivering)

pub unchanged-Evolves : (made : List Subscription) → Evolves made made
unchanged-Evolves made id = ground arith

-- What a round leaves of them.
abbrev pub Goes : List Subscription → Turn → Type 0
Goes made₀ (again s c) = Follows s.broker.made c.subs c.delivering × Evolves made₀ s.broker.made
Goes made₀ (leave s c) = Follows s.broker.made c.subs c.delivering × Evolves made₀ s.broker.made
Goes made₀ crash = Unit

module _ (others : List (Dict ℕ)) where
  settle-Goes :
      (made₀ : List Subscription) (flushed : Bool) (s : Server) (c : Conn)
      (r : Option (GoError × World))
      → Returns (Delivers others made₀) r
      → Goes made₀ (settle flushed s c r)
  settle-Goes made₀ flushed s c none h = tt
  settle-Goes made₀ true s c (some (nil, w)) h = (h.follows, h.evolves)
  settle-Goes made₀ false s c (some (nil, w)) h = (h.follows, h.evolves)
  settle-Goes made₀ flushed s c (some (empty_command, w)) h = (h.follows, h.evolves)

  run_command-Goes :
      (env : Env) (args : List Bytes) (s : Server) (c : Conn)
      → IsSafe others s.store s.broker c.subs
      → Follows s.broker.made c.subs c.delivering
      → Goes s.broker.made (run_command env args s c)
  unfolding world_of
  run_command-Goes env [] s c h f = (f, unchanged-Evolves s.broker.made)
  run_command-Goes env (a ∷ args) s c h f =
      settle-Goes s.broker.made env.flushed
        (record s { total_commands = s.total_commands +ℤ pos 1 }) c _
        (execute-Delivers others (a ∷ args) _ h f)

  read-Goes :
      (env : Env) (s : Server) (c : Conn) (r : Read (List Bytes))
      → IsSafe others s.store s.broker c.subs
      → Follows s.broker.made c.subs c.delivering
      → Goes s.broker.made (elim r as (λ _. Turn) [
        | got args rest ↦ run_command env args s (record c { input = rest })
        | fail e ↦ leave s c
        | panic ↦ crash
      ])
  read-Goes env s c (got args rest) h f =
      run_command-Goes env args s (record c { input = rest }) h f
  read-Goes env s c (fail x) h f = (f, unchanged-Evolves s.broker.made)
  read-Goes env s c panic h f = tt

  pub turn-Goes :
      (env : Env) (s : Server) (c : Conn)
      → IsSafe others s.store s.broker c.subs
      → Follows s.broker.made c.subs c.delivering
      → Goes s.broker.made (turn env s c)
  unfolding turn
  turn-Goes env s c h f = elim (Bool-cases env.cancelled) [
    | inl e ↦ rw e (f, unchanged-Evolves s.broker.made)
    | inr e ↦ rw e (read-Goes env s c (read_command c.input) h f)
  ]

-- A delivery.
receive_from-Evolves :
    (id : ℕ) (s : Server) (c : Conn) (sub : Subscription) (buffer : List Message)
    → get_elem? s.broker.made id ≡ some sub
    → sub.buffer ≡ buffer
    → Evolves s.broker.made (receive_from id s c sub buffer).0.broker.made
receive_from-Evolves id s c sub [] e b = unchanged-Evolves s.broker.made
receive_from-Evolves id s c sub (msg ∷ rest) e b = λ j. ground (
  arith,
  get_elem?-set s.broker.made id j (record sub { buffer = rest }),
  ==_iff id j,
  ap (is_spent_with sub.closed) b,
)

pub receive-Evolves :
    (id : ℕ) (s : Server) (c : Conn) → Evolves s.broker.made (receive id s c).0.broker.made
unfolding receive
receive-Evolves id s c = elim (Option-cases (get_elem? s.broker.made id)) [
  | inl e ↦ rw (e, receive_at) (unchanged-Evolves s.broker.made)
  | inr (sub, e) ↦ rw (e, receive_at) (receive_from-Evolves id s c sub sub.buffer e refl)
]

receive_from_conn :
    (id : ℕ) (s : Server) (c : Conn) (sub : Subscription) (buffer : List Message)
    → ((receive_from id s c sub buffer).1.delivering ≡ c.delivering)
      × ((receive_from id s c sub buffer).1.subs ≡ c.subs)
      × ((receive_from id s c sub buffer).1.phase ≡ c.phase)
receive_from_conn id s c sub [] = (refl, refl, refl)
receive_from_conn id s c sub (msg ∷ rest) = (refl, refl, refl)

-- It changes nothing of its connection but the output.
pub receive_conn :
    (id : ℕ) (s : Server) (c : Conn)
    → ((receive id s c).1.delivering ≡ c.delivering)
      × ((receive id s c).1.subs ≡ c.subs)
      × ((receive id s c).1.phase ≡ c.phase)
unfolding receive
receive_conn id s c = elim (Option-cases (get_elem? s.broker.made id)) [
  | inl e ↦ rw (e, receive_at) (refl, refl, refl)
  | inr (sub, e) ↦ rw (e, receive_at) (receive_from_conn id s c sub sub.buffer)
]

-- What the others see of a step of one connection.
Evolves-AllFollow :
    (made made' : List Subscription) (conns : List Conn)
    → Evolves made made'
    → AllFollow made conns
    → AllFollow made' conns
Evolves-AllFollow made made' [] e h = tt
Evolves-AllFollow made made' (x ∷ conns) e (h, hs) =
    (Evolves-Follows made made' x.subs x.delivering e h, Evolves-AllFollow made made' conns e hs)

set-AllFollow :
    (made made' : List Subscription) (i : ℕ) (conns : List Conn) (c' : Conn)
    → Evolves made made'
    → AllFollow made conns
    → Follows made' c'.subs c'.delivering
    → AllFollow made' (set conns i c')
set-AllFollow made made' i [] c' e h f = tt
set-AllFollow made made' zero (x ∷ conns) c' e (h, hs) f =
    (f, Evolves-AllFollow made made' conns e hs)
set-AllFollow made made' (suc i) (x ∷ conns) c' e (h, hs) f =
    (Evolves-Follows made made' x.subs x.delivering e h, set-AllFollow made made' i conns c' e hs f)

pub AllFollow-at :
    (made : List Subscription) (i : ℕ) (conns : List Conn) (c : Conn)
    → get_elem? conns i ≡ some c
    → AllFollow made conns
    → Follows made c.subs c.delivering
AllFollow-at made i [] c e h = absurd (cc)
AllFollow-at made zero (x ∷ conns) c e (h, hs) =
    let same : x ≡ c = cc in subst (λ (y : Conn). Follows made y.subs y.delivering) same h
AllFollow-at made (suc i) (x ∷ conns) c e (h, hs) = AllFollow-at made i conns c e hs

pub accepted_none : (s : Server) (input : Bytes) → (accepted s input).delivering ≡ []
unfolding accepted
accepted_none s input = elim (Bool-cases (is_full s)) [ inl e ↦ rw e refl | inr e ↦ rw e refl ]

-- Every step keeps it.
step-AllFollow :
    {sys sys' : System}
    → Step sys sys'
    → IsSound sys
    → AllFollow sys.server.broker.made sys.conns
    → AllFollow sys'.server.broker.made sys'.conns
step-AllFollow {sys} (accept input) sound h =
    All-append _ sys.conns _ h (rw (accepted_none sys.server input) tt, tt)
step-AllFollow {sys} (begin i {c} e p) sound h =
    set-AllFollow sys.server.broker.made _ i sys.conns _ (unchanged-Evolves sys.server.broker.made)
      h (AllFollow-at _ i sys.conns c e h)
step-AllFollow {sys} (round i env {c} {c'} {s} e p t) sound h =
    let (f, later) : Goes sys.server.broker.made (again s c') = rw t at (
      turn-Goes (omit i (subs_of sys.conns)) env sys.server c (at_conn sound i e)
        (AllFollow-at _ i sys.conns c e h)) in
    set-AllFollow sys.server.broker.made s.broker.made i sys.conns c' later h f
step-AllFollow {sys} (stop i env {c} {c'} {s} e p t) sound h =
    let (f, later) : Goes sys.server.broker.made (leave s c') = rw t at (
      turn-Goes (omit i (subs_of sys.conns)) env sys.server c (at_conn sound i e)
        (AllFollow-at _ i sys.conns c e h)) in
    set-AllFollow sys.server.broker.made s.broker.made i sys.conns _ later h f
step-AllFollow {sys} (drop i ch id {c} e p l) sound h =
    set-AllFollow sys.server.broker.made _ i sys.conns _
      (unsubscribe-Evolves (at_conn sound i e) ch id l) h
      (unsubscribe-Follows (at_conn sound i e) ch id c.delivering l
        (AllFollow-at _ i sys.conns c e h))
step-AllFollow {sys} (close i {c} e p n d) sound h =
    set-AllFollow sys.server.broker.made _ i sys.conns _ (unchanged-Evolves sys.server.broker.made)
      h (AllFollow-at _ i sys.conns c e h)
step-AllFollow {sys} (push i id {c} e m) sound h =
    let (same, still, _) = receive_conn id sys.server c in
    set-AllFollow sys.server.broker.made _ i sys.conns _ (receive-Evolves id sys.server c) h (
      rw (same, still)
        (Evolves-Follows sys.server.broker.made _ c.subs c.delivering
          (receive-Evolves id sys.server c) (AllFollow-at _ i sys.conns c e h)))
step-AllFollow (sweep now) sound h = h

pub reach-AllFollow :
    {start : Server} {sys : System}
    → IsFresh start
    → Reach start sys
    → AllFollow sys.server.broker.made sys.conns
reach-AllFollow h here = tt
reach-AllFollow h (next r s) = step-AllFollow s (reach-IsSound h r) (reach-AllFollow h r)
