-- ===== src/Server/Drained.antt =====
-- A connection that is done has no delivery goroutine left: each of its subscriptions is closed and
-- empty, and stays so (internal/server/server.go).
use voltkv.Base.{
  ℕ, zero, suc, ◌≡◌, refl, sym, ap, ◌∙◌, subst, true, ◌==◌, ==_iff, Option, none, some, is_some,
  List, [], ◌∷◌, All, All-append, get_elem?, set, arith, Bool-cases, inl, inr,
}
use voltkv.Base.Dict
use voltkv.Pubsub.{Subscription, Message, member}
use voltkv.Command.Deliveries.{
  is_spent, is_spent_with, evolved, Evolves, Follows, unsubscribe-Evolves,
}
use voltkv.Server.{
  Server, Conn, running, leaving, gone, again, leave, receive, receive_at, receive_from, is_drained,
}
use voltkv.Server.System.{
  System, Step, accept, begin, round, stop, drop, close, push, sweep, Reach, here, next,
}
use voltkv.Server.Counts.{counted, subs_of}
use voltkv.Server.Owners.{omit}
use voltkv.Server.Turns.{Turns, turn-Turns}
use voltkv.Server.Sound.{IsSound, at_conn}
use voltkv.Server.Reachable.{IsFresh, reach-IsSound}
use voltkv.Server.Follows.{
  AllFollow, AllFollow-at, Goes, turn-Goes, unchanged-Evolves, receive-Evolves, receive_conn,
  accepted_none, reach-AllFollow,
}

abbrev AllSpent : List Subscription → List ℕ → Type 0
AllSpent made = All (λ id. is_spent (get_elem? made id) ≡ true)

abbrev IsRested : List Subscription → Conn → Type 0
IsRested made c = c.phase ≡ gone → AllSpent made c.delivering

abbrev pub AllRested : List Subscription → List Conn → Type 0
AllRested made = All (IsRested made)

Evolves-AllSpent :
    (made made' : List Subscription) (ids : List ℕ)
    → Evolves made made'
    → AllSpent made ids
    → AllSpent made' ids
Evolves-AllSpent made made' [] e h = tt
Evolves-AllSpent made made' (id ∷ ids) e (h, hs) =
    (spent_still (get_elem? made id) (e id) h, Evolves-AllSpent made made' ids e hs)
  where
    spent_still :
        (o : Option Subscription)
        → evolved o (get_elem? made' id) ≡ true
        → is_spent o ≡ true
        → is_spent (get_elem? made' id) ≡ true
    spent_still none a b = absurd (ground (arith, b))
    spent_still (some sub) a b = ground (arith, a, b)

Evolves-AllRested :
    (made made' : List Subscription) (conns : List Conn)
    → Evolves made made'
    → AllRested made conns
    → AllRested made' conns
Evolves-AllRested made made' [] e h = tt
Evolves-AllRested made made' (c ∷ conns) e (h, hs) =
    (λ g. Evolves-AllSpent made made' c.delivering e (h g), Evolves-AllRested made made' conns e hs)

set-AllRested :
    (made made' : List Subscription) (i : ℕ) (conns : List Conn) (c' : Conn)
    → Evolves made made'
    → AllRested made conns
    → IsRested made' c'
    → AllRested made' (set conns i c')
set-AllRested made made' i [] c' e h r = tt
set-AllRested made made' zero (c ∷ conns) c' e (h, hs) r =
    (r, Evolves-AllRested made made' conns e hs)
set-AllRested made made' (suc i) (c ∷ conns) c' e (h, hs) r = (
  λ g. Evolves-AllSpent made made' c.delivering e (h g),
  set-AllRested made made' i conns c' e hs r,
)

AllRested-at :
    (made : List Subscription) (i : ℕ) (conns : List Conn) (c : Conn)
    → get_elem? conns i ≡ some c
    → AllRested made conns
    → IsRested made c
AllRested-at made i [] c e h = absurd (cc)
AllRested-at made zero (x ∷ conns) c e (h, hs) =
    let same : x ≡ c = cc in subst (IsRested made) same h
AllRested-at made (suc i) (x ∷ conns) c e (h, hs) = AllRested-at made i conns c e hs

-- A goroutine whose subscription exists has ended on a closed and empty one.
drained_spent :
    (o : Option Subscription) → is_some o ≡ true → is_drained o ≡ true → is_spent o ≡ true
drained_spent none h d = absurd (ground (arith, h))
drained_spent (some sub) h d = go sub.buffer refl
  where
    go : (b : List Message) → sub.buffer ≡ b → is_spent (some sub) ≡ true
    go [] e = rw e (rw e at d)
    go (msg ∷ rest) e = absurd (ground (arith, rw e at d))

drained-AllSpent :
    (made : List Subscription) (ids : List ℕ)
    → Follows made [] ids
    → All (λ id. is_drained (get_elem? made id) ≡ true) ids
    → AllSpent made ids
drained-AllSpent made [] f h = tt
drained-AllSpent made (id ∷ ids) (f, fs) (h, hs) =
    (drained_spent (get_elem? made id) (ground (arith, f)) h, drained-AllSpent made ids fs hs)

counted-IsRested : (made : List Subscription) (c : Conn) → counted c.phase ≡ 1 → IsRested made c
counted-IsRested made c p g = absurd (ground (arith, p, ap counted g))

-- Every step keeps it.
step-AllRested :
    {sys sys' : System}
    → Step sys sys'
    → IsSound sys
    → AllFollow sys.server.broker.made sys.conns
    → AllRested sys.server.broker.made sys.conns
    → AllRested sys'.server.broker.made sys'.conns
step-AllRested {sys} (accept input) sound f h =
    All-append _ sys.conns _ h ((λ g. rw (accepted_none sys.server input) tt), tt)
step-AllRested {sys} (begin i {c} e p) sound f h =
    set-AllRested sys.server.broker.made _ i sys.conns _ (unchanged-Evolves sys.server.broker.made)
      h (counted-IsRested _ (record c { phase = running }) refl)
step-AllRested {sys} (round i env {c} {c'} {s} e p t) sound f h =
    let all = omit i (subs_of sys.conns) in
    let safe = at_conn sound i e in
    let (_, later) : Goes sys.server.broker.made (again s c') =
      rw t at (turn-Goes all env sys.server c safe (AllFollow-at _ i sys.conns c e f)) in
    let (_, _, _, ph) : Turns all sys.server.cfg sys.server.clients c.phase (again s c') =
      rw t at (turn-Turns all env sys.server c safe) in
    set-AllRested sys.server.broker.made s.broker.made i sys.conns c' later h
      (counted-IsRested _ c' (ap counted (ph ∙ p)))
step-AllRested {sys} (stop i env {c} {c'} {s} e p t) sound f h =
    let (_, later) : Goes sys.server.broker.made (leave s c') = rw t at (
      turn-Goes (omit i (subs_of sys.conns)) env sys.server c (at_conn sound i e)
        (AllFollow-at _ i sys.conns c e f)) in
    set-AllRested sys.server.broker.made s.broker.made i sys.conns _ later h
      (counted-IsRested _ (record c' { phase = leaving }) refl)
step-AllRested {sys} (drop i ch id {c} e p l) sound f h =
    set-AllRested sys.server.broker.made _ i sys.conns _
      (unsubscribe-Evolves (at_conn sound i e) ch id l) h
      (counted-IsRested _ (record c { subs = Dict.erase ch c.subs }) (ap counted p))
step-AllRested {sys} (close i {c} e p n d) sound f h =
    set-AllRested sys.server.broker.made _ i sys.conns _ (unchanged-Evolves sys.server.broker.made)
      h
      (λ g.
        drained-AllSpent sys.server.broker.made c.delivering
          (rw n at (AllFollow-at _ i sys.conns c e f)) d)
step-AllRested {sys} (push i id {c} e m) sound f h =
    let (same, _, ph) = receive_conn id sys.server c in
    let later = receive-Evolves id sys.server c in
    set-AllRested sys.server.broker.made _ i sys.conns _ later h (λ g. rw same (
      Evolves-AllSpent sys.server.broker.made _ c.delivering later
        (AllRested-at _ i sys.conns c e h (sym ph ∙ g))))
step-AllRested (sweep now) sound f h = h

-- In every reachable state the connections that are done have no delivery left to make.
pub reach-AllRested :
    {start : Server} {sys : System}
    → IsFresh start
    → Reach start sys
    → AllRested sys.server.broker.made sys.conns
reach-AllRested h here = tt
reach-AllRested h (next r s) =
    step-AllRested s (reach-IsSound h r) (reach-AllFollow h r) (reach-AllRested h r)

receive_from-spent :
    (id : ℕ) (s : Server) (c : Conn) (sub : Subscription) (b : List Message)
    → is_spent_with sub.closed b ≡ true
    → receive_from id s c sub b ≡ (s, c)
receive_from-spent id s c sub [] h = refl
receive_from-spent id s c sub (msg ∷ rest) h = absurd (ground (arith, h))

receive_at-spent :
    (id : ℕ) (s : Server) (c : Conn) (o : Option Subscription)
    → is_spent o ≡ true
    → receive_at id s c o ≡ (s, c)
receive_at-spent id s c none h = refl
receive_at-spent id s c (some sub) h = receive_from-spent id s c sub sub.buffer h

spent_at :
    (made : List Subscription) (id : ℕ) (ids : List ℕ)
    → AllSpent made ids
    → member id ids ≡ true
    → is_spent (get_elem? made id) ≡ true
spent_at made id [] h m = absurd (ground (arith, m))
spent_at made id (x ∷ ids) (h, hs) m = elim (Bool-cases (x == id)) [
  | inl e ↦ subst (λ j. is_spent (get_elem? made j) ≡ true) ((==_iff _ _).0 e) h
  | inr n ↦ spent_at made id ids hs (ground (arith, m, n))
]

set-same :
    (i : ℕ) (conns : List Conn) (c : Conn) → get_elem? conns i ≡ some c → set conns i c ≡ conns
set-same i [] c e = refl
set-same zero (x ∷ conns) c e = let same : x ≡ c = cc in ap (λ y. y ∷ conns) (sym same)
set-same (suc i) (x ∷ conns) c e = ap (λ l. x ∷ l) (set-same i conns c e)

-- So a delivery goroutine of such a connection changes nothing.
pub pushed-same :
    {sys : System} (i id : ℕ) {c : Conn}
    → AllRested sys.server.broker.made sys.conns
    → get_elem? sys.conns i ≡ some c
    → c.phase ≡ gone
    → member id c.delivering ≡ true
    → record {
      server = (receive id sys.server c).0;
      conns = set sys.conns i (receive id sys.server c).1;
    }
      ≡ sys
unfolding receive
pushed-same {sys} i id {c} h e g m =
    let spent =
      spent_at sys.server.broker.made id c.delivering
        (AllRested-at sys.server.broker.made i sys.conns c e h g) m in
    let none_left : receive id sys.server c ≡ (sys.server, c) =
      receive_at-spent id sys.server c (get_elem? sys.server.broker.made id) spent in
    ap (λ (p : Server × Conn). record { server = p.0; conns = set sys.conns i p.1 }) none_left
    ∙ ap (λ (l : List Conn). record { server = sys.server; conns = l }) (set-same i sys.conns c e)
