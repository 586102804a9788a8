-- ===== src/Server/Closing.antt =====
-- A connection that has left its loop can be closed (internal/server/server.go).
use voltkv.Base.{
  ℕ, zero, suc, ◌+◌, ◌<◌, ◌≤◌, ◌≡◌, ◌⊎◌, refl, ap, ◌∙◌, true, false, not, ◌&&◌, ◌||◌, is_some, ◌==◌,
  ==_iff, Option, none, some, List, [], ◌∷◌, All, length, get_elem?, set, get_elem?-set,
  bytes_eq_refl, arith, inl, inr, if◌then◌else◌,
}
use voltkv.Base.Dict
use voltkv.Base.Dict.{Dict, length-erase}
use voltkv.Pubsub.{Subscription, Message, member}
use voltkv.Pubsub.Valid.{is_open}
use voltkv.Command.Deliveries.{Follows}
use voltkv.Server.{Server, Conn, leaving, gone, receive, receive_at, receive_from, is_drained}
use voltkv.Server.System.{System, Step, drop, close, push, Reach, next}
use voltkv.Server.Sound.{at_conn}
use voltkv.Server.Reachable.{IsFresh, reach-IsSound}
use voltkv.Server.Follows.{reach-AllFollow, AllFollow-at, receive_conn}

-- The steps of the clean-up of connection `i`, and those of its delivery goroutines before its end.
abbrev pub IsOwn : {sys sys' : System} → ℕ → Step sys sys' → Type 0
IsOwn i (drop j ch id e p l) = j ≡ i
IsOwn i (close j e p n d) = j ≡ i
IsOwn i (push j id {c} e m) = (j ≡ i) × (c.phase ≡ leaving)
IsOwn i _ = ⊥

-- They lead from one state to another.
pub data Leads (i : ℕ) : System → System → Type 0 where
  stay : {sys : System} → Leads i sys sys
  first :
      {sys mid sys' : System} (s : Step sys mid) → IsOwn i s → Leads i mid sys' → Leads i sys sys'

-- The connection is done in some state that they lead to.
abbrev pub CanClose : ℕ → System → Type 0
CanClose i sys =
    (sys' : System) × Leads i sys sys'
    × (c : Conn) × (get_elem? sys'.conns i ≡ some c)
    × (c.phase ≡ gone)

then-CanClose :
    {sys mid : System} (i : ℕ) (s : Step sys mid) → IsOwn i s → CanClose i mid → CanClose i sys
then-CanClose i s o (sys', l, c, e, p) = (sys', first s o l, c, e, p)

zero_or_more : (n : ℕ) → (n ≡ 0) ⊎ (0 < n)
zero_or_more n = omega arith

-- The messages that wait in a subscription.
abbrev waits : Option Subscription → ℕ
waits none = 0
waits (some sub) = length sub.buffer

abbrev pending : List Subscription → List ℕ → ℕ
pending made [] = 0
pending made (id ∷ ids) = waits (get_elem? made id) + pending made ids

set-pending :
    (made : List Subscription) (id : ℕ) (sub : Subscription) (msg : Message) (rest : List Message)
    (ids : List ℕ)
    → get_elem? made id ≡ some sub
    → sub.buffer ≡ msg ∷ rest
    → (if member id ids then 1 else 0) + pending (set made id (record sub { buffer = rest })) ids
      ≤ pending made ids
set-pending made id sub msg rest [] e b = omega arith
set-pending made id sub msg rest (x ∷ ids) e b =
    let taken : waits (get_elem? (set made id (record sub { buffer = rest })) x)
          + (if x == id then 1 else 0)
        ≤ waits (get_elem? made x) =
      ground (
        arith,
        get_elem?-set made id x (record sub { buffer = rest }),
        ==_iff x id,
        ==_iff id x,
        ap length b,
      ) in
    ground (arith, taken, set-pending made id sub msg rest ids e b)

sub_drained :
    (sub : Subscription) (buffer : List Message)
    → sub.buffer ≡ buffer
    → (not (not sub.closed) || false) ≡ true
    → length sub.buffer ≡ 0
    → is_drained (some sub) ≡ true
sub_drained sub [] b h n = rw b (ground (arith, h))
sub_drained sub (msg ∷ rest) b h n = absurd (omega (arith, ap length b))

closed_drained :
    (o : Option Subscription)
    → (is_some o && (not (is_open o) || false)) ≡ true
    → waits o ≡ 0
    → is_drained o ≡ true
closed_drained none h n = refl
closed_drained (some sub) h n = sub_drained sub sub.buffer refl (ground (arith, h)) n

no_messages :
    (made : List Subscription) (ids : List ℕ)
    → Follows made [] ids
    → pending made ids ≡ 0
    → All (λ id. is_drained (get_elem? made id) ≡ true) ids
no_messages made [] f h = tt
no_messages made (id ∷ ids) (f, fs) h = (
  closed_drained (get_elem? made id) f (omega (arith, h)),
  no_messages made ids fs (omega (arith, h)),
)

-- A subscription that has one.
abbrev Holding : Option Subscription → Type 0
Holding o =
    (sub : Subscription) × (msg : Message) × (rest : List Message) × (o ≡ some sub)
    × (sub.buffer ≡ msg ∷ rest)

first_message :
    (sub : Subscription) (buffer : List Message)
    → sub.buffer ≡ buffer
    → 0 < length sub.buffer
    → Holding (some sub)
first_message sub [] b h = absurd (omega (arith, ap length b))
first_message sub (msg ∷ rest) b h = (sub, msg, rest, refl, b)

found_message : (o : Option Subscription) → 0 < waits o → Holding o
found_message none h = absurd (omega (arith, h))
found_message (some sub) h = first_message sub sub.buffer refl h

some_message :
    (made : List Subscription) (ids : List ℕ)
    → 0 < pending made ids
    → (id : ℕ) × (member id ids ≡ true) × Holding (get_elem? made id)
some_message made [] h = absurd (omega arith)
some_message made (id ∷ ids) h = elim (zero_or_more (waits (get_elem? made id))) [
  | inl e ↦
      let (j, m, rest) = some_message made ids (omega (arith, e)) in (j, ground (arith, m), rest)
  | inr e ↦ (id, ground (arith, ==_iff id id), found_message (get_elem? made id) e)
]

-- A delivery takes one.
receive-made :
    (id : ℕ) (s : Server) (c : Conn) (sub : Subscription) (msg : Message) (rest : List Message)
    → get_elem? s.broker.made id ≡ some sub
    → sub.buffer ≡ msg ∷ rest
    → (receive id s c).0.broker.made ≡ set s.broker.made id (record sub { buffer = rest })
unfolding receive
receive-made id s c sub msg rest e b =
    rw (e, receive_at) (ap (λ (l : List Message). (receive_from id s c sub l).0.broker.made) b)

pub set-here :
    (i : ℕ) (conns : List Conn) (c c' : Conn)
    → get_elem? conns i ≡ some c
    → get_elem? (set conns i c') i ≡ some c'
set-here i [] c c' e = cc
set-here zero (x ∷ conns) c c' e = refl
set-here (suc i) (x ∷ conns) c c' e = set-here i conns c c' e

module _ {start : Server} (fresh : IsFresh start) (i : ℕ) where
  follows :
      {sys : System} {c : Conn}
      → Reach start sys
      → get_elem? sys.conns i ≡ some c
      → Follows sys.server.broker.made c.subs c.delivering
  follows {sys} {c} r e =
      AllFollow-at sys.server.broker.made i sys.conns c e (reach-AllFollow fresh r)

  goroutines_end :
      {sys : System} {c : Conn}
      → Reach start sys
      → get_elem? sys.conns i ≡ some c
      → c.phase ≡ leaving
      → c.subs ≡ []
      → pending sys.server.broker.made c.delivering ≡ 0
      → CanClose i sys
  goroutines_end {sys} {c} r e p q none_left = (
    _,
    first
        (close i e p q
          (no_messages sys.server.broker.made c.delivering (rw q at (follows r e)) none_left))
        refl stay,
    record c { phase = gone },
    set-here i sys.conns c _ e,
    refl,
  )

  -- With no subscription left, each message that waits is handed on, and then the goroutines end.
  deliveries_end :
      (n : ℕ) {sys : System} {c : Conn}
      → Reach start sys
      → get_elem? sys.conns i ≡ some c
      → c.phase ≡ leaving
      → c.subs ≡ []
      → pending sys.server.broker.made c.delivering ≤ n
      → CanClose i sys
  deliveries_end zero r e p q h = goroutines_end r e p q (omega arith)
  deliveries_end (suc n) {sys} {c} r e p q h =
      elim (zero_or_more (pending sys.server.broker.made c.delivering)) [
        | inl none_left ↦ goroutines_end r e p q none_left
        | inr some_left ↦
            let (id, m, (sub, msg, rest, at_id, b)) =
              some_message sys.server.broker.made c.delivering some_left in
            let (same, still, ph) = receive_conn id sys.server c in
            let s : Step sys _ = push i id e m in
            then-CanClose i s (refl, p)
              (deliveries_end n (next r s) (set-here i sys.conns c _ e) (ph ∙ p) (still ∙ q) (
                rw (same, receive-made id sys.server c sub msg rest at_id b)
                  (ground (
                    arith,
                    set-pending sys.server.broker.made id sub msg rest c.delivering at_id b,
                    m,
                  ))))
      ]

  -- The deferred loop ends its subscriptions one after the other.
  drops_end :
      (n : ℕ) {sys : System} {c : Conn} (subs : Dict ℕ)
      → Reach start sys
      → get_elem? sys.conns i ≡ some c
      → c.phase ≡ leaving
      → c.subs ≡ subs
      → length subs ≤ n
      → CanClose i sys
  unfolding Dict.lookup
  drops_end n {sys} {c} [] r e p q h =
      deliveries_end (pending sys.server.broker.made c.delivering) r e p q (omega arith)
  drops_end zero ((ch, id) ∷ subs) r e p q h = absurd (omega arith)
  drops_end (suc n) {sys} {c} ((ch, id) ∷ subs) r e p q h =
      let l : Dict.lookup ch c.subs ≡ some id = rw q (rw (bytes_eq_refl ch) refl) in
      let s : Step sys _ = drop i ch id e p l in
      then-CanClose i s refl (
        drops_end n (Dict.erase ch c.subs) (next r s) (set-here i sys.conns c _ e) p refl (
          ground (
            arith,
            l,
            length-erase ch c.subs (at_conn (reach-IsSound fresh r) i e).distinct,
            ap length q,
          )))

  -- A server starts with a well-formed store and broker, no client counted and no subscription open.
  -- In every state that it can reach, a connection that has left its loop can be closed: some steps of its clean-up and of its delivery goroutines lead to a
  -- state in which it is done, so it does not wait for them in vain.
  pub can_close :
      {sys : System} {c : Conn}
      → Reach start sys
      → get_elem? sys.conns i ≡ some c
      → c.phase ≡ leaving
      → CanClose i sys
  can_close {c} r e p = drops_end (length c.subs) c.subs r e p refl (omega arith)
