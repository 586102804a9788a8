-- ===== src/Server/Prompt.antt =====
-- The limit on the number of clients, where connections are counted at once
-- (internal/server/server.go).
use voltkv.Base.{
  ℕ, ◌+◌, ◌≡◌, ◌≤◌, ◌<◌, refl, ap, ◌∙◌, true, false, some, [], ◌∷◌, ◌++◌, get_elem?, set, Bytes,
  arith, Bool-cases, inl, inr,
}
use voltkv.Base.Int.{ℤ, pos, pos_part, ◌≤ℤ◌, ◌+ℤ◌}
use voltkv.Base.{◌&&◌, ◌⊎◌, not}
use voltkv.Base.Int.{neg_part, ltb_ℤ, negsuc, ◌-ℤ◌}
use voltkv.Base.Dict
use voltkv.Base.Dict.{Dict}
use voltkv.Pubsub
use voltkv.Store.Time.{is_positive}
use voltkv.Server.{
  Config, Server, Conn, running, leaving, spawned, gone, accepted, is_full, turn, again, leave, Env,
  receive,
}
use voltkv.Server.System.{
  System, accept, begin, round, stop, drop, close, push, sweep, Reach, here, next,
}
use voltkv.Server.Counts.{counted, waiting, active_count, tally, tally-concat, tally-set, subs_of}
use voltkv.Server.Turns.{Turns, turn-Turns}
use voltkv.Server.Pushes.{Pushed, receive-Pushed}
use voltkv.Server.Owners.{omit}
use voltkv.Server.Sound.{IsSound, at_conn}
use voltkv.Server.Reachable.{IsFresh, reach-IsSound}

-- The server accepts a connection only when every goroutine started before has counted its own.
abbrev pub IsPrompt : {start : Server} {sys : System} → Reach start sys → Type 0
IsPrompt here = Unit
IsPrompt (next {sys} r (accept input)) = (tally waiting sys.conns ≡ 0) × IsPrompt r
IsPrompt (next r s) = IsPrompt r

-- The limit, and the connections that take a part of it.
record Within (limit : ℤ) (sys : System) : Type 0 where
  kept : sys.server.cfg.max_clients ≡ limit
  room : active_count sys.conns + tally waiting sys.conns ≤ pos_part limit

-- A step of a connection that takes no more than before.
replaced-Within :
    {limit : ℤ} {sys : System} (i : ℕ) (s : Server) (c c' : Conn)
    → Within limit sys
    → get_elem? sys.conns i ≡ some c
    → s.cfg ≡ sys.server.cfg
    → counted c'.phase + waiting c'.phase ≤ counted c.phase + waiting c.phase
    → Within limit (record { server = s; conns = set sys.conns i c' })
replaced-Within {sys} i s c c' h e g l = record {
  kept = ap (λ (x : Config). x.max_clients) g ∙ h.kept;
  room = omega (
    arith,
    h.room,
    l,
    tally-set counted i sys.conns c c' e,
    tally-set waiting i sys.conns c c' e,
  );
}

accepted_phase :
    (s : Server) (input : Bytes)
    → ((accepted s input).phase ≡ gone)
      ⊎ (((accepted s input).phase ≡ spawned) × (is_full s ≡ false))
unfolding accepted
accepted_phase s input = elim (Bool-cases (is_full s)) [
  | inl e ↦ inl (rw e refl)
  | inr e ↦ inr (rw e refl, e)
]

below :
    (a : ℕ) (z : ℤ)
    → is_positive z ≡ true
    → (is_positive z && not (ltb_ℤ (pos a) z)) ≡ false
    → a < pos_part z
below a (pos n) h e = ground (arith, h, e)
below a (negsuc n) h e = ground (arith, h, e)

no_sign : (z : ℤ) → is_positive z ≡ true → neg_part z ≡ 0
no_sign (pos n) h = refl
no_sign (negsuc n) h = ground (arith, h)

accept-Within :
    {limit : ℤ} {sys : System} (input : Bytes)
    → is_positive limit ≡ true
    → IsSound sys
    → Within limit sys
    → tally waiting sys.conns ≡ 0
    → Within limit (record sys { conns = sys.conns ++ accepted sys.server input ∷ [] })
accept-Within {limit} {sys} input pl sound h n = record {
  kept = h.kept;
  room = elim (accepted_phase sys.server input) [
    | inl e ↦ omega (
      arith,
      h.room,
      tally-concat counted sys.conns (accepted sys.server input),
      tally-concat waiting sys.conns (accepted sys.server input),
      ap counted e,
      ap waiting e,
    )
    | inr (e, free) ↦ omega (
      arith,
      below (active_count sys.conns) limit pl (rw (sound.clients, h.kept) at free),
      tally-concat counted sys.conns (accepted sys.server input),
      tally-concat waiting sys.conns (accepted sys.server input),
      ap counted e,
      ap waiting e,
    )
  ];
}

-- A round takes no more than before.
module _ {limit : ℤ} {sys : System} (sound : IsSound sys) (h : Within limit sys) (i : ℕ) (env : Env)
    {c c' : Conn} {s : Server} (e : get_elem? sys.conns i ≡ some c) (p : c.phase ≡ running) where
  again-Within :
      turn env sys.server c ≡ again s c'
      → Within limit (record { server = s; conns = set sys.conns i c' })
  again-Within t =
      let (_, g, _, ph) : Turns (omit i (subs_of sys.conns)) sys.server.cfg sys.server.clients
          c.phase (again s c') =
        rw t at (turn-Turns (omit i (subs_of sys.conns)) env sys.server c (at_conn sound i e)) in
      replaced-Within i s c c' h e g (omega (arith, ap counted ph, ap waiting ph))

  leave-Within :
      turn env sys.server c ≡ leave s c'
      → Within limit
          (record { server = s; conns = set sys.conns i (record c' { phase = leaving }) })
  leave-Within t =
      let (_, g, _, ph) : Turns (omit i (subs_of sys.conns)) sys.server.cfg sys.server.clients
          c.phase (leave s c') =
        rw t at (turn-Turns (omit i (subs_of sys.conns)) env sys.server c (at_conn sound i e)) in
      replaced-Within i s c (record c' { phase = leaving }) h e g (omega (arith, ap counted p))

push-Within :
    {limit : ℤ} {sys : System} (i id : ℕ) {c : Conn}
    → IsSound sys
    → Within limit sys
    → get_elem? sys.conns i ≡ some c
    → Within limit (record {
      server = (receive id sys.server c).0;
      conns = set sys.conns i (receive id sys.server c).1;
    })
push-Within {sys} i id {c} sound h e =
    let ((_, g, _, ph), _) : Pushed (omit i (subs_of sys.conns)) sys.server c
        (receive id sys.server c) =
      receive-Pushed id sys.server c (at_conn sound i e) in
    replaced-Within i (receive id sys.server c).0 c (receive id sys.server c).1 h e g
      (omega (arith, ap counted ph, ap waiting ph))

module _ {start : Server} (fresh : IsFresh start)
    (limited : is_positive start.cfg.max_clients ≡ true) where
  reach-Within :
      {sys : System} (r : Reach start sys) → IsPrompt r → Within start.cfg.max_clients sys
  reach-Within here h = record {
    kept = refl;
    room = omega (arith, no_sign start.cfg.max_clients limited);
  }
  reach-Within (next r (accept input)) (n, h) =
      accept-Within input limited (reach-IsSound fresh r) (reach-Within r h) n
  reach-Within (next {sys} r (begin i {c} e p)) h =
      replaced-Within i (record sys.server { clients = sys.server.clients +ℤ pos 1 }) c
        (record c { phase = running }) (reach-Within r h) e refl
        (omega (arith, ap counted p, ap waiting p))
  reach-Within (next r (round i env e p t)) h =
      again-Within (reach-IsSound fresh r) (reach-Within r h) i env e p t
  reach-Within (next r (stop i env e p t)) h =
      leave-Within (reach-IsSound fresh r) (reach-Within r h) i env e p t
  reach-Within (next {sys} r (drop i ch id {c} e p l)) h =
      replaced-Within i (record sys.server { broker = Pubsub.unsubscribe id sys.server.broker }) c
        (record c { subs = Dict.erase ch c.subs }) (reach-Within r h) e refl (omega arith)
  reach-Within (next {sys} r (close i {c} e p n d)) h =
      replaced-Within i (record sys.server { clients = sys.server.clients -ℤ pos 1 }) c
        (record c { phase = gone }) (reach-Within r h) e refl (omega arith)
  reach-Within (next r (push i id e m)) h =
      push-Within i id (reach-IsSound fresh r) (reach-Within r h) e
  reach-Within (next r (sweep t)) h = record {
    kept = (reach-Within r h).kept;
    room = (reach-Within r h).room;
  }

  -- A server that starts with a well-formed store and broker, no client counted and no subscription
  -- open, and that has a positive limit on the number of clients, keeps its counter of clients within
  -- the limit in every state that it reaches with each connection counted before the next one is
  -- accepted.
  pub limit_kept :
      {sys : System} (r : Reach start sys)
      → IsPrompt r
      → sys.server.clients ≤ℤ start.cfg.max_clients
  limit_kept r p =
      rw (reach-IsSound fresh r).clients
        (omega (arith, (reach-Within r p).room, no_sign start.cfg.max_clients limited))
