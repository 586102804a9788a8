-- ===== src/Server/Sound.antt =====
-- What holds of the server and its connections in every state that they can reach
-- (internal/server/server.go).
use voltkv.Base.{
  subst, ℕ, zero, suc, ◌≡◌, refl, sym, ap, ◌∙◌, some, List, [], ◌∷◌, All, All-append, get_elem?,
  set, Bytes, arith, Bool-cases, inl, inr,
}
use voltkv.Base.Int.{pos_add, pos_sub, pos, ◌+ℤ◌, ◌-ℤ◌}
use voltkv.Base.Dict
use voltkv.Base.Dict.{Dict}
use voltkv.Store.Shards.Valid
use voltkv.Store.Walks.Sweep.{sweep_expired-IsValid}
use voltkv.Pubsub
use voltkv.Pubsub.{Subscription, Message, snapshot, member}
use voltkv.Pubsub.Valid.{listens, is_open, new-IsValid}
use voltkv.Command.Safety.{IsSafe, unsubscribe-IsSafe}
use voltkv.Server.{
  Server, Conn, Phase, spawned, running, leaving, gone, accepted, is_full, Env, turn, again, leave,
  receive,
}
use voltkv.Server.System.{System, Step, accept, begin, round, stop, drop, close, push, sweep}
use voltkv.Server.Counts.{
  tally-set, tally-concat, subs_of, counted, active_count, subs_of-concat, subs_of-set,
  get_elem?-subs_of,
}
use voltkv.Server.Turns.{Turns, turn-Turns}
use voltkv.Server.Pushes.{Pushed, receive-Pushed}
use voltkv.Server.Owners.{Owned, omit, Owned-IsSafe, IsSafe-Owned, concat-Owned}

-- A connection has subscriptions only while it is counted.
abbrev pub IsQuiet : Phase → Dict ℕ → Type 0
IsQuiet spawned subs = subs ≡ []
IsQuiet running subs = Unit
IsQuiet leaving subs = Unit
IsQuiet gone subs = subs ≡ []

pub record IsSound (sys : System) : Type 0 where
  pub clients : sys.server.clients ≡ pos (active_count sys.conns)
  pub store : Valid.IsValid sys.server.store
  pub broker : Pubsub.Valid.IsValid sys.server.broker
  pub owned : Owned sys.server.broker (subs_of sys.conns)
  pub quiet : All (λ c. IsQuiet c.phase c.subs) sys.conns

accepted-IsQuiet :
    (s : Server) (input : Bytes)
    → ((accepted s input).subs ≡ [])
      × (counted (accepted s input).phase ≡ 0)
      × IsQuiet (accepted s input).phase (accepted s input).subs
unfolding accepted
accepted-IsQuiet s input = elim (Bool-cases (is_full s)) [
  | inl e ↦ rw e (refl, refl, refl)
  | inr e ↦ rw e (refl, refl, refl)
]

set-IsQuiet :
    (i : ℕ) (conns : List Conn) (c : Conn)
    → All (λ x. IsQuiet x.phase x.subs) conns
    → IsQuiet c.phase c.subs
    → All (λ x. IsQuiet x.phase x.subs) (set conns i c)
set-IsQuiet i [] c h q = tt
set-IsQuiet zero (x ∷ conns) c (h, hs) q = (q, hs)
set-IsQuiet (suc i) (x ∷ conns) c (h, hs) q = (h, set-IsQuiet i conns c hs q)

module _ {sys : System} (h : IsSound sys) (i : ℕ) {c : Conn}
    (e : get_elem? sys.conns i ≡ some c) where
  -- The state as the connection finds it.
  pub at_conn : IsSafe (omit i (subs_of sys.conns)) sys.server.store sys.server.broker c.subs
  at_conn =
      Owned-IsSafe i (subs_of sys.conns) h.store h.broker h.owned
        (get_elem?-subs_of i sys.conns c e)

  -- A step of the connection.
  conn_step :
      (s : Server) (c' : Conn)
      → IsSafe (omit i (subs_of sys.conns)) s.store s.broker c'.subs
      → IsQuiet c'.phase c'.subs
      → s.clients ≡ pos (active_count (set sys.conns i c'))
      → IsSound (record { server = s; conns = set sys.conns i c' })
  conn_step s c' safe q n = record {
    clients = n;
    store = safe.store;
    broker = safe.broker;
    owned =
        rw (subs_of-set i sys.conns c')
          (IsSafe-Owned i (subs_of sys.conns) h.owned (get_elem?-subs_of i sys.conns c e) safe);
    quiet = set-IsQuiet i sys.conns c' h.quiet q;
  }

  -- A step of the connection that leaves the counter alone.
  same_count :
      (s : Server) (c' : Conn)
      → s.clients ≡ sys.server.clients
      → counted c'.phase ≡ counted c.phase
      → s.clients ≡ pos (active_count (set sys.conns i c'))
  same_count s c' n p = n ∙ h.clients ∙ ap pos (omega (arith, tally-set counted i sys.conns c c' e))

-- A round that goes on or ends.
module _ {sys : System} (h : IsSound sys) (i : ℕ) (env : Env) {c c' : Conn} {s : Server}
    (e : get_elem? sys.conns i ≡ some c) (p : c.phase ≡ running) where
  again-IsSound :
      turn env sys.server c ≡ again s c'
      → IsSound (record { server = s; conns = set sys.conns i c' })
  again-IsSound t =
      let (safe, _, n, ph) : Turns (omit i (subs_of sys.conns)) sys.server.cfg sys.server.clients
          c.phase (again s c') =
        rw t at (turn-Turns (omit i (subs_of sys.conns)) env sys.server c (at_conn h i e)) in
      conn_step h i e s c' safe (rw (ph ∙ p) tt) (same_count h i e s c' n (ap counted ph))

  leave-IsSound :
      turn env sys.server c ≡ leave s c'
      → IsSound (record { server = s; conns = set sys.conns i (record c' { phase = leaving }) })
  leave-IsSound t =
      let (safe, _, n, ph) : Turns (omit i (subs_of sys.conns)) sys.server.cfg sys.server.clients
          c.phase (leave s c') =
        rw t at (turn-Turns (omit i (subs_of sys.conns)) env sys.server c (at_conn h i e)) in
      conn_step h i e s (record c' { phase = leaving }) safe tt
        (same_count h i e s (record c' { phase = leaving }) n (sym (ap counted p)))

get_elem?-IsQuiet :
    (i : ℕ) (conns : List Conn) {c : Conn}
    → get_elem? conns i ≡ some c
    → All (λ x. IsQuiet x.phase x.subs) conns
    → IsQuiet c.phase c.subs
get_elem?-IsQuiet i [] e h = absurd (cc)
get_elem?-IsQuiet zero (x ∷ conns) {c} e (h, hs) =
    let same : x ≡ c = cc in subst (λ (y : Conn). IsQuiet y.phase y.subs) same h
get_elem?-IsQuiet (suc i) (x ∷ conns) e (h, hs) = get_elem?-IsQuiet i conns e hs

push-IsSound :
    {sys : System} (i id : ℕ) {c : Conn}
    → IsSound sys
    → get_elem? sys.conns i ≡ some c
    → IsSound (record {
      server = (receive id sys.server c).0;
      conns = set sys.conns i (receive id sys.server c).1;
    })
push-IsSound {sys} i id {c} h e =
    let ((safe, _, n, ph), same) : Pushed (omit i (subs_of sys.conns)) sys.server c
        (receive id sys.server c) =
      receive-Pushed id sys.server c (at_conn h i e) in
    conn_step h i e (receive id sys.server c).0 (receive id sys.server c).1 safe
      (rw (ph, same) (get_elem?-IsQuiet i sys.conns e h.quiet))
      (same_count h i e (receive id sys.server c).0 (receive id sys.server c).1 n (ap counted ph))

-- Every step keeps it.
pub step-IsSound : {sys sys' : System} → Step sys sys' → IsSound sys → IsSound sys'
step-IsSound {sys} (accept input) h =
    let (none_yet, uncounted, quiet) = accepted-IsQuiet sys.server input in
    record {
      clients =
          h.clients
          ∙ ap pos (
              omega (arith, tally-concat counted sys.conns (accepted sys.server input), uncounted));
      store = h.store;
      broker = h.broker;
      owned =
          rw (subs_of-concat sys.conns (accepted sys.server input), none_yet)
            (concat-Owned (subs_of sys.conns) h.owned);
      quiet = All-append (λ c. IsQuiet c.phase c.subs) sys.conns _ h.quiet (quiet, tt);
    }
step-IsSound {sys} (begin i {c} e p) h =
    let c' = record c { phase = running } in
    conn_step h i e (record sys.server { clients = sys.server.clients +ℤ pos 1 }) c' (at_conn h i e)
      tt
      (rw h.clients (
        pos_add (active_count sys.conns) 1
        ∙ ap pos (omega (arith, tally-set counted i sys.conns c c' e, ap counted p))))
step-IsSound (round i env e p t) h = again-IsSound h i env e p t
step-IsSound (stop i env e p t) h = leave-IsSound h i env e p t
step-IsSound {sys} (drop i ch id {c} e p l) h =
    let s = record sys.server { broker = Pubsub.unsubscribe id sys.server.broker } in
    let c' = record c { subs = Dict.erase ch c.subs } in
    conn_step h i e s c' (unsubscribe-IsSafe (at_conn h i e) ch id l) (rw p tt)
      (same_count h i e s c' refl refl)
step-IsSound {sys} (close i {c} e p n d) h =
    let c' = record c { phase = gone } in
    conn_step h i e (record sys.server { clients = sys.server.clients -ℤ pos 1 }) c' (at_conn h i e)
      n
      (rw h.clients
        (pos_sub _ 1 _ (omega (arith, tally-set counted i sys.conns c c' e, ap counted p))))
step-IsSound (push i id e m) h = push-IsSound i id h e
step-IsSound {sys} (sweep now) h = record {
  clients = h.clients;
  store = sweep_expired-IsValid now h.store;
  broker = h.broker;
  owned = h.owned;
  quiet = h.quiet;
}
