-- ===== src/Server/Pushes.antt =====
-- A message that is handed on to its client keeps the state sound (internal/server/server.go).
use voltkv.Base.{
  ℕ, ◌≡◌, refl, sym, ◌∙◌, some, List, [], ◌∷◌, get_elem?, set, get_elem?-set, Bytes, arith,
  Option-cases, inl, inr, ==_iff,
}
use voltkv.Base.Dict.{Dict}
use voltkv.Pubsub.{Subscription, Message, snapshot}
use voltkv.Pubsub.Valid.{listens, is_open}
use voltkv.Command.Safety.{IsSafe, buffers-IsSafe}
use voltkv.Server.{Server, Conn, receive, receive_at, receive_from}
use voltkv.Server.Turns.{Rounds}

-- What a subscription shows of itself but its messages.
pub take_message :
    (made : List Subscription) (id j : ℕ) (sub : Subscription) (rest : List Message)
    → get_elem? made id ≡ some sub
    → (is_open (get_elem? (set made id (record sub { buffer = rest })) j)
        ≡ is_open (get_elem? made j))
      × ((ch : Bytes)
          → listens ch (get_elem? (set made id (record sub { buffer = rest })) j)
            ≡ listens ch (get_elem? made j))
take_message made id j sub rest e = (
  ground (arith, get_elem?-set made id j (record sub { buffer = rest }), ==_iff id j),
  λ ch. ground (arith, get_elem?-set made id j (record sub { buffer = rest }), ==_iff id j),
)

-- A delivery leaves the subscriptions of its connection alone.
abbrev pub Pushed : List (Dict ℕ) → Server → Conn → Server × Conn → Type 0
Pushed others s c r = Rounds others s.cfg s.clients c.phase r.0 r.1 × (r.1.subs ≡ c.subs)

receive_from-Pushed :
    {others : List (Dict ℕ)} (id : ℕ) (s : Server) (c : Conn) (sub : Subscription)
    (buffer : List Message)
    → get_elem? s.broker.made id ≡ some sub
    → IsSafe others s.store s.broker c.subs
    → Pushed others s c (receive_from id s c sub buffer)
unfolding snapshot
receive_from-Pushed id s c sub [] e h = ((h, refl, refl, refl), refl)
receive_from-Pushed id s c sub (msg ∷ rest) e h = (
  (
    buffers-IsSafe h
        (record {
          exact =
              λ ch j. h.broker.exact ch j ∙ sym ((take_message s.broker.made id j sub rest e).1 ch);
          once = h.broker.once;
        })
        (λ j. (take_message s.broker.made id j sub rest e).0)
        (λ ch j. (take_message s.broker.made id j sub rest e).1 ch),
    refl,
    refl,
    refl,
  ),
  refl,
)

pub receive-Pushed :
    {others : List (Dict ℕ)} (id : ℕ) (s : Server) (c : Conn)
    → IsSafe others s.store s.broker c.subs
    → Pushed others s c (receive id s c)
unfolding receive
receive-Pushed id s c h = elim (Option-cases (get_elem? s.broker.made id)) [
  | inl e ↦ rw (e, receive_at) ((h, refl, refl, refl), refl)
  | inr (sub, e) ↦ rw (e, receive_at) (receive_from-Pushed id s c sub sub.buffer e h)
]
