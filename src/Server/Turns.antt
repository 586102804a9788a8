-- ===== src/Server/Turns.antt =====
-- A round of a connection keeps the state sound (internal/server/server.go).
use voltkv.Base.{
  ℕ, ◌≡◌, refl, Bool, true, false, Option, none, some, List, [], ◌∷◌, Bytes, Bool-cases, inl, inr,
}
use voltkv.Base.Int.{ℤ, pos, ◌+ℤ◌}
use voltkv.Base.Dict.{Dict}
use voltkv.Resp.Reader.{Read, read_command, got, fail, panic}
use voltkv.Command.World.{World, GoError, nil, empty_command}
use voltkv.Command.Safety.{Safe, IsSafe, execute-IsSafe}
use voltkv.Command.Keeps.{Returns}
use voltkv.Server.{
  Config, Server, Conn, Phase, Env, turn, Turn, again, leave, crash, settle, run_command, world_of,
}

-- What a round leaves: a safe state, the counter and the phase as they were.
abbrev pub Rounds : List (Dict ℕ) → Config → ℤ → Phase → Server → Conn → Type 0
Rounds others g n p s' c' =
    IsSafe others s'.store s'.broker c'.subs × (s'.cfg ≡ g) × (s'.clients ≡ n) × (c'.phase ≡ p)

abbrev pub Turns : List (Dict ℕ) → Config → ℤ → Phase → Turn → Type 0
Turns others g n p (again s' c') = Rounds others g n p s' c'
Turns others g n p (leave s' c') = Rounds others g n p s' c'
Turns others g n p crash = Unit

settle-Turns :
    (others : List (Dict ℕ)) (flushed : Bool) (s : Server) (c : Conn) (r : Option (GoError × World))
    → Returns (Safe others) r
    → Turns others s.cfg s.clients c.phase (settle flushed s c r)
settle-Turns others flushed s c none h = tt
settle-Turns others true s c (some (nil, w)) h = (h, refl, refl, refl)
settle-Turns others false s c (some (nil, w)) h = (h, refl, refl, refl)
settle-Turns others flushed s c (some (empty_command, w)) h = (h, refl, refl, refl)

run_command-Turns :
    (others : List (Dict ℕ)) (env : Env) (args : List Bytes) (s : Server) (c : Conn)
    → IsSafe others s.store s.broker c.subs
    → Turns others s.cfg s.clients c.phase (run_command env args s c)
unfolding world_of
run_command-Turns others env [] s c h = (h, refl, refl, refl)
run_command-Turns others env (a ∷ args) s c h =
    settle-Turns others env.flushed (record s { total_commands = s.total_commands +ℤ pos 1 }) c _
      (execute-IsSafe others (a ∷ args) _ h)

read-Turns :
    (others : List (Dict ℕ)) (env : Env) (s : Server) (c : Conn) (r : Read (List Bytes))
    → IsSafe others s.store s.broker c.subs
    → Turns others s.cfg s.clients c.phase (elim r as (λ _. Turn) [
      | got args rest ↦ run_command env args s (record c { input = rest })
      | fail e ↦ leave s c
      | panic ↦ crash
    ])
read-Turns others env s c (got args rest) h =
    run_command-Turns others env args s (record c { input = rest }) h
read-Turns others env s c (fail x) h = (h, refl, refl, refl)
read-Turns others env s c panic h = tt

pub turn-Turns :
    (others : List (Dict ℕ)) (env : Env) (s : Server) (c : Conn)
    → IsSafe others s.store s.broker c.subs
    → Turns others s.cfg s.clients c.phase (turn env s c)
unfolding turn
turn-Turns others env s c h = elim (Bool-cases env.cancelled) [
  | inl e ↦ rw e (h, refl, refl, refl)
  | inr e ↦ rw e (read-Turns others env s c (read_command c.input) h)
]
