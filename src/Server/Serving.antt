-- ===== src/Server/Serving.antt =====
-- The loop of `handleConn`, among the other goroutines (internal/server/server.go).
use voltkv.Base.{
  ℕ, zero, suc, ◌+◌, ◌<◌, ◌≤◌, ◌≡◌, refl, Bool, true, false, Option, none, some, List, [], ◌∷◌,
  length, Bytes, arith, Bool-cases, inl, inr,
}
use voltkv.Base.Int.{pos, ◌+ℤ◌}
use voltkv.Resp.Reader.{Read, got, fail, panic, read_command}
use voltkv.Resp.Progress.{Leaves, read_command-Leaves}
use voltkv.Command.World.{World, GoError, nil, empty_command}
use voltkv.Server.{Server, Conn, Env, Turn, again, leave, crash, settle, run_command, turn}

module _ (envs : ℕ → Env) (others : ℕ → Server → Server) where
  -- Round `n` finds the server as the other goroutines left it; the connection's own part of the state
  -- is its own. `none` is fuel that ran out.
  unfoldable pub serve : ℕ → ℕ → Server → Conn → Option Turn
  serve zero n s c = none
  serve (suc f) n s c = elim (turn (envs n) (others n s) c) [
    | again s' c' ↦ serve f (suc n) s' c'
    | leave s' c' ↦ some (leave s' c')
    | crash ↦ some crash
  ]

-- If the loop goes on, its client has less left to send.
abbrev Shrinks : ℕ → Turn → Type 0
Shrinks n (again s c) = length c.input < n
Shrinks n (leave s c) = Unit
Shrinks n crash = Unit

weaken_Shrinks : (m n : ℕ) (t : Turn) → m ≤ n → Shrinks m t → Shrinks n t
weaken_Shrinks m n (again s c) l h = omega arith
weaken_Shrinks m n (leave s c) l h = tt
weaken_Shrinks m n crash l h = tt

settle-Shrinks :
    (n : ℕ) (flushed : Bool) (s : Server) (c : Conn) (r : Option (GoError × World))
    → length c.input < n
    → Shrinks n (settle flushed s c r)
settle-Shrinks n flushed s c none h = tt
settle-Shrinks n true s c (some (nil, w)) h = h
settle-Shrinks n false s c (some (nil, w)) h = tt
settle-Shrinks n flushed s c (some (empty_command, w)) h = tt

run_command-Shrinks :
    (n : ℕ) (env : Env) (args : List Bytes) (s : Server) (c : Conn)
    → length c.input < n
    → Shrinks n (run_command env args s c)
run_command-Shrinks n env [] s c h = h
run_command-Shrinks n env (a ∷ args) s c h =
    settle-Shrinks n env.flushed (record s { total_commands = s.total_commands +ℤ pos 1 }) c _ h

read-Shrinks :
    (n : ℕ) (env : Env) (s : Server) (c : Conn) (r : Read (List Bytes))
    → Leaves n r
    → Shrinks (suc n) (elim r as (λ _. Turn) [
      | got args rest ↦ run_command env args s (record c { input = rest })
      | fail e ↦ leave s c
      | panic ↦ crash
    ])
read-Shrinks n env s c (got args rest) h =
    run_command-Shrinks (suc n) env args s (record c { input = rest }) (omega arith)
read-Shrinks n env s c (fail x) h = tt
read-Shrinks n env s c panic h = tt

input-Shrinks :
    (env : Env) (s : Server) (c : Conn) (input : Bytes)
    → c.input ≡ input
    → Shrinks (length input) (turn env s c)
unfolding turn
input-Shrinks env s c [] e = elim (Bool-cases env.cancelled) [
  | inl q ↦ rw q tt
  | inr q ↦ rw (q, e) (unfold read_command in tt)
]
input-Shrinks env s c (x ∷ input) e = elim (Bool-cases env.cancelled) [
  | inl q ↦ rw q tt
  | inr q ↦ rw (q, e) (read-Shrinks (length input) env s c _ (read_command-Leaves x input))
]

module _ (envs : ℕ → Env) (others : ℕ → Server → Server) where
  abbrev Ends : Option Turn → Type 0
  Ends r = (t : Turn) × (r ≡ some t)

  after-Ends :
      (f n : ℕ) (s : Server) (c : Conn) (r : Turn)
      → turn (envs n) (others n s) c ≡ r
      → ((n : ℕ) (s' : Server) (c' : Conn)
          → length c'.input < f
          → Ends (serve envs others f n s' c'))
      → Shrinks f r
      → Ends (serve envs others (suc f) n s c)
  unfolding serve
  after-Ends f n s c (again s' c') e ih h = rw (e, serve) (ih (suc n) s' c' h)
  after-Ends f n s c (leave s' c') e ih h = (leave s' c', rw (e, serve))
  after-Ends f n s c crash e ih h = (crash, rw (e, serve))

  fueled-Ends :
      (f n : ℕ) (s : Server) (c : Conn) → length c.input < f → Ends (serve envs others f n s c)
  fueled-Ends zero n s c h = absurd (omega arith)
  fueled-Ends (suc f) n s c h = after-Ends f n s c _ refl (fueled-Ends f) (
      weaken_Shrinks _ _ (turn (envs n) (others n s) c) (omega arith)
        (input-Shrinks (envs n) (others n s) c c.input refl))

-- The client of a connection has sent a finite input and closed its side: whatever it sent, and
-- whatever the other goroutines do to the server in between, the loop of the connection ends.
pub serve_ends :
    (envs : ℕ → Env) (others : ℕ → Server → Server) (n : ℕ) (s : Server) (c : Conn)
    → (t : Turn) × (serve envs others (length c.input + 1) n s c ≡ some t)
serve_ends envs others n s c = fueled-Ends envs others (length c.input + 1) n s c (omega arith)
