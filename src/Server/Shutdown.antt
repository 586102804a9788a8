-- ===== src/Server/Shutdown.antt =====
-- The end of `Run`: the context is cancelled, and every goroutine stops in its own time
-- (internal/server/server.go).
use voltkv.Base.{ℕ, ◌≡◌, Bool, true, false, not, ◌==◌, some, [], All, get_elem?, if◌then◌else◌}
use voltkv.Server.{Server, Conn, Env, running, gone}
use voltkv.Server.System.{System, Step, accept, begin, round, stop, drop, close, push, sweep}
pub mod Stopped
pub mod Last
pub mod Ends
pub mod Finish

-- A call of `Run` from the loop on: `cancelled` is `ctx.Err() != nil`, `accepting` and `sweeping` are
-- its loop and that of `sweepLoop`, `passed` has the connections whose last look at the context found
-- it alive and that have not done their round yet, and `returned` is set at the end.
pub record Run : Type 0 where
  pub system : System
  pub cancelled : Bool
  pub accepting : Bool
  pub sweeping : Bool
  pub passed : ℕ → Bool
  pub returned : Bool

abbrev pub launch : Server → Run
launch s = record {
  system = record { server = s; conns = [] };
  cancelled = false;
  accepting = true;
  sweeping = true;
  passed = λ i. false;
  returned = false;
}

abbrev pub mark : ℕ → Bool → (ℕ → Bool) → ℕ → Bool
mark i b f j = if j == i then b else f j

-- A round goes as its look at the context went, which found only a cancelled context cancelled.
abbrev pub IsRound : Run → ℕ → Env → Type 0
IsRound r i env = (env.cancelled ≡ not (r.passed i)) × (env.cancelled ≡ true → r.cancelled ≡ true)

-- What a step of the server needs of the loops: `Accept` is called by a loop that has not broken, and
-- a tick comes to a `sweepLoop` that has not returned.
abbrev pub IsAllowed : (r : Run) {sys' : System} → Step r.system sys' → Type 0
IsAllowed r (accept input) = r.accepting ≡ true
IsAllowed r (begin i e p) = Unit
IsAllowed r (round i env e p t) = IsRound r i env
IsAllowed r (stop i env e p t) = IsRound r i env
IsAllowed r (drop i ch id e p l) = Unit
IsAllowed r (close i e p n d) = Unit
IsAllowed r (push i id e m) = Unit
IsAllowed r (sweep now) = r.sweeping ≡ true

-- The looks that the step leaves.
abbrev pub passed_after : {sys sys' : System} → Step sys sys' → (ℕ → Bool) → ℕ → Bool
passed_after (round i env e p t) f = mark i false f
passed_after (stop i env e p t) f = mark i false f
passed_after _ f = f

pub data RunStep (r : Run) : Run → Type 0 where
  cancel : RunStep r (record r { cancelled = true })
  -- `ctx.Err() != nil` at the head of the loop of `handleConn` finds nothing.
  look :
      (i : ℕ) {c : Conn}
      → get_elem? r.system.conns i ≡ some c
      → c.phase ≡ running
      → r.cancelled ≡ false
      → RunStep r (record r { passed = mark i true r.passed })
  go :
      {sys' : System} (s : Step r.system sys')
      → IsAllowed r s
      → RunStep r (record r { system = sys'; passed = passed_after s r.passed })
  -- `Accept` fails on the closed listener.
  stop_accepting : r.cancelled ≡ true → RunStep r (record r { accepting = false })
  -- `<-ctx.Done()` in `sweepLoop`.
  stop_sweeping : r.cancelled ≡ true → RunStep r (record r { sweeping = false })
  -- `s.wg.Wait()` is over.
  return_nil :
      r.accepting ≡ false
      → r.sweeping ≡ false
      → All (λ c. c.phase ≡ gone) r.system.conns
      → RunStep r (record r { returned = true })

pub data Runs (r : Run) : Run → Type 0 where
  no_step : Runs r r
  and_then : {mid r' : Run} → Runs r mid → RunStep mid r' → Runs r r'
