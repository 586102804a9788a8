-- ===== src/Server/Shutdown/Last.antt =====
-- The last commands of the connections (internal/server/server.go).
use voltkv.Base.{ℕ, ◌+◌, Bool, ◌==◌, if◌then◌else◌}
use voltkv.Server.{Env}
use voltkv.Server.System.{System, Step, round, stop}
use voltkv.Server.Shutdown.{Run, go, Runs, no_step, and_then}

-- The calls of `ReadCommand` by connection `i`.
abbrev read_by : ℕ → ℕ → Env → ℕ
read_by i j env = if i == j then (if env.cancelled then 0 else 1) else 0

abbrev step_reads : {sys sys' : System} → ℕ → Step sys sys' → ℕ
step_reads i (round j env e p t) = read_by i j env
step_reads i (stop j env e p t) = read_by i j env
step_reads i _ = 0

abbrev pub reads : {r r' : Run} → ℕ → Runs r r' → ℕ
reads i no_step = 0
reads i (and_then p (go s a)) = step_reads i s + reads i p
reads i (and_then p s) = reads i p

abbrev one_if : Bool → ℕ
one_if b = if b then 1 else 0
