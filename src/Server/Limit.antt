-- ===== src/Server/Limit.antt =====
-- The limit on the number of clients (internal/server/server.go).
use voltkv.Base.{
  ℕ, zero, suc, ◌≡◌, refl, ap, ◌∙◌, subst, false, some, List, [], ◌∷◌, ◌++◌, get_elem?, set, arith,
}
use voltkv.Base.Int.{ℤ, pos, ◌+ℤ◌, pos_add}
use voltkv.Store.Time.{Time}
use voltkv.Server.{Config, Server, new, Conn, conn_of, running, spawned, Phase, accepted, is_full}
use voltkv.Server.System.{System, accept, begin, Reach, here, next}

-- A connection that has been accepted, and one whose goroutine has counted it.
abbrev idle : Phase → Conn
idle p = conn_of p [] []

-- `k` connections that are counted before `m` that are not yet.
abbrev row : ℕ → ℕ → List Conn
row zero zero = []
row zero (suc m) = idle spawned ∷ row zero m
row (suc k) m = idle running ∷ row k m

row-concat : (m : ℕ) → row zero m ++ idle spawned ∷ [] ≡ row zero (suc m)
row-concat zero = refl
row-concat (suc m) = ap (λ l. idle spawned ∷ l) (row-concat m)

row-get : (k m : ℕ) → get_elem? (row k (suc m)) k ≡ some (idle spawned)
row-get zero m = refl
row-get (suc k) m = row-get k m

row-set : (k m : ℕ) → set (row k (suc m)) k (idle running) ≡ row (suc k) m
row-set zero m = refl
row-set (suc k) m = ap (λ l. idle running ∷ l) (row-set k m)

module _ (cfg : Config) (now : Time) where
  abbrev start : Server
  start = new cfg now

  not_full : is_full start ≡ false
  unfolding new
  not_full = ground arith

  all_accepted : (m : ℕ) → Reach start (record { server = start; conns = row zero m })
  unfolding accepted
  all_accepted zero = here
  all_accepted (suc m) =
      subst (λ (l : List Conn). Reach start (record { server = start; conns = l })) (row-concat m)
        (rw not_full at (next (all_accepted m) (accept [])))

  -- `k` of them counted.
  abbrev counting : ℤ → List Conn → System
  counting n l = record { server = record start { clients = n }; conns = l }

  one_more : (k : ℕ) → pos k +ℤ pos 1 ≡ pos (suc k)
  one_more k = pos_add k 1 ∙ ap pos (omega arith)

  all_begun : (k m : ℕ) → Reach start (counting (pos k) (row k m))
  unfolding new
  all_begun zero m = all_accepted m
  all_begun (suc k) m =
      let began : Reach start (counting (pos k +ℤ pos 1) (set (row k (suc m)) k (idle running))) =
        next (all_begun k (suc m)) (begin k (row-get k m) refl) in
      subst (λ (n : ℤ). Reach start (counting n (row (suc k) m))) (one_more k)
        (subst (λ (l : List Conn). Reach start (counting (pos k +ℤ pos 1) l)) (row-set k m) began)

  -- Whatever the limit on the number of clients, a server can reach a state in which its counter of
  -- clients is any number at all.
  pub over_limit : (n : ℕ) → (sys : System) × Reach (new cfg now) sys × (sys.server.clients ≡ pos n)
  over_limit n = (counting (pos n) (row n zero), all_begun n zero, refl)
