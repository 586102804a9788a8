-- ===== src/Server/Counts.antt =====
-- How many connections are counted, and the subscriptions of each (internal/server/server.go).
use voltkv.Base.{ℕ, zero, suc, ◌+◌, ◌≡◌, refl, ap, some, List, [], ◌∷◌, ◌++◌, get_elem?, set, arith}
use voltkv.Base.Dict.{Dict}
use voltkv.Server.{Conn, Phase, spawned, running, leaving, gone}

abbrev pub subs_of : List Conn → List (Dict ℕ)
subs_of [] = []
subs_of (c ∷ conns) = c.subs ∷ subs_of conns

-- `handleConn` has counted the connection, and has not given it back.
abbrev pub counted : Phase → ℕ
counted spawned = 0
counted running = 1
counted leaving = 1
counted gone = 0

-- `handleConn` has been started, and has not counted the connection yet.
abbrev pub waiting : Phase → ℕ
waiting spawned = 1
waiting running = 0
waiting leaving = 0
waiting gone = 0

abbrev pub tally : (Phase → ℕ) → List Conn → ℕ
tally f [] = 0
tally f (c ∷ conns) = f c.phase + tally f conns

abbrev pub active_count : List Conn → ℕ
active_count conns = tally counted conns

pub subs_of-concat :
    (conns : List Conn) (c : Conn) → subs_of (conns ++ c ∷ []) ≡ subs_of conns ++ c.subs ∷ []
subs_of-concat [] c = refl
subs_of-concat (x ∷ conns) c = ap (λ l. x.subs ∷ l) (subs_of-concat conns c)

pub subs_of-set :
    (i : ℕ) (conns : List Conn) (c : Conn) → subs_of (set conns i c) ≡ set (subs_of conns) i c.subs
subs_of-set i [] c = refl
subs_of-set zero (x ∷ conns) c = refl
subs_of-set (suc i) (x ∷ conns) c = ap (λ l. x.subs ∷ l) (subs_of-set i conns c)

pub get_elem?-subs_of :
    (i : ℕ) (conns : List Conn) (c : Conn)
    → get_elem? conns i ≡ some c
    → get_elem? (subs_of conns) i ≡ some c.subs
get_elem?-subs_of i [] c h = cc
get_elem?-subs_of zero (x ∷ conns) c h = cc
get_elem?-subs_of (suc i) (x ∷ conns) c h = get_elem?-subs_of i conns c h

module _ (f : Phase → ℕ) where
  pub tally-concat :
      (conns : List Conn) (c : Conn) → tally f (conns ++ c ∷ []) ≡ tally f conns + f c.phase
  tally-concat [] c = omega arith
  tally-concat (x ∷ conns) c = omega (arith, tally-concat conns c)

  pub tally-set :
      (i : ℕ) (conns : List Conn) (c c' : Conn)
      → get_elem? conns i ≡ some c
      → tally f (set conns i c') + f c.phase ≡ tally f conns + f c'.phase
  tally-set i [] c c' h = cc
  tally-set zero (x ∷ conns) c c' h =
      let same : x ≡ c = cc in omega (arith, ap (λ (y : Conn). f y.phase) same)
  tally-set (suc i) (x ∷ conns) c c' h = omega (arith, tally-set i conns c c' h)
