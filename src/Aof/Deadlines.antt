-- ===== src/Aof/Deadlines.antt =====
-- The deadlines that a rewrite of the log keeps (internal/aof/helpers.go, internal/aof/aof.go).
use voltkv.Base.{ℕ, ◌*◌, ◌/◌, ◌<◌, ◌≡◌, refl, List, [], ◌∷◌, Bytes, arith}
use voltkv.Base.Int.{pos, negsuc, ◌+ℤ◌}
use voltkv.Number.{cutoff}
use voltkv.Store.Time.{Time, until, quotient, scale, millisecond}
use voltkv.Store.Walks.{Snapshot}
use voltkv.Aof.{ms_until, with_expiry, value_commands, snapshot_commands}

until_later : (now : Time) (d : ℕ) → d < cutoff → until (now +ℤ pos d) now ≡ pos d
unfolding until ◌+ℤ◌
until_later (pos n) d h = ground arith
until_later (negsuc n) d h = ground arith

quotient_pos : (d : ℕ) → quotient (pos d) millisecond ≡ pos (d / 1_000_000)
unfolding quotient
quotient_pos d = ground arith

pub scale_pos : (q : ℕ) → q * 1_000_000 < cutoff → scale (pos q) millisecond ≡ pos (q * 1_000_000)
unfolding scale
scale_pos q h = ground arith

pub ms_until_later :
    (now : Time) (d : ℕ) → d < cutoff → ms_until (now +ℤ pos d) now ≡ pos (d / 1_000_000)
unfolding ms_until
ms_until_later now d h = rw (until_later now d h, quotient_pos d) (ground arith)

no_expiry_lem :
    (s : Snapshot) (now : Time) (cmds : List (List Bytes))
    → ms_until s.expires_at now ≡ pos 0
    → with_expiry s now cmds ≡ cmds
no_expiry_lem s now [] h = refl
no_expiry_lem s now (cmd ∷ cmds) h = ground arith

-- A key whose deadline is less than a millisecond ahead is rewritten as its value alone, with no
-- PEXPIRE behind it.
pub snapshot_commands_permanent :
    (s : Snapshot) (now : Time) (d : ℕ)
    → s.expires_at ≡ now +ℤ pos d
    → d < 1_000_000
    → snapshot_commands s now ≡ value_commands s.kind s
unfolding snapshot_commands
snapshot_commands_permanent s now d e h =
    let none_left : ms_until s.expires_at now ≡ pos 0 =
      rw (e, ms_until_later now d (omega arith)) (ground arith) in
    no_expiry_lem s now (value_commands s.kind s) none_left
