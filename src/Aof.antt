-- ===== src/Aof.antt =====
-- The append-only file (internal/aof/aof.go). A file is its bytes. The writer goroutine takes the
-- commands from its channel in the order in which they were sent, so a log is the list of them.
pub mod Replays
pub mod Termination
pub mod Deadlines
pub mod Restored
pub mod Log
use voltkv.Base.{
  ℕ, zero, suc, Bool, true, false, ◌&&◌, not, Option, none, some, List, [], ◌∷◌, ◌++◌, ◌+◌, length,
  ltb, if◌then◌else◌, Bytes, codes,
}
use voltkv.Base.Int.{ℤ, pos, ltb_ℤ}
use voltkv.Base.Dict.{Dict}
use voltkv.Number.{format_int}
use voltkv.Resp.{array_header, bulk_string, bulk_strings}
use voltkv.Resp.Reader.{Read, got, fail, panic, ReadError, read_command}
use voltkv.Store.Time.{Time, millisecond, quotient, until, is_zero}
use voltkv.Store.Entry.{Kind, kind_none, kind_string, kind_hash, kind_list}
use voltkv.Store.Walks.{Snapshot}
use voltkv.Store.Hashes.{flattened}

-- `writeCommand`.
unfoldable pub write_command : List Bytes → Bytes
write_command args = array_header (length args) ++ bulk_strings args

-- What `writeLoop` has flushed when its channel is empty.
unfoldable pub write_commands : List (List Bytes) → Bytes
unfolding write_command
write_commands [] = []
write_commands (cmd ∷ cmds) = write_command cmd ++ write_commands cmds

-- How a replay ends.
pub data Replay {ℓ} (S : Type ℓ) : Type ℓ where
  finished : S → Replay S
  -- The reader panicked.
  crashed : Replay S
  -- The fuel ran out.
  unfinished : Replay S

-- The loop of `Replay`; `apply` is the executor, here a function on its state `S`. The caller's
-- `apply` returns the error of flushing into a sink that has none.
module _ {ℓ} {S : Type ℓ} (apply : List Bytes → S → S) where
  abbrev pub apply_nonempty : List Bytes → S → S
  apply_nonempty [] s = s
  apply_nonempty (a ∷ args) s = apply (a ∷ args) s

  unfoldable pub replay_loop : ℕ → Bytes → S → Replay S
  replay_loop zero file s = unfinished
  replay_loop (suc f) file s = elim (read_command file) [
    | got args rest ↦ replay_loop f rest (apply_nonempty args s)
    | fail e ↦ finished s
    | panic ↦ crashed
  ]

  -- `Replay` of a file that exists.
  unfoldable pub replay : Bytes → S → Replay S
  unfolding replay_loop
  replay file s = replay_loop (length file + 1) file s

-- `msUntil`.
unfoldable pub ms_until : Time → Time → ℤ
unfolding quotient until
ms_until t now = let d = until t now in if ltb_ℤ d (pos 0) then pos 0 else quotient d millisecond

-- The `switch` of `snapshotCommands`.
abbrev pub unless_none : Bool → List Bytes → List (List Bytes)
unless_none true args = args ∷ []
unless_none false args = []

abbrev pub value_commands : Kind → Snapshot → List (List Bytes)
value_commands kind_none s = []
value_commands kind_string s = (codes "SET" ∷ s.key ∷ s.str ∷ []) ∷ []
value_commands kind_hash s =
    unless_none (ltb 0 (length s.hash)) (codes "HSET" ∷ s.key ∷ flattened s.hash)
value_commands kind_list s = unless_none (ltb 0 (length s.list)) (codes "RPUSH" ∷ s.key ∷ s.list)

-- The trailing `PEXPIRE`, where the entry has an expiry and some command recreates it.
abbrev pub with_expiry : Snapshot → Time → List (List Bytes) → List (List Bytes)
with_expiry s now [] = []
with_expiry s now (cmd ∷ cmds) =
    if not (is_zero s.expires_at) && ltb_ℤ (pos 0) (ms_until s.expires_at now)
    then cmd ∷ cmds ++ (codes "PEXPIRE" ∷ s.key ∷ format_int (ms_until s.expires_at now) ∷ []) ∷ []
    else cmd ∷ cmds

-- `snapshotCommands` at `now`.
unfoldable pub snapshot_commands : Snapshot → Time → List (List Bytes)
unfolding ms_until
snapshot_commands s now = with_expiry s now (value_commands s.kind s)

-- The file that `Rewrite` puts in place of the log.
unfoldable pub rewrite : List Snapshot → Time → Bytes
unfolding snapshot_commands write_commands
rewrite [] now = []
rewrite (s ∷ snap) now = write_commands (snapshot_commands s now) ++ rewrite snap now
