-- ===== src/Aof/Log.antt =====
-- The log while the server runs: its channel, its writer goroutine and its file (internal/aof/aof.go).
pub mod Crash
use voltkv.Base.{ℕ, ◌<◌, ◌≡◌, Bool, true, false, List, [], ◌∷◌, ◌++◌, length, Bytes}
use voltkv.Aof.{write_command}

-- `queue` is what waits in the channel, `buffer` what the writer has not handed on, `file` what the
-- operating system has, and `shut` whether the channel is closed.
pub record Log : Type 0 where
  pub queue : List (List Bytes)
  pub buffer : Bytes
  pub file : Bytes
  pub shut : Bool

-- The capacity of the channel.
abbrev pub capacity : ℕ
capacity = 1024

-- `Open` of a file.
abbrev pub open_log : Bytes → Log
open_log file = record { queue = []; buffer = []; file = file; shut = false }

-- `l.ch <- args`, where the channel has room.
abbrev pub append : List Bytes → Log → Log
append args l = record l { queue = l.queue ++ args ∷ [] }

-- `Flush`, as in `Size` and at the end of `writeLoop`.
abbrev pub flush : Log → Log
flush l = record l { buffer = []; file = l.file ++ l.buffer }

-- A round of `writeLoop`, which has taken `cmd` and left `rest` in the channel.
abbrev pub write_next : List Bytes → List (List Bytes) → Log → Log
write_next cmd [] l = flush (record l { queue = []; buffer = l.buffer ++ write_command cmd })
write_next cmd (next ∷ rest) l = record l {
  queue = next ∷ rest;
  buffer = l.buffer ++ write_command cmd;
}

-- What a log comes to, with the commands appended on the way, in their order. A write into the buffered
-- writer can hand on some of what it holds at any time: `spill`.
pub data Runs (start : Log) : List (List Bytes) → Log → Type 0 where
  opened : Runs start [] start
  append_one :
      {cmds : List (List Bytes)} {l : Log} (args : List Bytes)
      → Runs start cmds l
      → l.shut ≡ false
      → length l.queue < capacity
      → Runs start (cmds ++ args ∷ []) (append args l)
  write_one :
      {cmds : List (List Bytes)} {l : Log} (cmd : List Bytes) (rest : List (List Bytes))
      → Runs start cmds l
      → l.queue ≡ cmd ∷ rest
      → Runs start cmds (write_next cmd rest l)
  spill :
      {cmds : List (List Bytes)} {l : Log} (front back : Bytes)
      → Runs start cmds l
      → l.buffer ≡ front ++ back
      → Runs start cmds (record l { file = l.file ++ front; buffer = back })
  flush_all : {cmds : List (List Bytes)} {l : Log} → Runs start cmds l → Runs start cmds (flush l)
  -- `Close`.
  close_channel :
      {cmds : List (List Bytes)} {l : Log}
      → Runs start cmds l
      → Runs start cmds (record l { shut = true })
