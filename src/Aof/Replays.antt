-- ===== src/Aof/Replays.antt =====
-- A replay of a log, whole or torn (internal/aof/aof.go).
use voltkv.Base.{
  ℕ, zero, suc, ◌+◌, ◌^◌, ◌<◌, ◌≤◌, ◌≡◌, refl, ap, sym, ◌∙◌, List, [], ◌∷◌, ◌++◌, append_assoc,
  append-nil, length, length-append, All, Bytes, arith,
}
use voltkv.Resp.{string_array, array_header}
use voltkv.Resp.RoundTrip.{Fits, read_command-string_array}
use voltkv.Resp.Torn.{IsError, read_command-torn}
use voltkv.Resp.Reader.{Read, got, fail, panic, read_command}
use voltkv.Aof.{write_command, write_commands, finished, apply_nonempty, replay_loop, replay}

-- A command as clients send them: at least a name, and what Go can allocate.
pub record IsCommand (args : List Bytes) : Type 0 where
  pub named : 0 < length args
  pub few : length args ≤ 2 ^ 44
  pub fits : All Fits args

-- `writeCommand` writes what a client would send.
pub write_command-string_array : (args : List Bytes) → write_command args ≡ string_array args
unfolding write_command string_array
write_command-string_array args = refl

read_written :
    (args : List Bytes) (t : Bytes)
    → IsCommand args
    → read_command (write_command args ++ t) ≡ got args t
read_written args t c =
    rw (write_command-string_array args) (read_command-string_array args t c.fits c.few)

module _ {ℓ} {S : Type ℓ} (apply : List Bytes → S → S) where
  -- The commands one after the other.
  abbrev pub apply_all : List (List Bytes) → S → S
  apply_all [] s = s
  apply_all (cmd ∷ cmds) s = apply_all cmds (apply cmd s)

  apply_named :
      (args : List Bytes) (s : S) → 0 < length args → apply_nonempty apply args s ≡ apply args s
  apply_named [] s h = absurd (omega arith)
  apply_named (a ∷ args) s h = refl

  loop_step :
      (f : ℕ) (args : List Bytes) (t : Bytes) (s : S)
      → IsCommand args
      → replay_loop apply (suc f) (write_command args ++ t) s ≡ replay_loop apply f t (apply args s)
  unfolding replay_loop
  loop_step f args t s c = rw (read_written args t c, replay_loop) (rw (apply_named args s c.named))

  loop_end :
      (f : ℕ) (torn : Bytes) (s : S)
      → IsError (read_command torn)
      → replay_loop apply (suc f) torn s ≡ finished s
  unfolding replay_loop
  loop_end f torn s e = go (read_command torn) refl e
    where
      go :
          (r : Read (List Bytes))
          → read_command torn ≡ r
          → IsError r
          → replay_loop apply (suc f) torn s ≡ finished s
      go (fail x) h e = rw (h, replay_loop)
      go (got a t) h e = absurd e
      go panic h e = absurd e

  loop-write_commands :
      (f : ℕ) (cmds : List (List Bytes)) (torn : Bytes) (s : S)
      → length cmds < f
      → All IsCommand cmds
      → IsError (read_command torn)
      → replay_loop apply f (write_commands cmds ++ torn) s ≡ finished (apply_all cmds s)
  unfolding write_commands
  loop-write_commands zero cmds torn s h cs e = absurd (omega arith)
  loop-write_commands (suc f) [] torn s h cs e = loop_end f torn s e
  loop-write_commands (suc f) (cmd ∷ cmds) torn s h (c, cs) e =
      ap (λ file. replay_loop apply (suc f) file s)
        (append_assoc (write_command cmd) (write_commands cmds) torn)
      ∙ loop_step f cmd (write_commands cmds ++ torn) s c
      ∙ loop-write_commands f cmds torn (apply cmd s) (omega arith) cs e

  length-write_commands : (cmds : List (List Bytes)) → length cmds ≤ length (write_commands cmds)
  unfolding write_commands write_command array_header
  length-write_commands [] = omega arith
  length-write_commands (cmd ∷ cmds) =
      omega
        (arith, length-append (write_command cmd) (write_commands cmds), length-write_commands cmds)

  -- A replay ends, without a crash, in the state that the logged commands lead to one after the
  -- other; a last command that is cut off before its last byte changes nothing.
  pub replay_torn :
      (cmds : List (List Bytes)) (last : List Bytes) (front : Bytes) (c : ℕ) (back : Bytes) (s : S)
      → All IsCommand cmds
      → IsCommand last
      → write_command last ≡ front ++ c ∷ back
      → replay apply (write_commands cmds ++ front) s ≡ finished (apply_all cmds s)
  unfolding replay
  replay_torn cmds last front c back s cs l split =
      loop-write_commands _ cmds front s
        (omega (arith, length-append (write_commands cmds) front, length-write_commands cmds)) cs
        (read_command-torn last front c back l.fits l.few
          (sym (write_command-string_array last) ∙ split))

  -- A replay of a whole log ends in the state that its commands lead to.
  pub replay-write_commands :
      (cmds : List (List Bytes)) (s : S)
      → All IsCommand cmds
      → replay apply (write_commands cmds) s ≡ finished (apply_all cmds s)
  unfolding replay
  replay-write_commands cmds s cs =
      ap (λ file. replay_loop apply (length (write_commands cmds) + 1) file s)
        (sym (append-nil (write_commands cmds)))
      ∙ loop-write_commands _ cmds [] s (omega (arith, length-write_commands cmds)) cs
          (unfold read_command in tt)
