-- ===== src/Aof/Termination.antt =====
-- A replay of any file comes to an end (internal/aof/aof.go).
use voltkv.Base.{
  ℕ, zero, suc, ◌+◌, ◌<◌, ◌≡◌, ◌⊎◌, inl, inr, refl, List, [], ◌∷◌, length, Bytes, arith,
}
use voltkv.Resp.Reader.{Read, got, fail, panic, read_command}
use voltkv.Resp.Progress.{Leaves, read_command-Leaves}
use voltkv.Aof.{Replay, finished, crashed, apply_nonempty, replay_loop, replay}

module _ {ℓ} {S : Type ℓ} (apply : List Bytes → S → S) (P : S → Type ℓ)
    (keeps : (args : List Bytes) (s : S) → P s → P (apply args s)) where
  -- A replay that ended, or that a panic of the reader cut short.
  abbrev Ended : Replay S → Type ℓ
  Ended r = ((s : S) × (r ≡ finished s) × P s) ⊎ (r ≡ crashed)

  nonempty_keeps : (args : List Bytes) (s : S) → P s → P (apply_nonempty apply args s)
  nonempty_keeps [] s p = p
  nonempty_keeps (a ∷ args) s p = keeps (a ∷ args) s p

  round-Ended :
      (f : ℕ) (c : ℕ) (file : Bytes) (s : S) (r : Read (List Bytes))
      → P s
      → ((t : Bytes) (s' : S) → P s' → length t < f → Ended (replay_loop apply f t s'))
      → length file < f
      → read_command (c ∷ file) ≡ r
      → Leaves (length file) r
      → Ended (replay_loop apply (suc f) (c ∷ file) s)
  unfolding replay_loop
  round-Ended f c file s (got args t) p ih h e l =
      rw (e, replay_loop)
        (ih t (apply_nonempty apply args s) (nonempty_keeps args s p) (omega arith))
  round-Ended f c file s (fail x) p ih h e l = inl (s, rw (e, replay_loop), p)
  round-Ended f c file s panic p ih h e l = inr (rw (e, replay_loop))

  loop-Ended :
      (f : ℕ) (file : Bytes) (s : S) → P s → length file < f → Ended (replay_loop apply f file s)
  unfolding replay_loop
  loop-Ended zero file s p h = absurd (omega arith)
  loop-Ended (suc f) [] s p h = inl (s, unfold read_command in refl, p)
  loop-Ended (suc f) (c ∷ file) s p h =
      round-Ended f c file s _ p (loop-Ended f) (omega arith) refl (read_command-Leaves c file)

  -- Whatever bytes the file holds, a replay does not run out of fuel: it ends in a state, with every
  -- property that the executor keeps, or a panic of the reader cuts it short.
  pub replay_ends :
      (file : Bytes) (s : S)
      → P s
      → ((s' : S) × (replay apply file s ≡ finished s') × P s') ⊎ (replay apply file s ≡ crashed)
  unfolding replay
  replay_ends file s p = loop-Ended (length file + 1) file s p (omega arith)
