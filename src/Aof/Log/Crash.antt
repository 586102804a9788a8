-- ===== src/Aof/Log/Crash.antt =====
-- The log after a crash (internal/aof/aof.go).
use voltkv.Base.{
  ℕ, ◌≡◌, ◌⊎◌, inl, inr, refl, sym, ap, ◌∙◌, List, [], ◌∷◌, ◌++◌, append_assoc, append-nil, All,
  All-append, Bytes,
}
use voltkv.Aof.{write_command, write_commands, finished, replay}
use voltkv.Aof.Replays.{IsCommand, apply_all, replay_torn, replay-write_commands}
use voltkv.Aof.Log.{
  Log, open_log, write_next, Runs, opened, append_one, write_one, spill, flush_all, close_channel,
}

write_commands-append :
    (xs ys : List (List Bytes)) → write_commands (xs ++ ys) ≡ write_commands xs ++ write_commands ys
unfolding write_commands
write_commands-append [] ys = refl
write_commands-append (x ∷ xs) ys =
    ap (λ l. write_command x ++ l) (write_commands-append xs ys)
    ∙ sym (append_assoc (write_command x) (write_commands xs) (write_commands ys))

-- The file is what it was with more behind it, and that, the buffer and the channel are all that was
-- appended, in order.
record IsExact (file : Bytes) (cmds : List (List Bytes)) (l : Log) : Type 0 where
  more : Bytes
  kept : l.file ≡ file ++ more
  rest : more ++ (l.buffer ++ write_commands l.queue) ≡ write_commands cmds

all_written :
    (more buffer cmd : Bytes) → more ++ (buffer ++ cmd) ++ [] ≡ more ++ (buffer ++ (cmd ++ []))
all_written more buffer cmd = simp (append_assoc, append-nil)

queued :
    (more buffer queue args cmds : Bytes)
    → more ++ (buffer ++ queue) ≡ cmds
    → more ++ (buffer ++ (queue ++ args)) ≡ cmds ++ args
queued more buffer queue args cmds h = rw (sym h) (simp append_assoc)

write_next-IsExact :
    {file : Bytes} {cmds : List (List Bytes)} (cmd : List Bytes) (rest : List (List Bytes))
    (l : Log)
    → l.queue ≡ cmd ∷ rest
    → IsExact file cmds l
    → IsExact file cmds (write_next cmd rest l)
unfolding write_commands
write_next-IsExact {file} cmd [] l e h = record {
  more = h.more ++ (l.buffer ++ write_command cmd);
  kept =
      ap (λ x. x ++ (l.buffer ++ write_command cmd)) h.kept
      ∙ append_assoc file h.more (l.buffer ++ write_command cmd);
  rest = all_written h.more l.buffer (write_command cmd) ∙ (rw e at h.rest);
}
write_next-IsExact cmd (next ∷ rest) l e h = record {
  more = h.more;
  kept = h.kept;
  rest =
      ap (λ x. h.more ++ x)
        (append_assoc l.buffer (write_command cmd) (write_commands (next ∷ rest)))
      ∙ (rw e at h.rest);
}

runs-IsExact :
    {file : Bytes} {cmds : List (List Bytes)} {l : Log}
    → Runs (open_log file) cmds l
    → IsExact file cmds l
unfolding write_commands
runs-IsExact {file} opened = record { more = []; kept = sym (append-nil file); rest = refl }
runs-IsExact (append_one {cmds} {l} args r _ _) =
    let h = runs-IsExact r in
    record {
      more = h.more;
      kept = h.kept;
      rest =
          rw (write_commands-append l.queue (args ∷ []), write_commands-append cmds (args ∷ []))
            (queued h.more l.buffer (write_commands l.queue) (write_commands (args ∷ []))
              (write_commands cmds) h.rest);
    }
runs-IsExact (write_one {l} cmd rest r e) = write_next-IsExact cmd rest l e (runs-IsExact r)
runs-IsExact {file} (spill {l} front back r e) =
    let h = runs-IsExact r in
    record {
      more = h.more ++ front;
      kept = ap (λ x. x ++ front) h.kept ∙ append_assoc file h.more front;
      rest =
          append_assoc h.more front (back ++ write_commands l.queue)
          ∙ ap (λ x. h.more ++ x) (sym (append_assoc front back (write_commands l.queue)))
          ∙ ap (λ x. h.more ++ (x ++ write_commands l.queue)) (sym e)
          ∙ h.rest;
    }
runs-IsExact {file} (flush_all {l} r) =
    let h = runs-IsExact r in
    record {
      more = h.more ++ l.buffer;
      kept = ap (λ x. x ++ l.buffer) h.kept ∙ append_assoc file h.more l.buffer;
      rest = append_assoc h.more l.buffer (write_commands l.queue) ∙ h.rest;
    }
runs-IsExact (close_channel r) =
    let h = runs-IsExact r in record { more = h.more; kept = h.kept; rest = h.rest }

-- Two ways to split a sequence.
splits :
    (xs ys front back : Bytes)
    → xs ++ ys ≡ front ++ back
    → ((zs : Bytes) × (xs ≡ front ++ zs) × (zs ++ ys ≡ back))
      ⊎ ((c : ℕ) × (zs : Bytes) × (front ≡ xs ++ c ∷ zs))
splits xs ys [] back h = inl (xs, refl, h)
splits [] ys (a ∷ front) back h = inr (a, front, refl)
splits (x ∷ xs) ys (a ∷ front) back h =
    let same : x ≡ a = cc in
    let tails : xs ++ ys ≡ front ++ back = cc in
    elim (splits xs ys front back tails) [
      | inl (zs, e, k) ↦ inl (zs, cc, k)
      | inr (c, zs, e) ↦ inr (c, zs, cc)
    ]

nothing_in : (xs ys : Bytes) → xs ++ ys ≡ [] → xs ≡ []
nothing_in [] ys h = refl
nothing_in (x ∷ xs) ys h = absurd (cc)

-- A file that ends in a part of a log replays as some of its commands.
module _ {ℓ} {S : Type ℓ} (apply : List Bytes → S → S) (s : S) where
  Restores : List (List Bytes) → List (List Bytes) → Bytes → Type ℓ
  Restores old cmds more =
      (done : List (List Bytes)) × (later : List (List Bytes)) × (cmds ≡ done ++ later)
      × (replay apply (write_commands old ++ more) s ≡ finished (apply_all apply (old ++ done) s))

  moved :
      (old : List (List Bytes)) (cmd : List Bytes) (more zs : Bytes)
      → more ≡ write_command cmd ++ zs
      → write_commands old ++ more ≡ write_commands (old ++ cmd ∷ []) ++ zs
  unfolding write_commands
  moved old cmd more zs e =
      rw (e, write_commands-append old (cmd ∷ [])) (simp (append_assoc, append-nil))

  one_more :
      (old : List (List Bytes)) (cmd : List Bytes) (cmds : List (List Bytes)) (more zs : Bytes)
      → more ≡ write_command cmd ++ zs
      → Restores (old ++ cmd ∷ []) cmds zs
      → Restores old (cmd ∷ cmds) more
  unfolding Restores write_commands
  one_more old cmd cmds more zs e (done, later, split, r) = (
    cmd ∷ done,
    later,
    ap (λ l. cmd ∷ l) split,
    ap (λ file. replay apply file s) (moved old cmd more zs e)
        ∙ r
        ∙ ap (λ l. finished (apply_all apply l s)) (append_assoc old (cmd ∷ []) done),
  )

  part_Restores :
      (old cmds : List (List Bytes)) (more unwritten : Bytes)
      → All IsCommand old
      → All IsCommand cmds
      → more ++ unwritten ≡ write_commands cmds
      → Restores old cmds more
  unfolding Restores write_commands
  part_Restores old [] more unwritten o a h = (
    [],
    [],
    refl,
    ap (λ x. replay apply (write_commands old ++ x) s) (nothing_in more unwritten h)
        ∙ ap (λ file. replay apply file s) (append-nil (write_commands old))
        ∙ replay-write_commands apply old s o
        ∙ ap (λ l. finished (apply_all apply l s)) (sym (append-nil old)),
  )
  part_Restores old (cmd ∷ cmds) more unwritten o (a, hs) h =
      elim (splits more unwritten (write_command cmd) (write_commands cmds) h) [
        | inl (zs, e, k) ↦ one_more old cmd cmds more zs e (
            part_Restores (old ++ cmd ∷ []) cmds zs unwritten (All-append IsCommand old _ o (a, tt))
              hs k)
        | inr (c, zs, e) ↦ (
          [],
          cmd ∷ cmds,
          refl,
          replay_torn apply old cmd more c zs s o a e
              ∙ ap (λ l. finished (apply_all apply l s)) (sym (append-nil old)),
        )
      ]

  -- At any moment of a run of the log, opened on a file of whole commands: the file that a crash leaves
  -- replays, with no panic, as those commands and then some of the commands appended since, the first
  -- of them up to one, in their order.
  pub crash_consistent :
      (old cmds : List (List Bytes)) {l : Log}
      → Runs (open_log (write_commands old)) cmds l
      → All IsCommand old
      → All IsCommand cmds
      → (done : List (List Bytes)) × (later : List (List Bytes)) × (cmds ≡ done ++ later)
        × (replay apply l.file s ≡ finished (apply_all apply (old ++ done) s))
  unfolding Restores
  crash_consistent old cmds {l} r o a =
      let h = runs-IsExact r in
      rw h.kept (part_Restores old cmds h.more (l.buffer ++ write_commands l.queue) o a h.rest)
