-- ===== src/Aof/Restored.antt =====
-- The deadlines that a rewritten log restores when it is replayed (internal/aof/aof.go,
-- internal/command/command.go).
use voltkv.Base.{
  ℕ, ◌/◌, ◌<◌, ◌≤◌, ◌≡◌, refl, ◌∙◌, true, false, some, List, [], ◌∷◌, ◌++◌, Bytes, codes, arith,
  bytes_eq,
}
use voltkv.Base.Int.{ℤ, pos, ◌+ℤ◌, ◌≤ℤ◌}
use voltkv.Number.{cutoff, format_int, parse_int64}
use voltkv.Number.RoundTrip.{parse_int64-format_int}
use voltkv.Store.Time.{Time, add, scale, millisecond, is_zero}
use voltkv.Store.Entry.{Entry}
use voltkv.Store.Shards.{Store, get_live, write}
use voltkv.Store.Generic.{expire}
use voltkv.Store.Walks.{Snapshot}
use voltkv.Command.World.{World, nil, to_upper}
use voltkv.Command.Generic.{cmd_expire, expire_with}
use voltkv.Command.Execute.{execute}
use voltkv.Aof.{ms_until, value_commands, snapshot_commands}
use voltkv.Aof.Deadlines.{ms_until_later, scale_pos}

expire-live :
    (w : World) (k : Bytes) (q : ℤ) (e : Entry)
    → get_live w.store k (w.clock w.reads) ≡ some e
    → expire k (scale q millisecond) (w.clock w.reads) w.store ≡ (
      write w.store k (record e { expires_at = add (w.clock w.reads) (scale q millisecond) }),
      true,
    )
unfolding expire
expire-live w k q e h = rw (h, expire) refl

expire_with-set :
    (w : World) (args : List Bytes) (k : Bytes) (q : ℤ) (s : Store)
    → expire k (scale q millisecond) (w.clock w.reads) w.store ≡ (s, true)
    → (w' : World) × (expire_with args k millisecond (some q) w ≡ some (nil, w')) × (w'.store ≡ s)
expire_with-set w args k q s h = rw h (_, refl, refl)

execute-cmd_expire :
    (w : World) (k n : Bytes) (q : ℤ)
    → w.subs ≡ []
    → parse_int64 n ≡ some q
    → execute (codes "PEXPIRE" ∷ k ∷ n ∷ []) w
      ≡ expire_with (codes "PEXPIRE" ∷ k ∷ n ∷ []) k millisecond (some q) w
unfolding execute to_upper bytes_eq cmd_expire
execute-cmd_expire w k n q none_held h = rw (none_held, h) refl

execute-pexpire :
    (w : World) (k n : Bytes) (q : ℤ) (e : Entry)
    → w.subs ≡ []
    → parse_int64 n ≡ some q
    → get_live w.store k (w.clock w.reads) ≡ some e
    → (w' : World) × (execute (codes "PEXPIRE" ∷ k ∷ n ∷ []) w ≡ some (nil, w'))
      × (w'.store
          ≡ write w.store k (record e { expires_at = add (w.clock w.reads) (scale q millisecond) }))
execute-pexpire w k n q e none_held h live =
    let (w', done, stored) = expire_with-set w _ k q _ (expire-live w k q e live) in
    (w', execute-cmd_expire w k n q none_held h ∙ done, stored)

-- `d` nanoseconds on from `t`, cut to the milliseconds.
cut_deadline :
    (t : Time) (d : ℕ)
    → d < cutoff
    → (add t (scale (pos (d / 1_000_000)) millisecond) ≤ℤ t +ℤ pos d)
      × (t +ℤ pos d ≤ℤ add t (scale (pos (d / 1_000_000)) millisecond) +ℤ pos 999_999)
unfolding ◌+ℤ◌
cut_deadline t d h = rw (scale_pos (d / 1_000_000) (omega arith)) (ground arith, ground arith)

-- A live entry whose deadline is `d` nanoseconds after the rewrite, for a `d` of at least a
-- millisecond and below the longest duration, is rewritten as the commands of its value and one more.
-- Executed on no subscribed connection while the key is live, that one gives the entry the deadline
-- that is `d` nanoseconds after its own look at the clock, less than a millisecond early and never
-- late, and changes nothing else of the store.
pub snapshot_commands_timed :
    (s : Snapshot) (now : Time) (d : ℕ) (cmd : List Bytes) (cmds : List (List Bytes)) (w : World)
    (e : Entry)
    → s.expires_at ≡ now +ℤ pos d
    → is_zero s.expires_at ≡ false
    → 1_000_000 ≤ d
    → d < cutoff
    → value_commands s.kind s ≡ cmd ∷ cmds
    → w.subs ≡ []
    → get_live w.store s.key (w.clock w.reads) ≡ some e
    → (last : List Bytes) × (snapshot_commands s now ≡ (cmd ∷ cmds) ++ last ∷ [])
      × (deadline : Time) × (w' : World) × (execute last w ≡ some (nil, w'))
      × (w'.store ≡ write w.store s.key (record e { expires_at = deadline }))
      × (deadline ≤ℤ w.clock w.reads +ℤ pos d)
      × (w.clock w.reads +ℤ pos d ≤ℤ deadline +ℤ pos 999_999)
unfolding snapshot_commands
snapshot_commands_timed s now d cmd cmds w e at_d timed long short values none_held live =
    let ms : ms_until s.expires_at now ≡ pos (d / 1_000_000) =
      rw at_d (ms_until_later now d short) in
    let read : parse_int64 (format_int (pos (d / 1_000_000))) ≡ some (pos (d / 1_000_000)) =
      parse_int64-format_int (pos (d / 1_000_000)) (omega arith) in
    let (w', done, stored) = execute-pexpire w s.key _ _ e none_held read live in
    let (early, late) = cut_deadline (w.clock w.reads) d short in
    (_, rw (values, timed, ms) (ground (arith, long)), _, w', done, stored, early, late)
