-- ===== src/Server/Durable/Strings.antt =====
-- The string commands log what a replay does the same by: their own words, or a plain SET
-- (internal/command/command.go).
use voltkv.Base.{
  ◌≡◌, refl, ap, ◌∙◌, inl, Bool, true, false, Option, none, some, List, [], ◌∷◌, Bytes, codes,
}
use voltkv.Base.Int.{ℤ}
use voltkv.Number.{parse_int64, format_int}
use voltkv.Store.Time.{is_positive}
use voltkv.Store.Shards.{entry_at}
use voltkv.Store.Entry.{ok, err}
use voltkv.Store.Strings
use voltkv.Store.Refine.{run, get_set, incr_by, text, integer}
use voltkv.Store.Refine.Untimed.Idle.{
  set_nx-Idle, set_xx-Idle, append-Idle, get_set-Idle, get_set-Stores, incr_by-Idle, incr_by-Stores,
}
use voltkv.Store.Refine.Untimed.Twins.{set-Twin}
use voltkv.Command.World.{◌>>◌, append_aof, write_simple, bulk_or_null}
use voltkv.Command.Options.{SetOptions, parse_set_opts}
use voltkv.Command.Strings.{
  set_with, cmd_set, cmd_get_set, cmd_append, incr_and_log, cmd_incr, incr_by_parsed, cmd_incr_by,
}
use voltkv.Server.Durable.{Durable, Quiet-Durable, emit-Quiet}
use voltkv.Server.Durable.Calls.{Idle-Mutes, Loud}
use voltkv.Server.Durable.Sets.{Sets}
use voltkv.Server.Durable.Logs.{Calls-Durable, Calls-or_error, logged_if, Sets-or_error}
use voltkv.Server.Durable.Methods.{
  set-Calls, set_nx-Calls, set_xx-Calls, append-Calls, get_set-Calls, incr_by-Calls,
}

-- No time to live is asked for, or one that overflowed and is none.
abbrev pub WithoutTtl : Option SetOptions → Type 0
WithoutTtl none = Unit
WithoutTtl (some o) = is_positive o.ttl ≡ false

module _ (args : List Bytes) (k v : Bytes) (ttl : ℤ) (u : is_positive ttl ≡ false) where
  nx-Durable :
      (xx : Bool)
      → Durable args (set_with args k v (some (record { ttl = ttl; nx = true; xx = xx })))
  nx-Durable xx =
      let m = set_nx-Calls k v ttl u in
      Calls-Durable args m _ (logged_if args _ _ _ (Idle-Mutes m false (set_nx-Idle v ttl)))

  xx-Durable : Durable args (set_with args k v (some (record { ttl = ttl; nx = false; xx = true })))
  xx-Durable =
      let m = set_xx-Calls k v ttl u in
      Calls-Durable args m _ (logged_if args _ _ _ (Idle-Mutes m false (set_xx-Idle v ttl)))

  plain-Durable :
      Durable args (set_with args k v (some (record { ttl = ttl; nx = false; xx = false })))
  plain-Durable =
      Calls-Durable args (set-Calls k v ttl u)
        (λ a. (do append_aof args; write_simple (codes "OK"))) (λ a. inl (λ w. (_, refl)))

set_with-Durable :
    (args : List Bytes) (k v : Bytes) (o : Option SetOptions)
    → WithoutTtl o
    → Durable args (set_with args k v o)
set_with-Durable args k v none u = Quiet-Durable args _ (emit-Quiet _)
set_with-Durable args k v (some o) u = go o.ttl o.nx o.xx u
  where
    go :
        (ttl : ℤ) (nx xx : Bool)
        → is_positive ttl ≡ false
        → Durable args (set_with args k v (some (record { ttl = ttl; nx = nx; xx = xx })))
    go ttl true xx u = nx-Durable args k v ttl u xx
    go ttl false true u = xx-Durable args k v ttl u
    go ttl false false u = plain-Durable args k v ttl u

-- What the options behind SET ask for.
abbrev pub SetsNoTtl : List Bytes → Type 0
SetsNoTtl (c ∷ k ∷ v ∷ opts) = WithoutTtl (parse_set_opts opts)
SetsNoTtl _ = Unit

pub cmd_set-Durable : (args : List Bytes) → SetsNoTtl args → Durable args (cmd_set args)
unfolding cmd_set
cmd_set-Durable (c ∷ k ∷ v ∷ opts) u =
    set_with-Durable (c ∷ k ∷ v ∷ opts) k v (parse_set_opts opts) u
cmd_set-Durable args u = Quiet-Durable args _ (emit-Quiet _)

pub cmd_append-Durable : (args : List Bytes) → Durable args (cmd_append args)
unfolding cmd_append
cmd_append-Durable (c ∷ k ∷ x ∷ []) =
    let m = append-Calls k x in
    Calls-or_error (c ∷ k ∷ x ∷ []) m _ (λ e. Idle-Mutes m (err e) (append-Idle x e))
      (λ n. inl (λ w. (_, refl)))
cmd_append-Durable args = Quiet-Durable args _ (emit-Quiet _)

get_set-Sets : (k v : Bytes) (old : Option Bytes) → Sets (Strings.get_set k v) k v (ok old)
unfolding run
get_set-Sets k v old now later s l e =
    set-Twin l k v now later (get_set v) tt tt
      (λ q. get_set-Stores v (entry_at s k) old now later (q ∙ ap text e))

logged_bulk : (cmd : List Bytes) (o : Option Bytes) → Loud cmd (do append_aof cmd; bulk_or_null o)
logged_bulk cmd none w = (_, refl)
logged_bulk cmd (some v) w = (_, refl)

pub cmd_get_set-Durable : (args : List Bytes) → Durable args (cmd_get_set args)
unfolding cmd_get_set
cmd_get_set-Durable (c ∷ k ∷ v ∷ []) =
    let m = get_set-Calls k v in
    Sets-or_error (c ∷ k ∷ v ∷ []) m _ (λ e. Idle-Mutes m (err e) (get_set-Idle v e))
      (λ old. (k, v, logged_bulk _ old, get_set-Sets k v old))
cmd_get_set-Durable args = Quiet-Durable args _ (emit-Quiet _)

incr_by-Sets : (k : Bytes) (d n : ℤ) → Sets (Strings.incr_by k d) k (format_int n) (ok n)
unfolding run
incr_by-Sets k d n now later s l e = set-Twin l k (format_int n) now later (incr_by d) tt tt (λ q.
    incr_by-Stores d n (entry_at s k) now later (l.typed.at k) (l.untimed k) (q ∙ ap integer e))

incr_and_log-Durable : (args : List Bytes) (k : Bytes) (d : ℤ) → Durable args (incr_and_log k d)
unfolding incr_and_log
incr_and_log-Durable args k d =
    let m = incr_by-Calls k d in
    Sets-or_error args m _ (λ e. Idle-Mutes m (err e) (incr_by-Idle d e))
      (λ n. (k, format_int n, (λ w. (_, refl)), incr_by-Sets k d n))

pub cmd_incr-Durable : (fixed : ℤ) (args : List Bytes) → Durable args (cmd_incr fixed args)
unfolding cmd_incr
cmd_incr-Durable fixed (c ∷ k ∷ []) = incr_and_log-Durable (c ∷ k ∷ []) k fixed
cmd_incr-Durable fixed args = Quiet-Durable args _ (emit-Quiet _)

incr_by_parsed-Durable :
    (args : List Bytes) (name k : Bytes) (o : Option ℤ) → Durable args (incr_by_parsed name k o)
incr_by_parsed-Durable args name k none = Quiet-Durable args _ (emit-Quiet _)
incr_by_parsed-Durable args name k (some n) = incr_and_log-Durable args k _

pub cmd_incr_by-Durable : (args : List Bytes) → Durable args (cmd_incr_by args)
unfolding cmd_incr_by
cmd_incr_by-Durable (c ∷ k ∷ n ∷ []) = incr_by_parsed-Durable (c ∷ k ∷ n ∷ []) _ k (parse_int64 n)
cmd_incr_by-Durable args = Quiet-Durable args _ (emit-Quiet _)
