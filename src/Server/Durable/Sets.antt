-- ===== src/Server/Durable/Sets.antt =====
-- A plain SET, as some commands log it, and its replay (internal/command/command.go).
use voltkv.Base.{◌≡◌, refl, ap, false, Option, none, some, List, [], ◌∷◌, Bytes, bytes_eq, codes}
use voltkv.Base.Int.{pos}
use voltkv.Store.Time.{Time}
use voltkv.Store.Shards.{Store}
use voltkv.Store.Strings
use voltkv.Store.Refine.{run, set}
use voltkv.Store.Refine.Untimed.Twins.{IsLasting, Twin, run-Twin}
use voltkv.Command.World.{World, logged}
use voltkv.Command.World.{to_upper}
use voltkv.Command.Options.{parse_set_opts, options_loop}
use voltkv.Command.Strings.{cmd_set}
use voltkv.Command.Execute.{execute, dispatch, in_subscribe_mode}
use voltkv.Server.Start.{left}
use voltkv.Server.Recovery.{executed}
use voltkv.Server.Durable.{logged_all}

-- Where the call returns `a`, it leaves what a plain SET of the key to the value leaves.
abbrev pub Sets : {A : Type 0} → (Time → Store → Store × A) → Bytes → Bytes → A → Type 0
Sets f k v a =
    (now later : Time) (s : Store)
    → IsLasting s
    → (f now s).1 ≡ a
    → Twin (Strings.set k v (pos 0) later s) (f now s).0

-- A client with no subscription may send anything.
pub execute-dispatch :
    (raw : Bytes) (args : List Bytes) (u : World)
    → u.subs ≡ []
    → execute (raw ∷ args) u ≡ dispatch raw (to_upper raw) (raw ∷ args) u
unfolding execute
execute-dispatch raw args u e = let calm : in_subscribe_mode u ≡ false = rw e refl in rw calm refl

-- A replay of `SET k v`.
pub executed-set :
    (k v : Bytes) (u : World)
    → u.subs ≡ []
    → (u' : World) × (executed ((codes "SET" ∷ k ∷ v ∷ []) ∷ []) u ≡ some u')
      × (u'.store ≡ Strings.set k v (pos 0) (u.clock u.reads) u.store)
      × (u'.subs ≡ [])
unfolding execute dispatch cmd_set parse_set_opts options_loop to_upper bytes_eq
executed-set k v u e = (_, ap left (execute-dispatch (codes "SET") (k ∷ v ∷ []) u e), refl, e)

pub logged-logged_all :
    (cmd : List Bytes) (o : Option (List (List Bytes))) → logged cmd o ≡ logged_all (cmd ∷ []) o
logged-logged_all cmd none = refl
logged-logged_all cmd (some sent) = refl

-- A plain SET on twins.
pub Twin-set :
    (k v : Bytes) (now later : Time) (s t : Store)
    → Twin s t
    → Twin (Strings.set k v (pos 0) now s) (Strings.set k v (pos 0) later t)
unfolding run
Twin-set k v now later s t tw = (run-Twin tw (set v (pos 0)) k now later tt refl).0
