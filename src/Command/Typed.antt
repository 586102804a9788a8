-- ===== src/Command/Typed.antt =====
-- What each command leaves has the contents of its kind (internal/command/command.go).
use voltkv.Base.{ℕ, List, Bytes}
use voltkv.Base.Dict.{Dict}
use voltkv.Store.Refine.Typed.Stores.{HoldsTyped}
use voltkv.Command.World.{World}
use voltkv.Command.Keeps.{IsClosed, Returns}
use voltkv.Command.Keeps.Execute.{execute-Keeps}
use voltkv.Command.Safety.{IsSafe, Safe-IsClosed, store-IsSafe, unsubscribe-IsSafe, publish-IsSafe}
use voltkv.Command.Execute.{execute}

-- A safe state in which every entry has the contents of its kind.
abbrev pub SafeTyped : List (Dict ℕ) → World → Type 0
SafeTyped others w = IsSafe others w.store w.broker w.subs × HoldsTyped w.store

SafeTyped-IsClosed : (others : List (Dict ℕ)) → IsClosed (SafeTyped others)
SafeTyped-IsClosed others = record {
  out = λ w bytes h. h;
  aof = λ w args h. h;
  reads = λ w n h. h;
  store = λ w s f (h, t). (store-IsSafe h f.valid, f.typed h.store t);
  subscribe = λ w ch new (h, t). ((Safe-IsClosed others).subscribe w ch new h, t);
  unsubscribe = λ w ch id l (h, t). (unsubscribe-IsSafe h ch id l, t);
  publish =
      λ w ch payload (h, t). let (b, n, e, h') = publish-IsSafe h ch payload in (b, n, e, (h', t));
}

-- From a safe state in which every entry has the contents of its kind (a string no fields and no
-- elements, a hash at least one field and each once, a list at least one element), every command
-- returns with no panic and leaves such a state.
pub execute-SafeTyped :
    (others : List (Dict ℕ)) (args : List Bytes) (w : World)
    → IsSafe others w.store w.broker w.subs
    → HoldsTyped w.store
    → Returns (SafeTyped others) (execute args w)
execute-SafeTyped others args w h t = (execute-Keeps (SafeTyped-IsClosed others) args).at w (h, t)
