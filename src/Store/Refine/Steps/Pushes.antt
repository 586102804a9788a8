-- ===== src/Store/Refine/Steps/Pushes.antt =====
-- The loop of `LPush` (internal/store/store.go).
use mathlib.Core.List.{reverse_aux, reverse_aux-eq}
use voltkv.Base.{
  ◌+◌, ◌≡◌, refl, ◌∙◌, List, [], ◌∷◌, ◌++◌, reverse, append-nil, length, Bytes, arith,
}
use voltkv.Store.Lists.{prepend}

prepend-reverse_aux : (vs l : List Bytes) → prepend vs l ≡ reverse_aux vs l
unfolding prepend
prepend-reverse_aux [] l = refl
prepend-reverse_aux (v ∷ vs) l = prepend-reverse_aux vs (v ∷ l)

-- `LPush` puts its arguments in front, in the reverse of their order.
pub prepend-reverse : (vs l : List Bytes) → prepend vs l ≡ reverse vs ++ l
prepend-reverse vs l = prepend-reverse_aux vs l ∙ reverse_aux-eq vs l

pub prepend-nil : (vs : List Bytes) → prepend vs [] ≡ reverse vs
prepend-nil vs = prepend-reverse vs [] ∙ append-nil (reverse vs)

pub length-prepend : (vs l : List Bytes) → length (prepend vs l) ≡ length vs + length l
unfolding prepend
length-prepend [] l = omega arith
length-prepend (v ∷ vs) l = omega (arith, length-prepend vs (v ∷ l))
