-- ===== src/Store/Lists/Ends.antt =====
-- Both ends of a list (internal/store/store.go).
use voltkv.Base.{◌≡◌, refl, some, List, [], ◌∷◌, ◌++◌, Bytes}
use voltkv.Store.Lists.{split_right}

-- `RPop` takes off what `RPush` put at the end, and leaves what was there.
pub split_right-concat : (l : List Bytes) (v : Bytes) → split_right (l ++ v ∷ []) ≡ some (v, l)
unfolding split_right
split_right-concat [] v = refl
split_right-concat (x ∷ l) v = rw (split_right-concat l v, split_right)
