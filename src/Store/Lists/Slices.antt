-- ===== src/Store/Lists/Slices.antt =====
-- Indexes from both ends, and ranges (internal/store/store.go).
use voltkv.Base.{
  ℕ, zero, suc, ◌+◌, ◌-◌, ◌<◌, ◌≤◌, ◌≡◌, refl, sym, ap, ◌∙◌, ◌==◌, ltb, none, List, [], ◌∷◌, length,
  get_elem?, take, drop, if◌then◌else◌, Bytes, arith, Bool-cases, ==_iff, inl, inr,
}
use voltkv.Base.Int.{ℤ, pos, negsuc}
use voltkv.Store.Lists.{
  index_list, slice_list, normalize_index, clamp_low, clamp_high, slice_between,
}

get_elem?_outside {ℓ} : {A : Type ℓ} (l : List A) (n : ℕ) → length l ≤ n → get_elem? l n ≡ none
get_elem?_outside [] n h = refl
get_elem?_outside (x ∷ l) zero h = elim h [ ]
get_elem?_outside (x ∷ l) (suc n) h = get_elem?_outside l n (omega arith)

-- An index from the end, -1 for the last: the element that many places before the end, if the list
-- is that long.
pub index_list_negative :
    (n : ℕ) (l : List Bytes)
    → index_list (negsuc n) l ≡ (if ltb n (length l) then get_elem? l (length l - suc n) else none)
unfolding index_list
index_list_negative n l = ground arith

-- The place in the list that an index of LRANGE names, counted from the front: before the list it
-- is 0.
abbrev pub first_place : ℤ → ℕ → ℕ
first_place (pos n) len = n
first_place (negsuc n) len = len - suc n

-- One more than the last place, and no more than the length.
abbrev pub end_place : ℤ → ℕ → ℕ
end_place (pos n) len = if ltb n len then n + 1 else len
end_place (negsuc n) len = len - n

get_elem?-take {ℓ} :
    {A : Type ℓ} (n i : ℕ) (l : List A)
    → get_elem? (take n l) i ≡ (if ltb i n then get_elem? l i else none)
get_elem?-take zero i l = ground arith
get_elem?-take (suc n) i [] = ground arith
get_elem?-take (suc n) zero (x ∷ l) = ground arith
get_elem?-take (suc n) (suc i) (x ∷ l) = get_elem?-take n i l ∙ ground arith

get_elem?-drop {ℓ} :
    {A : Type ℓ} (n i : ℕ) (l : List A) → get_elem? (drop n l) i ≡ get_elem? l (n + i)
get_elem?-drop zero i l = ap (get_elem? l) (omega arith)
get_elem?-drop (suc n) i [] = refl
get_elem?-drop (suc n) i (x ∷ l) =
    let e : suc n + i ≡ suc (n + i) = omega arith in
    get_elem?-drop n i l ∙ ap (get_elem? (x ∷ l)) (sym e)

take_none : (n : ℕ) (l : List Bytes) → n ≡ 0 → take n l ≡ []
take_none zero l h = refl
take_none (suc n) l h = absurd (omega arith)

take_empty : (n m : ℕ) (l : List Bytes) → length l ≡ 0 → take n (drop m l) ≡ []
take_empty zero m l h = refl
take_empty (suc n) zero [] h = refl
take_empty (suc n) (suc m) [] h = refl
take_empty (suc n) m (x ∷ l) h = absurd (omega arith)

low_place : (i : ℤ) (n : ℕ) → clamp_low (normalize_index i n) ≡ pos (first_place i n)
unfolding clamp_low normalize_index
low_place (pos a) n = ground arith
low_place (negsuc a) n = ground arith

high_end :
    (j : ℤ) (n : ℕ)
    → 0 < end_place j n
    → clamp_high (normalize_index j n) n ≡ pos (end_place j n - 1)
unfolding clamp_high normalize_index
high_end (pos b) n h = ground arith
high_end (negsuc b) n h = ground arith

-- A last place before the list.
high_before : (b n : ℕ) → n ≤ b → clamp_high (normalize_index (negsuc b) n) n ≡ negsuc (b - n)
unfolding clamp_high normalize_index
high_before b n h = ground arith

between_some :
    (lo e : ℕ) (l : List Bytes)
    → 0 < e
    → 0 < length l
    → slice_between (pos lo) (pos (e - 1)) l ≡ take (e - lo) (drop lo l)
unfolding slice_between
between_some lo e l h k = ground (arith, take_none (e - lo) (drop lo l))

between_before : (lo d : ℕ) (l : List Bytes) → slice_between (pos lo) (negsuc d) l ≡ []
unfolding slice_between
between_before lo d l = ground arith

between_empty : (lo hi : ℤ) (l : List Bytes) → length l ≡ 0 → slice_between lo hi l ≡ []
unfolding slice_between
between_empty lo hi l h = ground arith

end_before : (j : ℤ) (n : ℕ) → 0 < n → end_place j n ≡ 0 → (b : ℕ) × (j ≡ negsuc b) × (n ≤ b)
end_before (pos b) n k h = absurd (ground arith)
end_before (negsuc b) n k h = (b, refl, omega arith)

high_place :
    (lo : ℕ) (j : ℤ) (l : List Bytes)
    → slice_between (pos lo) (clamp_high (normalize_index j (length l)) (length l)) l
      ≡ take (end_place j (length l) - lo) (drop lo l)
high_place lo j [] =
    between_empty (pos lo) _ [] refl ∙ sym (take_empty (end_place j 0 - lo) lo [] refl)
high_place lo j (x ∷ xs) = elim (Bool-cases (end_place j (length (x ∷ xs)) == 0)) [
  | inl none_there ↦
      let e = (==_iff _ _).0 none_there in
      let (b, at, far) = end_before j (length (x ∷ xs)) (omega arith) e in
      ap
        (λ k.
          slice_between (pos lo)
            (clamp_high (normalize_index k (length (x ∷ xs))) (length (x ∷ xs))) (x ∷ xs))
        at
      ∙ ap (λ hi. slice_between (pos lo) hi (x ∷ xs)) (high_before b (length (x ∷ xs)) far)
      ∙ between_before lo (b - length (x ∷ xs)) (x ∷ xs)
      ∙ sym (take_none (end_place j (length (x ∷ xs)) - lo) (drop lo (x ∷ xs)) (omega arith))
  | inr some_there ↦
      let p : 0 < end_place j (length (x ∷ xs)) = ground arith in
      ap (λ hi. slice_between (pos lo) hi (x ∷ xs)) (high_end j (length (x ∷ xs)) p)
      ∙ between_some lo (end_place j (length (x ∷ xs))) (x ∷ xs) p (omega arith)
]

slice_places :
    (i j : ℤ) (l : List Bytes)
    → slice_list i j l
      ≡ take (end_place j (length l) - first_place i (length l)) (drop (first_place i (length l)) l)
unfolding slice_list
slice_places i j l =
    ap (λ lo. slice_between lo (clamp_high (normalize_index j (length l)) (length l)) l)
      (low_place i (length l))
    ∙ high_place (first_place i (length l)) j l

-- LRANGE returns the elements from the first place to the last, in their order: element `n` of the
-- reply is element `first + n` of the list as long as that is before the end of the range.
pub get_elem?-slice_list :
    (i j : ℤ) (l : List Bytes) (n : ℕ)
    → get_elem? (slice_list i j l) n ≡ (
        if ltb n (end_place j (length l) - first_place i (length l))
        then get_elem? l (first_place i (length l) + n)
        else none)
get_elem?-slice_list i j l n =
    let lo = first_place i (length l) in
    let m = end_place j (length l) - lo in
    ap (λ (x : List Bytes). get_elem? x n) (slice_places i j l)
    ∙ get_elem?-take m n (drop lo l)
    ∙ ap (λ o. if ltb n m then o else none) (get_elem?-drop lo n l)
