-- ===== src/Monitor/Batches.antt =====
-- The loops with a `cutPoint` in pkg/cloud/aws/monitor/aws_monitor.go: a list is cut into slices,
-- and a goroutine runs on each.
use iaa_s_exporter.Prelude.{
  ℕ, suc, zero, ◌+◌, ◌-◌, ◌<◌, ◌≤◌, ◌≡◌, refl, sym, ap, ◌∙◌, List, [], ◌∷◌, ◌++◌, arith, length,
  take, drop, flatten, ltb, if◌then◌else◌, Bool-cases, inl, inr, All, take-append-drop, length-drop,
  ltb→lt,
}

end_lem :
    (size cut_point n : ℕ)
    → 0 < size
    → cut_point < n
    → let end = if ltb n (cut_point + size) then n else cut_point + size in
      (cut_point < end) × (end ≤ n) × (end ≤ cut_point + size)
end_lem size cut_point n s h = ground arith

module _ {A : Type 0} where
  -- The loop at a cut point.
  slices : ℕ → ℕ → ℕ → List A → List (List A)
  slices zero size cut_point xs = []
  slices (suc fuel) size cut_point xs =
      let end = if ltb (length xs) (cut_point + size) then length xs else cut_point + size in
      let slice = take (end - cut_point) (drop cut_point xs) in
      let rest = slices fuel size end xs in if ltb cut_point (length xs) then slice ∷ rest else []

  -- The cut point moves on by at least one, so the length is enough fuel.
  unfoldable pub batches : ℕ → List A → List (List A)
  unfolding slices
  batches size xs = slices (length xs) size 0 xs

  drop-nil : (k : ℕ) → drop {A = A} k [] ≡ []
  drop-nil zero = refl
  drop-nil (suc k) = refl

  drop-drop : (k n : ℕ) (xs : List A) → drop k (drop n xs) ≡ drop (n + k) xs
  drop-drop k zero xs = let e : 0 + k ≡ k = omega arith in rw e refl
  drop-drop k (suc n) [] = drop-nil k ∙ sym (drop-nil (suc n + k))
  drop-drop k (suc n) (x ∷ xs) =
      let e : suc n + k ≡ suc (n + k) = omega arith in rw e (drop-drop k n xs)

  drop-all : (n : ℕ) (xs : List A) → length xs ≤ n → drop n xs ≡ []
  drop-all zero [] h = refl
  drop-all zero (x ∷ xs) h = absurd (omega arith)
  drop-all (suc n) [] h = refl
  drop-all (suc n) (x ∷ xs) h = drop-all n xs (omega arith)

  length-take : (n : ℕ) (xs : List A) → n ≤ length xs → length (take n xs) ≡ n
  length-take zero xs h = refl
  length-take (suc n) [] h = absurd (omega arith)
  length-take (suc n) (x ∷ xs) h = ap suc (length-take n xs (omega arith))

  abbrev pub IsBatch : ℕ → List A → Type 0
  IsBatch size xs = (0 < length xs) × (length xs ≤ size)

  -- One slice and what comes after it.
  slice_lem :
      (size cut_point end : ℕ) (xs : List A)
      → cut_point < end
      → end ≤ length xs
      → end ≤ cut_point + size
      → (take (end - cut_point) (drop cut_point xs) ++ drop end xs ≡ drop cut_point xs)
        × IsBatch size (take (end - cut_point) (drop cut_point xs))
  slice_lem size cut_point end xs a b c = (
    ap (λ l. take (end - cut_point) (drop cut_point xs) ++ l) rest
        ∙ take-append-drop (end - cut_point) (drop cut_point xs),
    rw long (omega arith, omega arith),
  )
    where
      rest : drop end xs ≡ drop (end - cut_point) (drop cut_point xs)
      rest =
          ap (λ k. drop k xs) (let e : end ≡ cut_point + (end - cut_point) = omega arith in e)
          ∙ sym (drop-drop (end - cut_point) cut_point xs)

      long : length (take (end - cut_point) (drop cut_point xs)) ≡ end - cut_point
      long =
          length-take (end - cut_point) (drop cut_point xs)
            (omega (arith, length-drop cut_point xs))

  slices_lem :
      (fuel size cut_point : ℕ) (xs : List A)
      → 0 < size
      → length xs ≤ cut_point + fuel
      → (flatten (slices fuel size cut_point xs) ≡ drop cut_point xs)
        × All (IsBatch size) (slices fuel size cut_point xs)
  unfolding slices
  slices_lem zero size cut_point xs s h = (sym (drop-all cut_point xs (omega arith)), tt)
  slices_lem (suc fuel) size cut_point xs s h = elim (Bool-cases (ltb cut_point (length xs))) [
    | inl p ↦
        let end = if ltb (length xs) (cut_point + size) then length xs else cut_point + size in
        let (a, b, c) = end_lem size cut_point (length xs) s (ltb→lt cut_point (length xs) p) in
        let (joined, fits) = slice_lem size cut_point end xs a b c in
        let (rest, all) = slices_lem fuel size end xs s (omega arith) in
        rw p (ap (λ l. take (end - cut_point) (drop cut_point xs) ++ l) rest ∙ joined, (fits, all))
    | inr p ↦ rw p (sym (drop-all cut_point xs (ground arith)), tt)
  ]

  -- Cut with a size of at least one, the slices joined are the list, each of them has an element,
  -- and none more than the size.
  pub batches_lem :
      (size : ℕ) (xs : List A)
      → 0 < size
      → (flatten (batches size xs) ≡ xs) × All (IsBatch size) (batches size xs)
  unfolding batches
  batches_lem size xs s = slices_lem (length xs) size 0 xs s (omega arith)
