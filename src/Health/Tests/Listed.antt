-- ===== src/Health/Tests/Listed.antt =====
-- A counter vector as a list of labels with their counts.
use iaa_s_exporter.Prelude.{
  suc, ℕ, ◌+◌, ◌≡◌, refl, sym, ◌∙◌, Bool, true, false, ◌&&◌, List, [], ◌∷◌, arith, if◌then◌else◌,
  ◌==◌, eq_iff, eq_refl, Bool-cases, inl, inr, ◌⊎◌,
}
use iaa_s_exporter.Health.{Labels, eq_labels, CounterVec}

eq_labels_refl : (a : Labels) → eq_labels a a ≡ true
unfolding eq_labels
eq_labels_refl [] = refl
eq_labels_refl (x ∷ xs) = rw (eq_refl x, eq_labels_refl xs) refl

eq_of-eq_labels : (a b : Labels) → eq_labels a b ≡ true → a ≡ b
unfolding eq_labels
eq_of-eq_labels [] [] h = refl
eq_of-eq_labels [] (y ∷ ys) h = cc
eq_of-eq_labels (x ∷ xs) [] h = cc
eq_of-eq_labels (x ∷ xs) (y ∷ ys) h =
    let (p, q) = both (x == y) (eq_labels xs ys) h in cc ((eq_iff x y).0 p, eq_of-eq_labels xs ys q)
  where
    both : (a b : Bool) → (a && b) ≡ true → (a ≡ true) × (b ≡ true)
    both true b h = (refl, h)
    both false b h = cc

abbrev pub Listed : Type 0
Listed = List (Labels × ℕ)

unfoldable pub inc : Labels → Listed → Listed
inc labels [] = (labels, 1) ∷ []
inc labels ((at, n) ∷ vec) =
    if eq_labels at labels then (at, suc n) ∷ vec else (at, n) ∷ inc labels vec

unfoldable pub count_of : Labels → Listed → ℕ
count_of labels [] = 0
count_of labels ((at, n) ∷ vec) = if eq_labels at labels then n else count_of labels vec

pub count_of-inc :
    (labels other : Labels) (vec : Listed)
    → count_of labels (inc other vec)
      ≡ (if eq_labels other labels then 1 else 0) + count_of labels vec
unfolding inc count_of
count_of-inc labels other [] = ground arith
count_of-inc labels other ((at, n) ∷ vec) = elim (Bool-cases (eq_labels at other)) [
  | inl p ↦ let same : at ≡ other = eq_of-eq_labels at other p in rw (p, same) (ground arith)
  | inr p ↦ rw p (elsewhere p (count_of-inc labels other vec) (Bool-cases (eq_labels at labels)))
]
  where
    different :
        eq_labels at other ≡ false → eq_labels at labels ≡ true → eq_labels other labels ≡ false
    different p q = elim (Bool-cases (eq_labels other labels)) [
      | inl r ↦
          let e : at ≡ other = eq_of-eq_labels at labels q ∙ sym (eq_of-eq_labels other labels r) in
          let t : eq_labels other other ≡ false = rw e at p in let u = eq_labels_refl other in cc
      | inr r ↦ r
    ]

    elsewhere :
        eq_labels at other ≡ false
        → count_of labels (inc other vec)
          ≡ (if eq_labels other labels then 1 else 0) + count_of labels vec
        → (eq_labels at labels ≡ true) ⊎ (eq_labels at labels ≡ false)
        → (if eq_labels at labels then n else count_of labels (inc other vec))
          ≡ (if eq_labels other labels then 1 else 0)
            + (if eq_labels at labels then n else count_of labels vec)
    elsewhere p rest (inl q) = rw (q, different p q) (omega arith)
    elsewhere p rest (inr q) = rw q rest

pub count_of-nil : (labels : Labels) → count_of labels [] ≡ 0
unfolding count_of
count_of-nil labels = refl

abbrev pub listed : CounterVec
listed = record {
  carrier = Listed;
  reset = λ c. [];
  inc = inc;
  count_of = count_of;
  count_of-reset = λ labels c. count_of-nil labels;
  count_of-inc = count_of-inc;
}
