-- ===== src/Monitor/Labels/Has.antt =====
-- Which labels are there after the operations of pkg/cloud/aws/monitor/prome.go.
use iaa_s_exporter.Prelude.{
  ◌≡◌, refl, sym, ap, ◌∙◌, String, Bool, true, false, ◌||◌, some, [], ◌∷◌, if◌then◌else◌, ◌==◌,
  eq_iff, Bool-cases, inl, inr,
}
use iaa_s_exporter.Prelude.Dict.{Dict, lookup, insert, lookup-insert, is_some}
use iaa_s_exporter.Monitor.Labels.{LabelSet, or_empty, seen, add_labels, fill}

-- Whether a label is there.
abbrev pub has : {V : Type 0} → String → Dict V → Bool
has label labels = is_some (lookup label labels)

module _ {V : Type 0} where
  has-insert :
      (label other : String) (x : V) (labels : Dict V)
      → has other (insert label x labels) ≡ ((label == other) || has other labels)
  unfolding is_some
  has-insert label other x labels = rw lookup-insert (split (label == other))
    where
      split :
          (b : Bool) → is_some (if b then some x else lookup other labels) ≡ (b || has other labels)
      split true = refl
      split false = refl

  -- Adding a label that is missing, and leaving one that is there.
  has-added :
      (label other : String) (x : V) (labels : Dict V)
      → has other (if has label labels then labels else insert label x labels)
        ≡ ((label == other) || has other labels)
  has-added label other x labels = elim (Bool-cases (has label labels)) [
    | inl p ↦ rw p (there p)
    | inr p ↦ rw p (has-insert label other x labels)
  ]
    where
      there : has label labels ≡ true → has other labels ≡ ((label == other) || has other labels)
      there p = elim (Bool-cases (label == other)) [
        | inl q ↦ let same : label ≡ other = (eq_iff label other).0 q in rw (q, ← same, p) refl
        | inr q ↦ rw q refl
      ]

or_swap : (a b c : Bool) → (b || (a || c)) ≡ ((a || b) || c)
or_swap true true c = refl
or_swap true false c = refl
or_swap false true c = refl
or_swap false false c = refl

pub has-cons :
    {V : Type 0} (label other : String) (x : V) (rest : Dict V)
    → has other ((label, x) ∷ rest) ≡ ((label == other) || has other rest)
unfolding lookup is_some
has-cons label other x rest = elim (Bool-cases (label == other)) [
  | inl p ↦ rw p refl
  | inr p ↦ rw p refl
]

pub has-add_labels :
    (other : String) (labels : Dict String) (set : LabelSet)
    → has other (add_labels labels set) ≡ (has other labels || has other set)
unfolding add_labels
has-add_labels other [] set = unfold lookup is_some in refl
has-add_labels other ((label, text) ∷ rest) set =
    has-add_labels other rest (if has label set then set else insert label tt set)
    ∙ ap (λ b. has other rest || b) (has-added label other tt set)
    ∙ or_swap (label == other) (has other rest) (has other set)
    ∙ ap (λ b. b || has other set) (sym (has-cons label other text rest))

pub has-fill :
    (other : String) (set : LabelSet) (labels : Dict String)
    → has other (fill set labels) ≡ (has other set || has other labels)
unfolding fill
has-fill other [] labels = unfold lookup is_some in refl
has-fill other ((label, u) ∷ rest) labels =
    has-fill other rest (if has label labels then labels else insert label "" labels)
    ∙ ap (λ b. has other rest || b) (has-added label other "" labels)
    ∙ or_swap (label == other) (has other rest) (has other labels)
    ∙ ap (λ b. b || has other labels) (sym (has-cons label other u rest))

pub seen-insert :
    (name other : String) (set : LabelSet) (observed : Dict LabelSet)
    → seen other (insert name set observed) ≡ (if name == other then set else seen other observed)
seen-insert name other set observed = rw lookup-insert (split (name == other))
  where
    split :
        (b : Bool)
        → or_empty (if b then some set else lookup other observed)
          ≡ (if b then set else seen other observed)
    split true = refl
    split false = refl
