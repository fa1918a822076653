-- ===== src/Monitor/Labels/Ensured.antt =====
-- The values of the labels that pkg/cloud/aws/monitor/aws_monitor.go ensures.
use iaa_s_exporter.Prelude.{
  ◌≡◌, refl, sym, ap, ◌∙◌, String, Bool, true, false, ◌||◌, Option, none, some, [], ◌∷◌,
  if◌then◌else◌, ◌==◌, eq_iff,
}
use iaa_s_exporter.Prelude.Dict.{
  Dict, lookup, insert, lookup-insert, is_some, or_else, or_else-none,
}
use iaa_s_exporter.Monitor.Labels.{PrometheusMetric, LabelSet, seen, fill, ensured}
use iaa_s_exporter.Monitor.Labels.Has.{has, has-cons}

lookup-added :
    (label other : String) (labels : Dict String)
    → lookup other (if has label labels then labels else insert label "" labels)
      ≡ or_else (lookup other labels) (if label == other then some "" else none)
unfolding is_some
lookup-added label other labels = by_label (lookup label labels) refl
  where
    missing :
        (o : Option String) (b : Bool)
        → (b ≡ true → o ≡ none)
        → (if b then some "" else o) ≡ or_else o (if b then some "" else none)
    missing o true h = rw (h refl) refl
    missing o false h = sym (or_else-none o)

    present :
        (o : Option String) (b : Bool) (x : String)
        → (b ≡ true → o ≡ some x)
        → o ≡ or_else o (if b then some "" else none)
    present o true x h = rw (h refl) refl
    present o false x h = sym (or_else-none o)

    same :
        (o : Option String)
        → lookup label labels ≡ o
        → (label == other) ≡ true
        → lookup other labels ≡ o
    same o p b = let e : label ≡ other = (eq_iff label other).0 b in rw (← e) p

    by_label :
        (o : Option String)
        → lookup label labels ≡ o
        → lookup other (if is_some (lookup label labels) then labels else insert label "" labels)
          ≡ or_else (lookup other labels) (if label == other then some "" else none)
    by_label none p = rw p (
        lookup-insert label other "" labels
        ∙ missing (lookup other labels) (label == other) (same none p))
    by_label (some x) p = rw p (present (lookup other labels) (label == other) x (same (some x) p))

lookup-fill :
    (other : String) (set : LabelSet) (labels : Dict String)
    → lookup other (fill set labels)
      ≡ or_else (lookup other labels) (if has other set then some "" else none)
unfolding fill
lookup-fill other [] labels = unfold lookup is_some in sym (or_else-none (lookup other labels))
lookup-fill other ((label, u) ∷ rest) labels =
    lookup-fill other rest (if has label labels then labels else insert label "" labels)
    ∙ ap (λ o. or_else o (if has other rest then some "" else none))
        (lookup-added label other labels)
    ∙ either (lookup other labels) (label == other) (has other rest)
    ∙ ap (λ b. or_else (lookup other labels) (if b then some "" else none))
        (sym (has-cons label other u rest))
  where
    either :
        (o : Option String) (a b : Bool)
        → or_else (or_else o (if a then some "" else none)) (if b then some "" else none)
          ≡ or_else o (if a || b then some "" else none)
    either (some x) a b = refl
    either none true b = refl
    either none false b = refl

-- An ensured metric keeps the values of its own labels, and has the empty text under the others
-- that were seen with its name.
pub ensured-labels :
    {F : Type 0} (observed : Dict LabelSet) (m : PrometheusMetric F) (label : String)
    → lookup label (ensured observed m).labels
      ≡ or_else (lookup label m.labels) (if has label (seen m.name observed) then some "" else none)
ensured-labels observed m label = lookup-fill label (seen m.name observed) m.labels
