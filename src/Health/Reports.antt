-- ===== src/Health/Reports.antt =====
-- Counting events that are known one by one, as the collectors of pkg/cloud/azure, pkg/cloud/gcp
-- and pkg/cloud/alicloud do: an event raises the counters under the labels of its report.
use iaa_s_exporter.Prelude.{
  ℕ, ◌+◌, ◌≡◌, refl, Option, some, List, [], ◌∷◌, ◌++◌, map, flatten, arith,
}
use iaa_s_exporter.Health.{Labels, CounterVec, Counters, reset_all}
use iaa_s_exporter.Health.Occurrences.{occurrences}
use iaa_s_exporter.Health.Json.{Value, ◌>>=◌}

-- The labels under which one event is counted.
pub record Report : Type 0 where
  pub events : List Labels
  pub affected : List Labels
  pub opened : List Labels
  pub closed : List Labels

-- Each event of the second list describes the value at its place in the first.
abbrev pub Describe : {E : Type 0} → (Value → E → Type 0) → List Value → List E → Type 0
Describe Is [] [] = Unit
Describe Is [] (e ∷ es) = ⊥
Describe Is (v ∷ vs) [] = ⊥
Describe Is (v ∷ vs) (e ∷ es) = Is v e × Describe Is vs es

occurrences-append :
    (labels : Labels) (xs ys : List Labels)
    → occurrences labels (xs ++ ys) ≡ occurrences labels xs + occurrences labels ys
occurrences-append labels [] ys = omega arith
occurrences-append labels (x ∷ xs) ys = omega (arith, occurrences-append labels xs ys)

module _ (vec : CounterVec) where
  -- A call of `Inc` for each of the labels, in their order.
  abbrev pub inc_all : List Labels → vec.carrier → vec.carrier
  inc_all [] c = c
  inc_all (labels ∷ rest) c = inc_all rest (vec.inc labels c)

  pub count_of-inc_all :
      (labels : Labels) (ls : List Labels) (c : vec.carrier)
      → vec.count_of labels (inc_all ls c) ≡ occurrences labels ls + vec.count_of labels c
  count_of-inc_all labels [] c = omega arith
  count_of-inc_all labels (l ∷ ls) c =
      omega (arith, count_of-inc_all labels ls (vec.inc l c), vec.count_of-inc labels l c)

  -- The counters once a report is counted.
  abbrev pub reported : Report → Counters vec.carrier → Counters vec.carrier
  reported r c = record {
    health_event = inc_all r.events c.health_event;
    affected_entity = inc_all r.affected c.affected_entity;
    health_opened_total = inc_all r.opened c.health_opened_total;
    health_closed_total = inc_all r.closed c.health_closed_total;
  }

  abbrev pub reported_all : List Report → Counters vec.carrier → Counters vec.carrier
  reported_all [] c = c
  reported_all (r ∷ rs) c = reported_all rs (reported r c)

  -- The counts after the reports, against those before.
  abbrev pub IsReported :
      List Report → Counters vec.carrier → Counters vec.carrier → Labels → Type 0
  IsReported rs before after labels =
      (vec.count_of labels after.health_event
        ≡ occurrences labels (flatten (map (λ r. r.events) rs))
          + vec.count_of labels before.health_event)
      × (vec.count_of labels after.affected_entity
          ≡ occurrences labels (flatten (map (λ r. r.affected) rs))
            + vec.count_of labels before.affected_entity)
      × (vec.count_of labels after.health_opened_total
          ≡ occurrences labels (flatten (map (λ r. r.opened) rs))
            + vec.count_of labels before.health_opened_total)
      × (vec.count_of labels after.health_closed_total
          ≡ occurrences labels (flatten (map (λ r. r.closed) rs))
            + vec.count_of labels before.health_closed_total)

  added :
      (labels : Labels) (n : ℕ) (xs ys : List Labels) (c : vec.carrier)
      → n ≡ occurrences labels ys + vec.count_of labels (inc_all xs c)
      → n ≡ occurrences labels (xs ++ ys) + vec.count_of labels c
  added labels n xs ys c h =
      omega (arith, h, occurrences-append labels xs ys, count_of-inc_all labels xs c)

  pub reported_all-IsReported :
      (rs : List Report) (c : Counters vec.carrier) (labels : Labels)
      → IsReported rs c (reported_all rs c) labels
  reported_all-IsReported [] c labels = (omega arith, omega arith, omega arith, omega arith)
  reported_all-IsReported (r ∷ rs) c labels =
      let (e, a, o, k) = reported_all-IsReported rs (reported r c) labels in
      (
        added labels _ r.events _ c.health_event e,
        added labels _ r.affected _ c.affected_entity a,
        added labels _ r.opened _ c.health_opened_total o,
        added labels _ r.closed _ c.health_closed_total k,
      )

  -- The counts are those of the reports alone.
  abbrev pub IsExactly : List Report → Counters vec.carrier → Labels → Type 0
  IsExactly rs c labels =
      (vec.count_of labels c.health_event ≡ occurrences labels (flatten (map (λ r. r.events) rs)))
      × (vec.count_of labels c.affected_entity
          ≡ occurrences labels (flatten (map (λ r. r.affected) rs)))
      × (vec.count_of labels c.health_opened_total
          ≡ occurrences labels (flatten (map (λ r. r.opened) rs)))
      × (vec.count_of labels c.health_closed_total
          ≡ occurrences labels (flatten (map (λ r. r.closed) rs)))

  pub reported_all-IsExactly :
      (rs : List Report) (before : Counters vec.carrier) (labels : Labels)
      → IsExactly rs (reported_all rs (reset_all vec before)) labels
  reported_all-IsExactly rs before labels =
      let (e, a, o, k) = reported_all-IsReported rs (reset_all vec before) labels in
      (
        omega (arith, e, vec.count_of-reset labels before.health_event),
        omega (arith, a, vec.count_of-reset labels before.affected_entity),
        omega (arith, o, vec.count_of-reset labels before.health_opened_total),
        omega (arith, k, vec.count_of-reset labels before.health_closed_total),
      )

  -- A loop over values, whose body may panic.
  unfoldable pub visit_all :
      (Value → Counters vec.carrier → Option (Counters vec.carrier))
      → List Value
      → Counters vec.carrier
      → Option (Counters vec.carrier)
  visit_all visit [] c = some c
  visit_all visit (v ∷ vs) c = visit v c >>= visit_all visit vs

  pub visit_all-Describe :
      {E : Type 0} (Is : Value → E → Type 0) (report : E → Report)
      (visit : Value → Counters vec.carrier → Option (Counters vec.carrier))
      (step : (v : Value) (e : E) (c : Counters vec.carrier)
        → Is v e
        → visit v c ≡ some (reported (report e) c))
      (vs : List Value) (es : List E) (c : Counters vec.carrier)
      → Describe Is vs es
      → visit_all visit vs c ≡ some (reported_all (map report es) c)
  unfolding visit_all
  visit_all-Describe Is report visit step [] [] c d = refl
  visit_all-Describe Is report visit step [] (e ∷ es) c d = elim d [ ]
  visit_all-Describe Is report visit step (v ∷ vs) [] c d = elim d [ ]
  visit_all-Describe Is report visit step (v ∷ vs) (e ∷ es) c (i, d) =
      rw (step v e c i) (visit_all-Describe Is report visit step vs es (reported (report e) c) d)
