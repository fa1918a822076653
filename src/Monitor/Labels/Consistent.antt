-- ===== src/Monitor/Labels/Consistent.antt =====
-- The metrics that a scrape of pkg/cloud/aws/monitor keeps: those of the same name have the same
-- labels, as a Prometheus registry asks.
use mathlib.Core.List.{Memᴰ}
use iaa_s_exporter.Prelude.{
  ◌≡◌, refl, sym, ap, ◌∙◌, String, Bool, true, false, ◌||◌, Option, none, some, List, [], ◌∷◌, map,
  All, All-Memᴰ, ◌==◌, eq_iff, eq_refl, Bool-cases, inl, inr,
}
use iaa_s_exporter.Prelude.Dict.{Dict}
use iaa_s_exporter.Monitor.{CloudwatchData}
use iaa_s_exporter.Monitor.Labels.{
  PrometheusMetric, LabelSet, seen, record_labels_for_metric, Created, emit, per_statistic,
  metric_of, create_from, create_prometheus_metrics_from_cw_data, ensured,
  ensure_label_consistency_for_metrics, scraped_metrics,
}
use iaa_s_exporter.Monitor.Labels.Has.{has, has-add_labels, has-fill, seen-insert}

-- No label of a name is forgotten.
abbrev Grows : Dict LabelSet → Dict LabelSet → Type 0
Grows observed later =
    (name label : String)
    → has label (seen name observed) ≡ true
    → has label (seen name later) ≡ true

record_labels-Grows :
    (name : String) (labels : Dict String) (observed : Dict LabelSet)
    → Grows observed (record_labels_for_metric name labels observed)
unfolding record_labels_for_metric
record_labels-Grows name labels observed other label h = elim (Bool-cases (name == other)) [
  | inl p ↦
      let same : name ≡ other = (eq_iff name other).0 p in
      rw (seen-insert, p, has-add_labels, same, h) (or_true (has label labels))
  | inr p ↦ rw (seen-insert, p) h
]
  where
    or_true : (b : Bool) → (b || true) ≡ true
    or_true true = refl
    or_true false = refl

module _ {F : Type 0} where
  -- The labels of the metric were seen with its name.
  abbrev IsCovered : Dict LabelSet → PrometheusMetric F → Type 0
  IsCovered observed m =
      (label : String) → has label m.labels ≡ true → has label (seen m.name observed) ≡ true

  record_labels-IsCovered :
      (m : PrometheusMetric F) (observed : Dict LabelSet)
      → IsCovered (record_labels_for_metric m.name m.labels observed) m
  unfolding record_labels_for_metric
  record_labels-IsCovered m observed label h =
      rw (seen-insert, eq_refl m.name, has-add_labels, h) refl

  abbrev IsTracked : Dict LabelSet → Created F → Type 0
  IsTracked observed (metrics, later) = Grows observed later × All (IsCovered later) metrics

  IsTracked-trans :
      (early later : Dict LabelSet) (created : Created F)
      → Grows early later
      → IsTracked later created
      → IsTracked early created
  IsTracked-trans early later (metrics, last) g (h, c) =
      (λ name label p. h name label (g name label p), c)

module _ {F : Type 0} (nan : F) (to_lower : String → String) where
  emit-IsTracked :
      (o : Option (PrometheusMetric F)) (observed : Dict LabelSet)
      (next : Dict LabelSet → Created F)
      → ((obs : Dict LabelSet) → IsTracked obs (next obs))
      → IsTracked observed (emit nan to_lower o observed next)
  unfolding emit
  emit-IsTracked none observed next h = h observed
  emit-IsTracked (some m) observed next h =
      let obs = record_labels_for_metric m.name m.labels observed in
      let (g, c) = h obs in
      (
        λ name label p. g name label (record_labels-Grows m.name m.labels observed name label p),
        ((λ label p. g m.name label (record_labels-IsCovered m observed label p)), c),
      )

  per_statistic-IsTracked :
      (c : CloudwatchData F) (ss : List String) (observed : Dict LabelSet)
      (next : Dict LabelSet → Created F)
      → ((obs : Dict LabelSet) → IsTracked obs (next obs))
      → IsTracked observed (per_statistic nan to_lower c ss observed next)
  unfolding per_statistic
  per_statistic-IsTracked c [] observed next h = h observed
  per_statistic-IsTracked c (s ∷ ss) observed next h =
      emit-IsTracked (metric_of nan to_lower c.datapoint c.add_cloudwatch_timestamp c s) observed
        (λ obs. per_statistic nan to_lower c ss obs next)
        (λ obs. per_statistic-IsTracked c ss obs next h)

  create_from-IsTracked :
      (cwd : List (CloudwatchData F)) (observed : Dict LabelSet)
      → IsTracked observed (create_from nan to_lower cwd observed)
  unfolding create_from
  create_from-IsTracked [] observed = (λ name label p. p, tt)
  create_from-IsTracked (c ∷ cs) observed =
      per_statistic-IsTracked c c.statistics observed (create_from nan to_lower cs)
        (create_from-IsTracked cs)

  -- An ensured metric has the labels that were seen with its name, and no other.
  abbrev HasSeen : Dict LabelSet → PrometheusMetric F → Type 0
  HasSeen observed m = (label : String) → has label m.labels ≡ has label (seen m.name observed)

  ensured-HasSeen :
      (observed : Dict LabelSet) (m : PrometheusMetric F)
      → IsCovered observed m
      → HasSeen observed (ensured observed m)
  ensured-HasSeen observed m c label =
      has-fill label (seen m.name observed) m.labels
      ∙ absorb (has label (seen m.name observed)) (has label m.labels) (c label)
    where
      absorb : (a b : Bool) → (b ≡ true → a ≡ true) → (a || b) ≡ a
      absorb true b h = refl
      absorb false true h = sym (h refl)
      absorb false false h = refl

  map-HasSeen :
      (observed : Dict LabelSet) (metrics : List (PrometheusMetric F))
      → All (IsCovered observed) metrics
      → All (HasSeen observed) (map (ensured observed) metrics)
  map-HasSeen observed [] c = tt
  map-HasSeen observed (m ∷ metrics) c =
      (ensured-HasSeen observed m c.0, map-HasSeen observed metrics c.1)

  -- Two of the metrics that a scrape keeps under one name have the same labels.
  pub scraped_metrics_consistent :
      (cwd : List (CloudwatchData F)) (m m' : PrometheusMetric F) (label : String)
      → Memᴰ m (scraped_metrics nan to_lower cwd)
      → Memᴰ m' (scraped_metrics nan to_lower cwd)
      → m.name ≡ m'.name
      → has label m.labels ≡ has label m'.labels
  unfolding scraped_metrics create_prometheus_metrics_from_cw_data
      ensure_label_consistency_for_metrics
  scraped_metrics_consistent cwd m m' label i i' e =
      All-Memᴰ (HasSeen created.1) (map (ensured created.1) created.0) m all i label
      ∙ ap (λ name. has label (seen name created.1)) e
      ∙ sym (All-Memᴰ (HasSeen created.1) (map (ensured created.1) created.0) m' all i' label)
    where
      created : Created F
      created = create_from nan to_lower cwd []

      all : All (HasSeen created.1) (map (ensured created.1) created.0)
      all = map-HasSeen created.1 created.0 (create_from-IsTracked cwd []).1
