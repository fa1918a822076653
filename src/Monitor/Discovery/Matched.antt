-- ===== src/Monitor/Discovery/Matched.antt =====
-- What the filter of pkg/cloud/aws/monitor/aws_monitor.go lets through, and the data that is made
-- of it: each metric with its own resource.
use mathlib.Core.Path.{subst}
use mathlib.Core.List.Memᴰ
use mathlib.Core.List.{Memᴰ}
use iaa_s_exporter.Prelude.{
  ℕ, ◌+◌, ◌≡◌, refl, sym, String, Option, none, some, List, [], ◌∷◌, ◌++◌, map, arith, All,
  All-append, All-imp, ◌==◌, Bool-cases, Option-cases, inl, inr, length,
}
use iaa_s_exporter.Prelude.Dict.{Dict, lookup, or_else}
use iaa_s_exporter.Prelude.Interleave.{All-Interleaves, Interleaves-Memᴰ}
use iaa_s_exporter.Monitor.{CwDimension, CwMetric, TaggedResource, CloudwatchData}
use iaa_s_exporter.Monitor.Batches.{batches, batches_lem}
use iaa_s_exporter.Monitor.Discovery.{
  DimValues, values_of, take_matches, take_dimensions, take_metrics, FiltersMetricsList, find_value,
  find_resource, Request, data_of_all, with_resource, data_from, get_cloudwatch_data_from_metric,
}

abbrev IsFound : Option TaggedResource → Type 0
IsFound o = (r : TaggedResource) × (o ≡ some r)

module _ (filter : Dict DimValues) where
  -- A dimension of the metric has a value of the filter.
  abbrev pub IsMatched : CwMetric → Type 0
  IsMatched m = IsFound (find_resource filter m.dimensions)

  take_matches-IsFound :
      (m : CwMetric) (value : String) (vals : DimValues)
      → All
          (λ x. (x ≡ m) × IsFound (find_value filter value vals))
          (take_matches filter m value vals)
  unfolding take_matches find_value
  take_matches-IsFound m value [] = tt
  take_matches-IsFound m value ((dim_val, res) ∷ vals) = elim (Bool-cases (dim_val == value)) [
    | inl p ↦ rw p (
      (refl, (res, refl)),
      All-imp (take_matches filter m value vals) (λ x h. (h.0, (res, refl)))
          (take_matches-IsFound m value vals),
    )
    | inr p ↦ rw p (take_matches-IsFound m value vals)
  ]

  take_dimensions-IsFound :
      (m : CwMetric) (ds : List CwDimension)
      → All (λ x. (x ≡ m) × IsFound (find_resource filter ds)) (take_dimensions filter m ds)
  unfolding take_dimensions find_resource
  take_dimensions-IsFound m [] = tt
  take_dimensions-IsFound m (d ∷ ds) =
      All-append _ (take_matches filter m d.value vals) (take_dimensions filter m ds)
        (All-imp (take_matches filter m d.value vals) (λ x h. (h.0, found_first fv rest h.1))
          (take_matches-IsFound m d.value vals))
        (All-imp (take_dimensions filter m ds) (λ x h. (h.0, found_later fv rest h.1))
          (take_dimensions-IsFound m ds))
    where
      vals : DimValues
      vals = values_of (lookup d.name filter)

      fv : Option TaggedResource
      fv = find_value filter d.value vals

      rest : Option TaggedResource
      rest = find_resource filter ds

      found_first : (a b : Option TaggedResource) → IsFound a → IsFound (or_else a b)
      found_first a b (r, e) = (r, rw e refl)

      found_later : (a b : Option TaggedResource) → IsFound b → IsFound (or_else a b)
      found_later none b h = h
      found_later (some r) b h = (r, refl)

  take_metrics-IsMatched : (ms : List CwMetric) → All IsMatched (take_metrics filter ms)
  unfolding take_metrics
  take_metrics-IsMatched [] = tt
  take_metrics-IsMatched (m ∷ ms) =
      All-append IsMatched (take_dimensions filter m m.dimensions) (take_metrics filter ms)
        (All-imp (take_dimensions filter m m.dimensions) (λ x h. subst IsMatched (sym h.0) h.1)
          (take_dimensions-IsFound m m.dimensions))
        (take_metrics-IsMatched ms)

  map-IsMatched : (bs : List (List CwMetric)) → All (All IsMatched) (map (take_metrics filter) bs)
  map-IsMatched [] = tt
  map-IsMatched (b ∷ bs) = (take_metrics-IsMatched b, map-IsMatched bs)

  FiltersMetricsList-IsMatched :
      (full result : List CwMetric) → FiltersMetricsList filter full result → All IsMatched result
  unfolding FiltersMetricsList
  FiltersMetricsList-IsMatched full result i =
      All-Interleaves IsMatched (map (take_metrics filter) (batches 50 full)) result i
        (map-IsMatched (batches 50 full))

  -- A metric that is matched is taken.
  take_matches-Memᴰ :
      (m : CwMetric) (value : String) (vals : DimValues)
      → IsFound (find_value filter value vals)
      → Memᴰ m (take_matches filter m value vals)
  unfolding take_matches find_value
  take_matches-Memᴰ m value [] (r, e) = cc
  take_matches-Memᴰ m value ((dim_val, res) ∷ vals) (r, e) = elim (Bool-cases (dim_val == value)) [
    | inl p ↦ rw p (Memᴰ.head refl)
    | inr p ↦ rw p (take_matches-Memᴰ m value vals (r, rw p at e))
  ]

  take_dimensions-Memᴰ :
      (m : CwMetric) (ds : List CwDimension)
      → IsFound (find_resource filter ds)
      → Memᴰ m (take_dimensions filter m ds)
  unfolding take_dimensions find_resource
  take_dimensions-Memᴰ m [] (r, e) = cc
  take_dimensions-Memᴰ m (d ∷ ds) (r, e) =
      elim (Option-cases (find_value filter d.value (values_of (lookup d.name filter)))) [
        | inl p ↦
            Memᴰ.append_right (take_matches filter m d.value (values_of (lookup d.name filter)))
              (take_dimensions-Memᴰ m ds (r, rw p at e))
        | inr (x, p) ↦
            Memᴰ.append_left (take_dimensions filter m ds)
              (take_matches-Memᴰ m d.value (values_of (lookup d.name filter)) (x, p))
      ]

  take_metrics-Memᴰ :
      (m : CwMetric) (ms : List CwMetric)
      → Memᴰ m ms
      → IsMatched m
      → Memᴰ m (take_metrics filter ms)
  unfolding take_metrics
  take_metrics-Memᴰ m [] i h = elim i [ ]
  take_metrics-Memᴰ m (x ∷ ms) (Memᴰ.head e) h = Memᴰ.append_left (take_metrics filter ms) (
      subst (λ y. Memᴰ m (take_dimensions filter y y.dimensions)) e
        (take_dimensions-Memᴰ m m.dimensions h))
  take_metrics-Memᴰ m (x ∷ ms) (Memᴰ.tail i) h =
      Memᴰ.append_right (take_dimensions filter x x.dimensions) (take_metrics-Memᴰ m ms i h)

  -- A metric with a dimension that matches is in the result, in whichever order the goroutines
  -- append to it.
  pub FiltersMetricsList_complete :
      (full result : List CwMetric) (m : CwMetric) (r : TaggedResource)
      → FiltersMetricsList filter full result
      → Memᴰ m full
      → find_resource filter m.dimensions ≡ some r
      → Memᴰ m result
  unfolding FiltersMetricsList
  FiltersMetricsList_complete full result m r i k e =
      Interleaves-Memᴰ (take_metrics filter) m m (batches 50 full) result i
        (λ b j. take_metrics-Memᴰ m b j (r, e)) (rw (batches_lem 50 full (omega arith)).0 k)

module _ {F : Type 0} (filter : Dict DimValues) (req : Request) where
  -- Each metric's data, of its own resource.
  abbrev pub own : Option TaggedResource → CwMetric → ℕ → List (CloudwatchData F)
  unfolding data_of_all
  own none m n = []
  own (some r) m n = data_of_all filter req r m n req.metric.statistics

  unfoldable pub own_data : ℕ → List CwMetric → List (CloudwatchData F)
  unfolding own
  own_data n [] = []
  own_data n (m ∷ ms) =
      own (find_resource filter m.dimensions) m n ++ own_data (n + length req.metric.statistics) ms

  data_from-own_data :
      (before : Option TaggedResource) (n : ℕ) (ms : List CwMetric)
      → All (IsMatched filter) ms
      → data_from filter req before n ms ≡ some (own_data n ms)
  unfolding data_from own_data with_resource own
  data_from-own_data before n [] h = refl
  data_from-own_data before n (m ∷ ms) ((r, e), h) =
      rw (e, data_from-own_data (some r) (n + length req.metric.statistics) ms h) refl

  -- Of the filtered metrics the data is made without a panic, and each metric gets the resource of
  -- its own first dimension that matches, never that of the metric before.
  pub get_cloudwatch_data_from_metric_lem :
      (full filtered : List CwMetric)
      → FiltersMetricsList filter full filtered
      → get_cloudwatch_data_from_metric filter req filtered ≡ some (own_data 0 filtered)
  unfolding get_cloudwatch_data_from_metric
  get_cloudwatch_data_from_metric_lem full filtered i =
      data_from-own_data none 0 filtered (FiltersMetricsList-IsMatched filter full filtered i)
