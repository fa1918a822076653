-- ===== src/Monitor/Requests.antt =====
-- The requests to CloudWatch of pkg/cloud/aws/monitor/aws_monitor.go: `getFullMetricsListByName`,
-- `createGetMetricDataInput` and `scrapeDiscoveryJobUsingMetricData`. The client's pages are
-- arguments.
pub mod Answered
pub mod Kept
use iaa_s_exporter.Prelude.{
  ℕ, ◌≡◌, String, Bool, true, Option, none, some, List, [], ◌∷◌, ◌++◌, map, flatten,
}
use iaa_s_exporter.Prelude.Int.{ℤ, pos}
use iaa_s_exporter.Prelude.Interleave.{Interleaves}
use iaa_s_exporter.Health.Aws.{all_pages}
use iaa_s_exporter.Monitor.{CwDimension, CwMetric, CloudwatchData}
use iaa_s_exporter.Monitor.Batches.{batches}
use iaa_s_exporter.Monitor.Window.{input_window}
use iaa_s_exporter.Monitor.Discovery.{find_get_metric_data_by_id}
use iaa_s_exporter.Monitor.Tagged.{Gathered, fatal, panicked, gathered}

-- By namespace and name; `none` is the exit when a page fails.
unfoldable pub get_full_metrics_list_by_name :
    (String → String → List (Option (List CwMetric))) → String → String → Option (List CwMetric)
unfolding all_pages
get_full_metrics_list_by_name list_metrics namespace metrics_name =
    all_pages (list_metrics namespace metrics_name)

pub record MetricDataQuery : Type 0 where
  pub id : String
  pub dimensions : List CwDimension
  pub metric_name : String
  pub namespace : String
  pub period : ℤ
  pub stat : String
  pub return_data : Bool

pub record GetMetricDataInput : Type 0 where
  pub start_time : ℤ
  pub end_time : ℤ
  pub metric_data_queries : List MetricDataQuery
  pub scan_by : String

-- A result has its values and their times, the newest first.
pub record MetricDataResult (F : Type 0) : Type 0 where
  pub id : String
  pub values : List F
  pub timestamps : List ℕ

abbrev add_query :
    Option MetricDataQuery → Option (List MetricDataQuery) → Option (List MetricDataQuery)
add_query none rest = none
add_query (some q) none = none
add_query (some q) (some qs) = some (q ∷ qs)

module _ {F : Type 0} where
  -- What `data.Period` holds after the loop over a slice. The queries have its address, and go 1.18
  -- has one `data` for the whole loop.
  unfoldable pub last_period : ℤ → List (CloudwatchData F) → ℤ
  last_period period [] = period
  last_period period (data' ∷ input) = last_period data'.period input

  -- `data.Statistics[0]` panics where there is none.
  abbrev query_of : String → ℤ → CloudwatchData F → List String → Option MetricDataQuery
  query_of namespace period data' [] = none
  query_of namespace period data' (stat ∷ stats) = some (record {
    id = data'.metric_id;
    dimensions = data'.dimensions;
    metric_name = data'.metric;
    namespace = namespace;
    period = period;
    stat = stat;
    return_data = true;
  })

  -- What the goroutine of a slice appends.
  unfoldable pub queries_of : String → ℤ → List (CloudwatchData F) → Option (List MetricDataQuery)
  queries_of namespace period [] = some []
  queries_of namespace period (data' ∷ input) =
      add_query (query_of namespace period data' data'.statistics)
        (queries_of namespace period input)

  abbrev pub Slices : String → List (List (CloudwatchData F)) → List (List MetricDataQuery) → Type 0
  unfolding queries_of last_period
  Slices namespace [] [] = Unit
  Slices namespace [] (qs ∷ qss) = ⊥
  Slices namespace (s ∷ ss) [] = ⊥
  Slices namespace (s ∷ ss) (qs ∷ qss) =
      (queries_of namespace (last_period (pos 0) s) s ≡ some qs) × Slices namespace ss qss

  -- The request at a time: a goroutine for each 50 of the data appends its queries. The least period
  -- is that of all data.
  unfoldable pub CreatesInput :
      List (CloudwatchData F) → String → ℤ → ℤ → Option ℤ → ℤ → GetMetricDataInput → Type 0
  unfolding batches input_window
  CreatesInput input namespace length delay configured now output =
      ((qss : List (List MetricDataQuery)) × Slices namespace (batches 50 input) qss
        × Interleaves qss output.metric_data_queries)
      × ((output.start_time, output.end_time) ≡ input_window input length delay configured now)
      × (output.scan_by ≡ "TimestampDescending")

  -- The first value with its time; `Timestamps[0]` panics where there is none.
  abbrev pub first_point : List F → List ℕ → Option (Option (F × ℕ))
  first_point [] ts = some none
  first_point (v ∷ vs) [] = none
  first_point (v ∷ vs) (t ∷ ts) = some (some (v, t))

  abbrev pub pointed : CloudwatchData F → Option (Option (F × ℕ)) → Option (List (CloudwatchData F))
  pointed c none = none
  pointed c (some none) = some (c ∷ [])
  pointed c (some (some p)) = some (record c { datapoint = some p } ∷ [])

  -- What a result adds to the output: nothing where no data has its id.
  abbrev pub of_result :
      Option (CloudwatchData F) → MetricDataResult F → Option (List (CloudwatchData F))
  of_result none r = some []
  of_result (some c) r = pointed c (first_point r.values r.timestamps)

  abbrev pub join :
      Option (List (CloudwatchData F))
      → Option (List (CloudwatchData F))
      → Option (List (CloudwatchData F))
  join none rest = none
  join (some xs) none = none
  join (some xs) (some ys) = some (xs ++ ys)

  unfoldable pub collect_results :
      List (CloudwatchData F) → List (MetricDataResult F) → Option (List (CloudwatchData F))
  unfolding find_get_metric_data_by_id
  collect_results input [] = some []
  collect_results input (r ∷ rs) =
      join (of_result (find_get_metric_data_by_id input r.id) r) (collect_results input rs)

  abbrev pub add_output :
      Option (List (CloudwatchData F)) → Gathered (CloudwatchData F) → Gathered (CloudwatchData F)
  add_output none rest = panicked
  add_output (some output) fatal = fatal
  add_output (some output) panicked = panicked
  add_output (some output) (gathered outputs) = gathered (output ∷ outputs)

  -- The goroutine of a slice, before those of the other slices.
  abbrev pub scrape_slice :
      List (CloudwatchData F)
      → Option (List (MetricDataResult F))
      → Gathered (CloudwatchData F)
      → Gathered (CloudwatchData F)
  unfolding collect_results
  scrape_slice input none rest = fatal
  scrape_slice input (some results) rest = add_output (collect_results input results) rest

  -- The client's pages, for the request that is made of a slice.
  module _
      (get_metric_data : List (CloudwatchData F) → List (Option (List (MetricDataResult F)))) where
    unfoldable pub scrape_slices : List (List (CloudwatchData F)) → Gathered (CloudwatchData F)
    unfolding all_pages scrape_slice
    scrape_slices [] = gathered []
    scrape_slices (input ∷ slices) =
        scrape_slice input (all_pages (get_metric_data input)) (scrape_slices slices)

    unfoldable pub scrape_discovery_job_using_metric_data :
        List (CloudwatchData F) → Gathered (CloudwatchData F)
    unfolding scrape_slices batches
    scrape_discovery_job_using_metric_data cw_data = scrape_slices (batches 20 cw_data)

  -- Each goroutine appends its output at once.
  abbrev pub AppendsAll : List (List (CloudwatchData F)) → List (CloudwatchData F) → Type 0
  AppendsAll outputs cw =
      (order : List (List (CloudwatchData F))) × Interleaves (map (λ o. o ∷ []) outputs) order
      × (cw ≡ flatten order)
