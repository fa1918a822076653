-- ===== src/Monitor/Tests/Jobs.antt =====
-- The theorems about the jobs of the CloudWatch monitor, at a job for one of two instances.
use mathlib.Core.List.{Memᴰ, append-nil}
use iaa_s_exporter.Prelude.{
  ℕ, ◌≡◌, ◌≢◌, ◌↔◌, refl, String, Bool, true, Option, none, some, List, [], ◌∷◌, map, All, arith,
  if◌then◌else◌, ◌==◌, eq_iff,
}
use iaa_s_exporter.Prelude.Int.{pos}
use iaa_s_exporter.Prelude.Dict.{lookup, insert, is_some}
use iaa_s_exporter.Prelude.Interleave.{flatten-Interleaves}
use iaa_s_exporter.Config.{Tag, Metric, Job, CloudWatchMetricsConf}
use iaa_s_exporter.Monitor.{CwMetric, TaggedResource, CloudwatchData}
use iaa_s_exporter.Monitor.Batches.{batches}
use iaa_s_exporter.Monitor.Services.{get_service}
use iaa_s_exporter.Monitor.Tagged.{
  ResourceTagMapping, gathered, filter_through_tags, get_tagged_resource,
}
use iaa_s_exporter.Monitor.Tagged.Filtered.{HasMatch, filter_through_tags_lem}
use iaa_s_exporter.Health.Aws.{all_pages}
use iaa_s_exporter.Monitor.Discovery.{
  Regexp, get_dimensions_filter, FiltersMetricsList, take_metrics, get_cloudwatch_data_from_metric,
  data_of, data_of_all, find_resource, find_value, metric_tags, find_get_metric_data_by_id,
}
use iaa_s_exporter.Monitor.Requests.{
  MetricDataResult, get_full_metrics_list_by_name, scrape_discovery_job_using_metric_data,
}
use iaa_s_exporter.Monitor.Requests.Answered.{
  Answer, result_of, answered, Serves, scrape_discovery_job_lem,
}
use iaa_s_exporter.Monitor.Collect.{Clients, CollectsMetric, CollectsJob}
use iaa_s_exporter.Monitor.Scrape.{CollectsData}
use iaa_s_exporter.Monitor.Scrape.Selected.{IsOfJobs, CollectsData-selected}

-- An expression that matches the text itself.
abbrev literal : String → Option (String → Bool)
literal s = some (λ value. value == s)

abbrev tag : String → String → Tag
tag k v = record { key = k; value = v }

abbrev tags : List Tag
tags = tag "team" "dbaas" ∷ tag "stage" "live" ∷ []

abbrev search : List Tag
search = tag "team" "dbaas" ∷ []

stage_differs : ◌≢◌ {A = String} "stage" "team"
stage_differs e = ground (arith, e, eq_iff "stage" "team")

filter_through_tags_lem_example :
    (kept : Bool) × (filter_through_tags literal tags search ≡ some kept)
    × ((kept ≡ true) ↔ All (HasMatch literal tags) search)
filter_through_tags_lem_example =
    filter_through_tags_lem literal tags search (((stage_differs, tt), (tt, tt)))
      (((λ value. value == "dbaas"), refl), tt)

-- Data with an id.
abbrev datum : String → CloudwatchData ℕ
datum id = record {
  id = "arn";
  metric_id = id;
  metric = "CPUUtilization";
  namespace = "ec2";
  statistics = "Average" ∷ [];
  datapoint = none;
  nil_to_zero = none;
  add_cloudwatch_timestamp = none;
  custom_tags = [];
  tags = [];
  dimensions = [];
  region = "eu";
  account_id = "1";
  period = pos 300;
}

-- Two points for the last of the data, and none for the others.
abbrev last_answer : List (CloudwatchData ℕ) → List (Answer ℕ)
last_answer [] = []
last_answer (c ∷ []) = (c, (7, 20) ∷ (5, 10) ∷ []) ∷ []
last_answer (c ∷ d ∷ ds) = last_answer (d ∷ ds)

last_asked : (input : List (CloudwatchData ℕ)) → All (λ a. Memᴰ a.0 input) (last_answer input)
last_asked [] = tt
last_asked (c ∷ []) = (Memᴰ.head refl, tt)
last_asked (c ∷ d ∷ ds) = later (d ∷ ds) (last_answer (d ∷ ds)) (last_asked (d ∷ ds))
  where
    later :
        (input : List (CloudwatchData ℕ)) (answers : List (Answer ℕ))
        → All (λ a. Memᴰ a.0 input) answers
        → All (λ a. Memᴰ a.0 (c ∷ input)) answers
    later input [] h = tt
    later input (a ∷ rest) (h, hs) = (Memᴰ.tail h, later input rest hs)

-- An empty page, and one with the results.
abbrev pages : List (CloudwatchData ℕ) → List (List (MetricDataResult ℕ))
pages input = [] ∷ map result_of (last_answer input) ∷ []

abbrev client : List (CloudwatchData ℕ) → List (Option (List (MetricDataResult ℕ)))
client input = map some (pages input)

serves : Serves client last_answer pages
serves input = (refl, append-nil _, last_asked input)

two_differ : ◌≢◌ {A = String} "2" "1"
two_differ e = ground (arith, e, eq_iff "2" "1")

scrape_discovery_job_lem_example :
    scrape_discovery_job_using_metric_data client (datum "1" ∷ datum "2" ∷ [])
    ≡ gathered (map (λ s. map answered (last_answer s)) (batches 20 (datum "1" ∷ datum "2" ∷ [])))
scrape_discovery_job_lem_example =
    scrape_discovery_job_lem client last_answer pages (datum "1" ∷ datum "2" ∷ []) serves
      ((two_differ, tt), (tt, tt))

-- A job for the instances of a team.
abbrev metric : Metric
metric = record {
  name = "CPUUtilization";
  statistics = "Average" ∷ [];
  period = pos 300;
  length = pos 300;
  delay = pos 0;
  nil_to_zero = none;
  add_cloudwatch_timestamp = none;
}

abbrev job : Job
job = record {
  type = "ec2";
  search_tags = search;
  custom_tags = [];
  dimension_name_requirements = [];
  metrics = metric ∷ [];
  length = pos 300;
  delay = pos 0;
  period = pos 300;
  rounding_period = none;
  statistics = [];
  add_cloudwatch_timestamp = none;
  nil_to_zero = none;
}

abbrev cfg : CloudWatchMetricsConf
cfg = record { exported_tags_on_metrics = []; jobs = job ∷ [] }

abbrev instance_ids : Regexp
instance_ids = record {
  subexp_names = "InstanceId" ∷ [];
  find_submatch = λ arn. some ((if arn == "arn:i-1" then "i-1" else "i-2") ∷ []);
}

abbrev mapping : String → List Tag → ResourceTagMapping
mapping arn tags = record { resource_arn = arn; tags = tags }

-- Two instances, the first with the team's tag; CloudWatch has no points.
abbrev clients : Clients ℕ
clients = record {
  compile = literal;
  must_compile = λ s. instance_ids;
  get_resources = λ types keys. some (mapping "arn:i-1" tags ∷ mapping "arn:i-2" [] ∷ []) ∷ [];
  list_metrics = λ namespace name.
      some (
        record { dimensions = record { name = "InstanceId"; value = "i-1" } ∷ [] }
        ∷ record { dimensions = record { name = "InstanceId"; value = "i-2" } ∷ [] }
        ∷ [])
      ∷ [];
  ids = λ m n. "id";
  get_metric_data = λ j svc input. some (map (λ c. result_of (c, [])) input) ∷ [];
}

abbrev collected : CloudwatchData ℕ
collected = record (datum "id") {
  id = "arn:i-1";
  dimensions = record { name = "InstanceId"; value = "i-1" } ∷ [];
}

abbrev selected : TaggedResource
selected = record { arn = "arn:i-1"; namespace = "ec2"; region = "eu"; tags = tags }

abbrev watched : CwMetric
watched = record { dimensions = record { name = "InstanceId"; value = "i-1" } ∷ [] }

abbrev other : CwMetric
other = record { dimensions = record { name = "InstanceId"; value = "i-2" } ∷ [] }

runs : CollectsJob clients cfg "eu" "1" job ((collected ∷ []) ∷ [])
unfolding CollectsJob CollectsMetric get_tagged_resource get_service filter_through_tags
    get_dimensions_filter FiltersMetricsList take_metrics batches lookup insert is_some
    get_full_metrics_list_by_name get_cloudwatch_data_from_metric data_of data_of_all find_resource
    find_value scrape_discovery_job_using_metric_data find_get_metric_data_by_id all_pages
    metric_tags
runs = (
  selected ∷ [],
  flatten-Interleaves ((selected ∷ []) ∷ []),
  _,
  refl,
  (
    (
      watched ∷ other ∷ [],
      refl,
      watched ∷ [],
      flatten-Interleaves ((watched ∷ []) ∷ []),
      collected ∷ [],
      refl,
      (collected ∷ []) ∷ [],
      refl,
      ((collected ∷ []) ∷ [], flatten-Interleaves (((collected ∷ []) ∷ []) ∷ []), refl),
    ),
    tt,
  ),
)

collects : CollectsData clients cfg "eu" "1" (collected ∷ [])
unfolding CollectsData
collects = (
  ((collected ∷ []) ∷ []) ∷ [],
  (runs, tt),
  ((collected ∷ []) ∷ [], flatten-Interleaves (((collected ∷ []) ∷ []) ∷ []), refl),
)

CollectsData-selected_example :
    All (λ d. IsOfJobs clients cfg "eu" "1" (job ∷ []) d.id) (collected ∷ [])
CollectsData-selected_example = CollectsData-selected clients cfg "eu" "1" (collected ∷ []) collects
