-- ===== src/Monitor/Scrape.antt =====
-- `collectData`, `Scrape`, `Describe` and `Collect` of pkg/cloud/aws/monitor/aws_monitor.go, and
-- `createDesc` and `createMetric` of prome.go.
pub mod Selected
use iaa_s_exporter.Prelude.{
  ℕ, ◌≡◌, String, Bool, true, false, Option, none, some, List, [], ◌∷◌, map, flatten, if◌then◌else◌,
}
use iaa_s_exporter.Prelude.Dict.{Dict}
use iaa_s_exporter.Config.{Job, CloudWatchMetricsConf}
use iaa_s_exporter.Monitor.{CloudwatchData}
use iaa_s_exporter.Monitor.Labels.{PrometheusMetric, scraped_metrics}
use iaa_s_exporter.Monitor.Requests.{AppendsAll}
use iaa_s_exporter.Monitor.Collect.{Clients, CollectsJob}

module _ {F : Type 0} (clients : Clients F) (cfg : CloudWatchMetricsConf)
    (region account_id : String) where
  abbrev pub CollectsJobs : List Job → List (List (List (CloudwatchData F))) → Type 0
  unfolding CollectsJob
  CollectsJobs [] [] = Unit
  CollectsJobs [] (d ∷ ds) = ⊥
  CollectsJobs (job ∷ jobs) [] = ⊥
  CollectsJobs (job ∷ jobs) (d ∷ ds) =
      CollectsJob clients cfg region account_id job d × CollectsJobs jobs ds

  -- A goroutine for each job, and in it one for each metric, which appends to the result.
  unfoldable pub CollectsData : List (CloudwatchData F) → Type 0
  unfolding CollectsJobs
  CollectsData result =
      (per_job : List (List (List (CloudwatchData F)))) × CollectsJobs cfg.jobs per_job
      × AppendsAll (flatten per_job) result

  -- `Scrape` keeps these metrics.
  unfoldable pub Scrapes : F → (String → String) → List (PrometheusMetric F) → Type 0
  unfolding CollectsData scraped_metrics
  Scrapes nan to_lower metrics =
      (result : List (CloudwatchData F)) × CollectsData result
      × (metrics ≡ scraped_metrics nan to_lower result)

pub record Desc : Type 0 where
  pub fq_name : String
  pub help : String
  pub const_labels : Dict String

pub record Gauge (F : Type 0) : Type 0 where
  pub desc : Desc
  pub value : F
  pub timestamp : Option ℕ

abbrev pub create_desc : {F : Type 0} → PrometheusMetric F → Desc
create_desc metric = record {
  fq_name = metric.name;
  help = "Help is not implemented yet.";
  const_labels = metric.labels;
}

abbrev pub create_metric : {F : Type 0} → PrometheusMetric F → Gauge F
create_metric metric = record {
  desc = record {
    fq_name = metric.name;
    help = "Help is not implemented yet.";
    const_labels = metric.labels;
  };
  value = metric.value;
  timestamp = if metric.include_timestamp then some metric.timestamp else none;
}

unfoldable pub describe : {F : Type 0} → List (PrometheusMetric F) → List Desc
describe metrics = map create_desc metrics

unfoldable pub collect : {F : Type 0} → List (PrometheusMetric F) → List (Gauge F)
collect metrics = map create_metric metrics
