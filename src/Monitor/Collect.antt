-- ===== src/Monitor/Collect.antt =====
-- `collectData` of pkg/cloud/aws/monitor/aws_monitor.go: how its steps are put together. The clients
-- of AWS, regexp and the random ids enter as `Clients`.
pub mod Selected
use iaa_s_exporter.Prelude.{ℕ, ◌≡◌, String, Bool, Option, some, List, [], ◌∷◌, map}
use iaa_s_exporter.Prelude.Dict.{Dict}
use iaa_s_exporter.Config.{Job, Metric, CloudWatchMetricsConf}
use iaa_s_exporter.Monitor.{CwMetric, TaggedResource, CloudwatchData}
use iaa_s_exporter.Monitor.Services.{ServiceFilter, get_service, supported_services}
use iaa_s_exporter.Monitor.Tagged.{
  ResourceTagMapping, Gathered, gathered, GathersAll, get_tagged_resource,
}
use iaa_s_exporter.Monitor.Discovery.{
  DimValues, Regexp, Request, get_dimensions_filter, FiltersMetricsList,
  get_cloudwatch_data_from_metric,
}
use iaa_s_exporter.Monitor.Requests.{
  MetricDataResult, get_full_metrics_list_by_name, scrape_discovery_job_using_metric_data,
  AppendsAll,
}

pub record Clients (F : Type 0) : Type 0 where
  -- regexp.Compile, and regexp.MustCompile of an expression of the table
  pub compile : String → Option (String → Bool)
  pub must_compile : String → Regexp
  pub get_resources : List String → List String → List (Option (List ResourceTagMapping))
  pub list_metrics : String → String → List (Option (List CwMetric))
  -- the random ids of a metric's data, and what CloudWatch answers to a request for data of a job
  pub ids : Metric → ℕ → String
  pub get_metric_data :
      Job → ServiceFilter → List (CloudwatchData F) → List (Option (List (MetricDataResult F)))

module _ {F : Type 0} (clients : Clients F) (cfg : CloudWatchMetricsConf)
    (region account_id : String) where
  abbrev pub request_of : Job → Metric → Request
  request_of job metric = record {
    metric = metric;
    namespace = job.type;
    region = region;
    account_id = account_id;
    tags_on_metrics = cfg.exported_tags_on_metrics;
    custom_tags = job.custom_tags;
    ids = clients.ids metric;
  }

  -- The goroutine of a metric appends this data to the result, at once.
  unfoldable pub CollectsMetric :
      Job → ServiceFilter → Dict DimValues → Metric → List (CloudwatchData F) → Type 0
  unfolding get_full_metrics_list_by_name FiltersMetricsList get_cloudwatch_data_from_metric
      scrape_discovery_job_using_metric_data
  CollectsMetric job svc dim_filter metric metrics_data =
      (full : List CwMetric) × (get_full_metrics_list_by_name clients.list_metrics svc.namespace
          metric.name
        ≡ some full)
      × (filtered : List CwMetric) × FiltersMetricsList dim_filter full filtered
      × (data' : List (CloudwatchData F)) × (get_cloudwatch_data_from_metric dim_filter
            (request_of job metric) filtered
          ≡ some data')
      × (outputs : List (List (CloudwatchData F))) × (scrape_discovery_job_using_metric_data
            (clients.get_metric_data job svc) data'
          ≡ gathered outputs)
      × AppendsAll outputs metrics_data

  abbrev pub CollectsMetrics :
      Job → ServiceFilter → Dict DimValues → List Metric → List (List (CloudwatchData F)) → Type 0
  unfolding CollectsMetric
  CollectsMetrics job svc dim_filter [] [] = Unit
  CollectsMetrics job svc dim_filter [] (d ∷ ds) = ⊥
  CollectsMetrics job svc dim_filter (m ∷ ms) [] = ⊥
  CollectsMetrics job svc dim_filter (m ∷ ms) (d ∷ ds) =
      CollectsMetric job svc dim_filter m d × CollectsMetrics job svc dim_filter ms ds

  -- The goroutine of a job, by what the goroutines of its metrics append.
  unfoldable pub CollectsJob : Job → List (List (CloudwatchData F)) → Type 0
  unfolding CollectsMetrics get_tagged_resource get_service get_dimensions_filter
  CollectsJob job metrics_data =
      (tagged_res : List TaggedResource) × GathersAll
        (get_tagged_resource clients.compile job region clients.get_resources) tagged_res
      × (svc : ServiceFilter) × (get_service supported_services job.type ≡ some svc)
      × CollectsMetrics job svc
          (get_dimensions_filter (map clients.must_compile svc.dimension_regexps) tagged_res)
          job.metrics metrics_data
