-- ===== src/Monitor/Collect/Selected.antt =====
-- Which resources the data that `collectData` collects is about.
use mathlib.Core.List.{Memᴰ}
use iaa_s_exporter.Prelude.{◌≡◌, String, some, true, List, [], ◌∷◌, map, All, All-imp, ◌∙◌}
use iaa_s_exporter.Prelude.Dict.{Dict}
use iaa_s_exporter.Config.{Job, Metric, CloudWatchMetricsConf}
use iaa_s_exporter.Monitor.{TaggedResource, CloudwatchData}
use iaa_s_exporter.Monitor.Services.{ServiceFilter, get_service, supported_services}
use iaa_s_exporter.Monitor.Tagged.{ResourceTagMapping, filter_through_tags}
use iaa_s_exporter.Monitor.Tagged.Selected.{IsSelected, get_tagged_resource-IsSelected}
use iaa_s_exporter.Monitor.Discovery.{DimValues}
use iaa_s_exporter.Monitor.Discovery.Origin.{
  FilterOnlyP, get_dimensions_filter-FilterOnlyP, get_cloudwatch_data_from_metric-IsOfP,
}
use iaa_s_exporter.Monitor.Requests.Kept.{scraped-AllQ}
use iaa_s_exporter.Monitor.Collect.{
  Clients, request_of, CollectsMetric, CollectsMetrics, CollectsJob,
}

module _ {F : Type 0} (clients : Clients F) (cfg : CloudWatchMetricsConf)
    (region account_id : String) where
  -- It is the ARN of a resource that the tagging client has in a page for the job's service, with
  -- tags that the job's search tags select.
  abbrev pub IsSelectedArn : Job → String → Type 0
  IsSelectedArn job id =
      (svc : ServiceFilter) × (get_service supported_services job.type ≡ some svc)
      × (page : List ResourceTagMapping) × Memᴰ (some page)
          (clients.get_resources svc.resource_filters (map (λ tag. tag.key) job.search_tags))
      × (mapping : ResourceTagMapping) × Memᴰ mapping page
      × (filter_through_tags clients.compile mapping.tags job.search_tags ≡ some true)
      × (id ≡ mapping.resource_arn)

  -- What the job's resources satisfy.
  abbrev IsOfJob : Job → TaggedResource → Type 0
  IsOfJob job = IsSelected clients.compile job region clients.get_resources

  arn_selected :
      (job : Job) (id : String) (r : TaggedResource)
      → IsOfJob job r
      → id ≡ r.arn
      → IsSelectedArn job id
  arn_selected job id r (svc, e, (page, i, (mapping, k, a, t))) h =
      (svc, e, page, i, mapping, k, t, h ∙ a)

  CollectsMetric-selected :
      (job : Job) (svc : ServiceFilter) (dim_filter : Dict DimValues) (metric : Metric)
      (metrics_data : List (CloudwatchData F))
      → FilterOnlyP (IsOfJob job) dim_filter
      → CollectsMetric clients cfg region account_id job svc dim_filter metric metrics_data
      → All (λ d. IsSelectedArn job d.id) metrics_data
  unfolding CollectsMetric
  CollectsMetric-selected job svc dim_filter metric metrics_data h
        (full, l, filtered, f, data', g, outputs, s, a) =
      scraped-AllQ (IsSelectedArn job) (clients.get_metric_data job svc) data' metrics_data outputs
        (All-imp data' (λ d (r, p, e). arn_selected job d.id r p e)
          (get_cloudwatch_data_from_metric-IsOfP (IsOfJob job) dim_filter F
            (request_of clients cfg region account_id job metric) filtered data' h g))
        s a

  CollectsMetrics-selected :
      (job : Job) (svc : ServiceFilter) (dim_filter : Dict DimValues) (ms : List Metric)
      (ds : List (List (CloudwatchData F)))
      → FilterOnlyP (IsOfJob job) dim_filter
      → CollectsMetrics clients cfg region account_id job svc dim_filter ms ds
      → All (All (λ d. IsSelectedArn job d.id)) ds
  unfolding CollectsMetrics
  CollectsMetrics-selected job svc dim_filter [] [] h c = tt
  CollectsMetrics-selected job svc dim_filter [] (d ∷ ds) h c = elim c [ ]
  CollectsMetrics-selected job svc dim_filter (m ∷ ms) [] h c = elim c [ ]
  CollectsMetrics-selected job svc dim_filter (m ∷ ms) (d ∷ ds) h (c, cs) = (
    CollectsMetric-selected job svc dim_filter m d h c,
    CollectsMetrics-selected job svc dim_filter ms ds h cs,
  )

  -- However the goroutines interleave, and whatever CloudWatch and the tagging client answer, all
  -- data that a job collects is of a resource of the tagging client that the job's search tags
  -- select.
  pub CollectsJob-selected :
      (job : Job) (metrics_data : List (List (CloudwatchData F)))
      → CollectsJob clients cfg region account_id job metrics_data
      → All (All (λ d. IsSelectedArn job d.id)) metrics_data
  unfolding CollectsJob
  CollectsJob-selected job metrics_data (tagged_res, t, svc, s, c) =
      CollectsMetrics-selected job svc _ job.metrics metrics_data
        (get_dimensions_filter-FilterOnlyP (IsOfJob job)
          (map clients.must_compile svc.dimension_regexps) tagged_res
          (get_tagged_resource-IsSelected clients.compile job region clients.get_resources
            tagged_res t))
        c
