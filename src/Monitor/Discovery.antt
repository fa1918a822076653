-- ===== src/Monitor/Discovery.antt =====
-- How pkg/cloud/aws/monitor finds the metrics of tagged resources: the filter of dimension values,
-- `filterMetricsList`, and `getCloudwatchDataFromMetric` of aws_monitor.go, and resource.go.
pub mod Matched
pub mod Origin
use Prim.Native.String.{◌++◌ as concat}
use iaa_s_exporter.Prelude.{
  ℕ, zero, suc, ◌+◌, String, Bool, true, false, Option, none, some, List, [], ◌∷◌, ◌++◌, map,
  if◌then◌else◌, ◌==◌, nat_eq, length,
}
use iaa_s_exporter.Prelude.Dict.{Dict, lookup, insert, is_some, or_else}
use iaa_s_exporter.Prelude.Interleave.{Interleaves}
use iaa_s_exporter.Config.{Tag, Metric}
use iaa_s_exporter.Monitor.{CwDimension, CwMetric, TaggedResource, CloudwatchData}
use iaa_s_exporter.Monitor.Batches.{batches}

-- The values of a dimension, each with the resource whose ARN has it.
abbrev pub DimValues : Type 0
DimValues = List (String × TaggedResource)

-- A compiled regular expression: the names of its groups, and the groups of a match.
pub record Regexp : Type 0 where
  pub subexp_names : List String
  pub find_submatch : String → Option (List String)

abbrev pub values_of : Option DimValues → DimValues
values_of none = []
values_of (some vals) = vals

-- Every group's name is a key.
unfoldable pub add_names : List String → Dict DimValues → Dict DimValues
add_names [] filter = filter
add_names (name ∷ names) filter =
    add_names names (if is_some (lookup name filter) then filter else insert name [] filter)

unfoldable pub add_groups :
    TaggedResource → List String → List String → Dict DimValues → Dict DimValues
add_groups r (name ∷ names) (value ∷ values) filter =
    add_groups r names values
      (insert name (values_of (lookup name filter) ++ (value, r) ∷ []) filter)
add_groups r [] values filter = filter
add_groups r (name ∷ names) [] filter = filter

abbrev pub add_match :
    Regexp → TaggedResource → Option (List String) → Dict DimValues → Dict DimValues
add_match regexp r none filter = filter
add_match regexp r (some values) filter = add_groups r regexp.subexp_names values filter

pub add_resources : Regexp → List TaggedResource → Dict DimValues → Dict DimValues
unfolding add_groups
add_resources regexp [] filter = filter
add_resources regexp (r ∷ rs) filter =
    add_resources regexp rs (add_match regexp r (regexp.find_submatch r.arn) filter)

pub add_regexps : List Regexp → List TaggedResource → Dict DimValues → Dict DimValues
unfolding add_names add_resources
add_regexps [] tagged filter = filter
add_regexps (regexp ∷ regexps) tagged filter =
    add_regexps regexps tagged (add_resources regexp tagged (add_names regexp.subexp_names filter))

-- From the expressions of a service and the resources with its tags.
unfoldable pub get_dimensions_filter : List Regexp → List TaggedResource → Dict DimValues
unfolding add_regexps
get_dimensions_filter regexps tagged = add_regexps regexps tagged []

module _ (filter : Dict DimValues) where
  -- A metric is taken once for each value that it matches.
  unfoldable pub take_matches : CwMetric → String → DimValues → List CwMetric
  take_matches metric value [] = []
  take_matches metric value ((dim_val, res) ∷ vals) =
      if dim_val == value
      then metric ∷ take_matches metric value vals
      else take_matches metric value vals

  unfoldable pub take_dimensions : CwMetric → List CwDimension → List CwMetric
  unfolding take_matches
  take_dimensions metric [] = []
  take_dimensions metric (d ∷ ds) =
      take_matches metric d.value (values_of (lookup d.name filter)) ++ take_dimensions metric ds

  unfoldable pub take_metrics : List CwMetric → List CwMetric
  unfolding take_dimensions
  take_metrics [] = []
  take_metrics (metric ∷ metrics) = take_dimensions metric metric.dimensions ++ take_metrics metrics

  -- The goroutines, one for each 50 metrics, append to one result.
  unfoldable pub FiltersMetricsList : List CwMetric → List CwMetric → Type 0
  unfolding take_metrics batches
  FiltersMetricsList full result = Interleaves (map take_metrics (batches 50 full)) result

  -- The first value of the dimension that matches.
  unfoldable pub find_value : String → DimValues → Option TaggedResource
  find_value value [] = none
  find_value value ((dim_val, res) ∷ vals) =
      if dim_val == value then some res else find_value value vals

  unfoldable pub find_resource : List CwDimension → Option TaggedResource
  unfolding find_value
  find_resource [] = none
  find_resource (d ∷ ds) =
      or_else (find_value d.value (values_of (lookup d.name filter))) (find_resource ds)

-- The value of the first tag with a key, or the empty text.
unfoldable pub tag_value : String → List Tag → String
tag_value key [] = ""
tag_value key (t ∷ ts) = if t.key == key then t.value else tag_value key ts

unfoldable pub metric_tags : TaggedResource → Dict (List String) → List Tag
unfolding tag_value
metric_tags r tags_on_metrics =
    map (λ name. record { key = name; value = tag_value name r.tags })
      (elim (lookup r.namespace tags_on_metrics) [ none ↦ [] | some names ↦ names ])

-- What stays the same over the metrics of one name. The ids are random; `ids n` is the one drawn
-- for the data numbered n.
pub record Request : Type 0 where
  pub metric : Metric
  pub namespace : String
  pub region : String
  pub account_id : String
  pub tags_on_metrics : Dict (List String)
  pub custom_tags : List Tag
  pub ids : ℕ → String

module _ {F : Type 0} (filter : Dict DimValues) (req : Request) where
  unfoldable pub data_of : TaggedResource → CwMetric → ℕ → String → CloudwatchData F
  unfolding metric_tags
  data_of r cw_metric n statistic = record {
    id = r.arn;
    metric_id = req.ids n;
    metric = req.metric.name;
    namespace = req.namespace;
    statistics = statistic ∷ [];
    datapoint = none;
    nil_to_zero = req.metric.nil_to_zero;
    add_cloudwatch_timestamp = req.metric.add_cloudwatch_timestamp;
    custom_tags = req.custom_tags;
    tags = metric_tags r req.tags_on_metrics;
    dimensions = cw_metric.dimensions;
    region = req.region;
    account_id = req.account_id;
    period = req.metric.period;
  }

  unfoldable pub data_of_all : TaggedResource → CwMetric → ℕ → List String → List (CloudwatchData F)
  data_of_all r cw_metric n [] = []
  data_of_all r cw_metric n (s ∷ ss) = data_of r cw_metric n s ∷ data_of_all r cw_metric (suc n) ss

  -- A nil resource panics at the first statistic.
  abbrev pub with_resource :
      Option TaggedResource → CwMetric → ℕ → List String → Option (List (CloudwatchData F))
  unfolding data_of_all
  with_resource none cw_metric n [] = some []
  with_resource none cw_metric n (s ∷ ss) = none
  with_resource (some r) cw_metric n ss = some (data_of_all r cw_metric n ss)

  abbrev pub join :
      Option (List (CloudwatchData F))
      → Option (List (CloudwatchData F))
      → Option (List (CloudwatchData F))
  join none rest = none
  join (some xs) none = none
  join (some xs) (some ys) = some (xs ++ ys)

  -- The loop's `r` is the resource found, or else the one of the metric before.
  pub data_from : Option TaggedResource → ℕ → List CwMetric → Option (List (CloudwatchData F))
  unfolding find_resource with_resource
  data_from before n [] = some []
  data_from before n (cw_metric ∷ cw_metrics) =
      let r = or_else (find_resource filter cw_metric.dimensions) before in
      join (with_resource r cw_metric n req.metric.statistics)
        (data_from r (n + length req.metric.statistics) cw_metrics)

  -- `none` is a panic.
  unfoldable pub get_cloudwatch_data_from_metric : List CwMetric → Option (List (CloudwatchData F))
  unfolding data_from
  get_cloudwatch_data_from_metric filtered = data_from none 0 filtered

-- The data whose id is the value; the copy of the loop's variable that is returned stands for it.
unfoldable pub find_get_metric_data_by_id :
    {F : Type 0} → List (CloudwatchData F) → String → Option (CloudwatchData F)
find_get_metric_data_by_id [] value = none
find_get_metric_data_by_id (c ∷ cs) value =
    if c.metric_id == value then some c else find_get_metric_data_by_id cs value
