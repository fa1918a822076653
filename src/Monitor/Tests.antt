-- ===== src/Monitor/Tests.antt =====
-- The theorems about the CloudWatch monitor at one instance with two dimensions.
mod Jobs
use mathlib.Core.List.{Memᴰ}
use iaa_s_exporter.Prelude.{
  ℕ, ◌≡◌, refl, String, false, none, some, List, [], ◌∷◌, ◌++◌, map, arith, if◌then◌else◌,
}
use iaa_s_exporter.Prelude.Int.{ℤ, pos}
use iaa_s_exporter.Prelude.Dict.{Dict, lookup, or_else, is_some, insert}
use iaa_s_exporter.Prelude.Interleave.{flatten-Interleaves}
use iaa_s_exporter.Config.{Metric, Job}
use iaa_s_exporter.Monitor.{CwDimension, CwMetric, TaggedResource, CloudwatchData}
use iaa_s_exporter.Monitor.Labels.{
  PrometheusMetric, LabelSet, ensured, seen, scraped_metrics,
  create_prometheus_metrics_from_cw_data, ensure_label_consistency_for_metrics,
}
use iaa_s_exporter.Monitor.Labels.Has.{has}
use iaa_s_exporter.Monitor.Labels.Consistent.{scraped_metrics_consistent}
use iaa_s_exporter.Monitor.Labels.Ensured.{ensured-labels}
use iaa_s_exporter.Monitor.Window.{determine_get_metric_data_window}
use iaa_s_exporter.Monitor.Window.Floor.{determine_get_metric_data_window_lem}
use iaa_s_exporter.Monitor.Batches.{batches}
use iaa_s_exporter.Monitor.Discovery.{
  DimValues, FiltersMetricsList, take_metrics, find_resource, find_value, Request,
  get_cloudwatch_data_from_metric,
}
use iaa_s_exporter.Monitor.Discovery.Matched.{
  FiltersMetricsList_complete, own_data, get_cloudwatch_data_from_metric_lem,
}

abbrev server : TaggedResource
server = record { arn = "arn:aws:ec2:i-1"; namespace = "ec2"; region = "eu"; tags = [] }

abbrev by_id : Dict DimValues
by_id = ("InstanceId", ("i-1", server) ∷ []) ∷ []

abbrev watched : CwMetric
watched = record {
  dimensions =
      record { name = "ImageId"; value = "a" } ∷ record { name = "InstanceId"; value = "i-1" } ∷ [];
}

abbrev other : CwMetric
other = record { dimensions = record { name = "InstanceId"; value = "i-2" } ∷ [] }

abbrev full : List CwMetric
full = other ∷ watched ∷ []

filtered : FiltersMetricsList by_id full (watched ∷ [])
unfolding FiltersMetricsList take_metrics batches lookup
filtered = flatten-Interleaves (map (take_metrics by_id) (batches 50 full))

FiltersMetricsList_complete_example : Memᴰ watched (watched ∷ [])
unfolding find_resource find_value lookup
FiltersMetricsList_complete_example =
    FiltersMetricsList_complete by_id full (watched ∷ []) watched server filtered
      (Memᴰ.tail (Memᴰ.head refl)) refl

abbrev cpu : Metric
cpu = record {
  name = "CPUUtilization";
  statistics = "Average" ∷ "Maximum" ∷ [];
  period = pos 60;
  length = pos 900;
  delay = pos 0;
  nil_to_zero = none;
  add_cloudwatch_timestamp = none;
}

abbrev request : Request
request = record {
  metric = cpu;
  namespace = "ec2";
  region = "eu";
  account_id = "1";
  tags_on_metrics = [];
  custom_tags = [];
  ids = λ n. "id_7";
}

get_cloudwatch_data_from_metric_lem_example :
    get_cloudwatch_data_from_metric {F = ℤ} by_id request (watched ∷ [])
    ≡ some (own_data by_id request 0 (watched ∷ []))
get_cloudwatch_data_from_metric_lem_example =
    get_cloudwatch_data_from_metric_lem by_id request full (watched ∷ []) filtered

abbrev three : List ℕ
three = 1 ∷ 2 ∷ 3 ∷ []

abbrev job : Job
job = record {
  type = "ec2";
  search_tags = [];
  custom_tags = [];
  dimension_name_requirements = [];
  metrics = cpu ∷ [];
  length = pos 0;
  delay = pos 0;
  period = pos 0;
  rounding_period = none;
  statistics = [];
  add_cloudwatch_timestamp = none;
  nil_to_zero = none;
}

-- 17 nanoseconds after the zero time, with a period of 5: from 15 - 4 to 15 - 1.
determine_get_metric_data_window_lem_example :
    determine_get_metric_data_window (pos 17) (pos 5) (pos 3) (pos 1) ≡ (pos 11, pos 14)
determine_get_metric_data_window_lem_example =
    determine_get_metric_data_window_lem 17 4 3 1 (omega arith) (omega arith) (omega arith)
      (omega arith)

abbrev point : List CwDimension → CloudwatchData ℤ
point ds = record {
  id = "arn";
  metric_id = "id_7";
  metric = "cpu";
  namespace = "ec2";
  statistics = "average" ∷ [];
  datapoint = some (pos 3, 10);
  nil_to_zero = none;
  add_cloudwatch_timestamp = none;
  custom_tags = [];
  tags = [];
  dimensions = ds;
  region = "eu";
  account_id = "1";
  period = pos 60;
}

abbrev points : List (CloudwatchData ℤ)
points = point [] ∷ point (record { name = "host"; value = "i-1" } ∷ []) ∷ []

abbrev base_labels : Dict String
base_labels = ("name", "arn") ∷ ("region", "eu") ∷ ("account_id", "1") ∷ []

abbrev shown : Dict String → PrometheusMetric ℤ
shown labels = record {
  name = "cpe_aws_ec2_cpu_average";
  labels = labels;
  value = pos 3;
  include_timestamp = false;
  timestamp = 10;
}

both_shown :
    scraped_metrics (pos 0) (λ s. s) points
    ≡ shown (base_labels ++ ("dimension_host", "") ∷ [])
      ∷ shown (base_labels ++ ("dimension_host", "i-1") ∷ [])
      ∷ []
unfolding scraped_metrics create_prometheus_metrics_from_cw_data
    ensure_label_consistency_for_metrics lookup insert is_some
both_shown = refl

scraped_metrics_consistent_example :
    has "dimension_host" (base_labels ++ ("dimension_host", "") ∷ [])
    ≡ has "dimension_host" (base_labels ++ ("dimension_host", "i-1") ∷ [])
scraped_metrics_consistent_example =
    scraped_metrics_consistent (pos 0) (λ s. s) points
      (shown (base_labels ++ ("dimension_host", "") ∷ []))
      (shown (base_labels ++ ("dimension_host", "i-1") ∷ [])) "dimension_host"
      (rw both_shown (Memᴰ.head refl)) (rw both_shown (Memᴰ.tail (Memᴰ.head refl))) refl

abbrev observed : Dict LabelSet
observed = ("cpe_aws_ec2_cpu_average", ("dimension_host", tt) ∷ []) ∷ []
