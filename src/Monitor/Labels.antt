-- ===== src/Monitor/Labels.antt =====
-- pkg/cloud/aws/monitor/prome.go, and the end of aws_monitor.go: from CloudWatch's data to
-- Prometheus metrics whose labels are the same for all metrics of a name.
pub mod Has
pub mod Consistent
pub mod Ensured
use Prim.Native.Char.{Char, code}
use Prim.Native.String.{◌++◌ as concat}
use text.Mathlib.Text.{starts_with}
use iaa_s_exporter.Prelude.{
  ℕ, String, Bool, true, false, not, ◌&&◌, ◌||◌, Option, none, some, List, [], ◌∷◌, ◌++◌, map,
  nat_eq, leb, if◌then◌else◌, take,
}
use iaa_s_exporter.Prelude.Dict.{Dict, lookup, insert, is_some}
use iaa_s_exporter.Config.{Tag}
use iaa_s_exporter.Monitor.{CwDimension, CloudwatchData}

pub record PrometheusMetric (F : Type 0) : Type 0 where
  pub name : String
  pub labels : Dict String
  pub value : F
  pub include_timestamp : Bool
  pub timestamp : ℕ

abbrev pub LabelSet : Type 0
LabelSet = Dict (Unit {0})

abbrev between : ℕ → ℕ → Char → Bool
between low high c = leb low (code c) && leb (code c) high

-- ([a-z0-9])([A-Z])
abbrev is_boundary : Char → Char → Bool
is_boundary c d = (between 97 122 c || between 48 57 c) && between 65 90 d

-- splitRegexp.ReplaceAllString(text, "$1.$2"): a match takes two characters.
unfoldable pub split_words : String → String
split_words String.[] = ""
split_words (String.◌∷◌ c String.[]) = String.◌∷◌ c String.[]
split_words (String.◌∷◌ c (String.◌∷◌ d s)) =
    let rest = split_words s in
    let rest' = split_words (String.◌∷◌ d s) in
    if is_boundary c d then String.◌∷◌ c (concat "." (String.◌∷◌ d rest)) else String.◌∷◌ c rest'

-- The replacer's character.
abbrev replaced : Char → String
replaced c =
    if nat_eq (code c) 37
    then "_percent"
    else if nat_eq (code c) 32
        || nat_eq (code c) 44
        || nat_eq (code c) 9
        || nat_eq (code c) 47
        || nat_eq (code c) 92
        || nat_eq (code c) 46
        || nat_eq (code c) 45
        || nat_eq (code c) 58
        || nat_eq (code c) 61
        || nat_eq (code c) 8220
        || nat_eq (code c) 64
        || nat_eq (code c) 60
        || nat_eq (code c) 62
    then "_"
    else String.◌∷◌ c String.[]

unfoldable pub replace : String → String
replace String.[] = ""
replace (String.◌∷◌ c s) = concat (replaced c) (replace s)

-- Text in lower case is Unicode's, and an argument.
module _ (to_lower : String → String) where
  unfoldable pub prom_string : String → String
  unfolding split_words replace
  prom_string text = to_lower (replace (split_words text))

  -- The name of a metric of a namespace and a statistic.
  unfoldable pub metric_name : String → String → String → String
  unfolding prom_string
  metric_name namespace metric statistic =
      let lower = to_lower namespace in
      let prom_ns = if starts_with lower "aws" then lower else concat "cpe_aws_" lower in
      concat (prom_string prom_ns) (
        concat "_"
          (concat (to_lower (prom_string metric)) (concat "_" (to_lower (prom_string statistic)))))

  label_dimensions : List CwDimension → Dict String → Dict String
  unfolding prom_string
  label_dimensions [] labels = labels
  label_dimensions (d ∷ ds) labels =
      label_dimensions ds (insert (concat "dimension_" (prom_string d.name)) d.value labels)

  label_tags : String → List Tag → Dict String → Dict String
  unfolding prom_string
  label_tags prefix [] labels = labels
  label_tags prefix (t ∷ ts) labels =
      label_tags prefix ts (insert (concat prefix (prom_string t.key)) t.value labels)

  unfoldable pub create_prometheus_labels : {F : Type 0} → CloudwatchData F → Dict String
  unfolding label_dimensions label_tags
  create_prometheus_labels cwd =
      let named = insert "name" cwd.id [] in
      let labels = insert "account_id" cwd.account_id (insert "region" cwd.region named) in
      label_tags "tag_" cwd.tags
        (label_tags "custom_tag_" cwd.custom_tags (label_dimensions cwd.dimensions labels))

-- The labels seen with a metric's name; a name that is missing has none.
abbrev pub or_empty : Option LabelSet → LabelSet
or_empty none = []
or_empty (some labels) = labels

abbrev pub seen : String → Dict LabelSet → LabelSet
seen name observed = or_empty (lookup name observed)

unfoldable pub add_labels : Dict String → LabelSet → LabelSet
add_labels [] labels = labels
add_labels ((label, text) ∷ rest) labels =
    add_labels rest (if is_some (lookup label labels) then labels else insert label tt labels)

unfoldable pub record_labels_for_metric : String → Dict String → Dict LabelSet → Dict LabelSet
unfolding add_labels
record_labels_for_metric name labels observed =
    insert name (add_labels labels (seen name observed)) observed

-- The metrics, and the labels that were seen.
abbrev pub Created : Type 0 → Type 0
Created F = List (PrometheusMetric F) × Dict LabelSet

module _ {F : Type 0} (nan : F) (to_lower : String → String) where
  abbrev labelled : CloudwatchData F → String → F → ℕ → Bool → PrometheusMetric F
  labelled c statistic value timestamp include = record {
    name = metric_name to_lower c.namespace c.metric statistic;
    labels = create_prometheus_labels to_lower c;
    value = value;
    include_timestamp = include;
    timestamp = timestamp;
  }

  -- Without a datapoint the value is NaN, unless the timestamp was asked for.
  unfoldable pub metric_of :
      Option (F × ℕ) → Option Bool → CloudwatchData F → String → Option (PrometheusMetric F)
  unfolding metric_name create_prometheus_labels
  metric_of (some (value, timestamp)) none c statistic =
      some (labelled c statistic value timestamp false)
  metric_of (some (value, timestamp)) (some include) c statistic =
      some (labelled c statistic value timestamp include)
  metric_of none (some true) c statistic = none
  metric_of none (some false) c statistic = some (labelled c statistic nan 0 false)
  metric_of none none c statistic = some (labelled c statistic nan 0 false)

  abbrev put : PrometheusMetric F → Created F → Created F
  put m (metrics, observed) = (m ∷ metrics, observed)

  emit : Option (PrometheusMetric F) → Dict LabelSet → (Dict LabelSet → Created F) → Created F
  unfolding record_labels_for_metric
  emit none observed next = next observed
  emit (some m) observed next = put m (next (record_labels_for_metric m.name m.labels observed))

  per_statistic :
      CloudwatchData F → List String → Dict LabelSet → (Dict LabelSet → Created F) → Created F
  unfolding metric_of emit
  per_statistic c [] observed next = next observed
  per_statistic c (s ∷ ss) observed next =
      emit (metric_of c.datapoint c.add_cloudwatch_timestamp c s) observed
        (λ observed'. per_statistic c ss observed' next)

  create_from : List (CloudwatchData F) → Dict LabelSet → Created F
  unfolding per_statistic
  create_from [] observed = ([], observed)
  create_from (c ∷ cs) observed = per_statistic c c.statistics observed (create_from cs)

  unfoldable pub create_prometheus_metrics_from_cw_data : List (CloudwatchData F) → Created F
  unfolding create_from
  create_prometheus_metrics_from_cw_data cwd = create_from cwd []

unfoldable pub fill : LabelSet → Dict String → Dict String
fill [] labels = labels
fill ((label, u) ∷ rest) labels =
    fill rest (if is_some (lookup label labels) then labels else insert label "" labels)

abbrev pub ensured : {F : Type 0} → Dict LabelSet → PrometheusMetric F → PrometheusMetric F
ensured observed m = record m { labels = fill (seen m.name observed) m.labels }

unfoldable pub ensure_label_consistency_for_metrics :
    {F : Type 0} → List (PrometheusMetric F) → Dict LabelSet → List (PrometheusMetric F)
unfolding fill
ensure_label_consistency_for_metrics metrics observed = map (ensured observed) metrics

-- What `Scrape` keeps of the data that was collected.
unfoldable pub scraped_metrics :
    {F : Type 0} → F → (String → String) → List (CloudwatchData F) → List (PrometheusMetric F)
unfolding create_prometheus_metrics_from_cw_data ensure_label_consistency_for_metrics
scraped_metrics nan to_lower cwd =
    let created = create_prometheus_metrics_from_cw_data nan to_lower cwd in
    ensure_label_consistency_for_metrics created.0 created.1
