-- ===== src/Quota/Gcp.antt =====
-- pkg/cloud/gcp/gcp_quota.go: a project's quotas, then those of its regions, and `Collect`. A nil
-- project or region list, which the client returns beside an error, makes the scrape panic: the
-- error is only logged.
pub mod Regions
use Prim.Native.Char.{Char, code}
use iaa_s_exporter.Prelude.{
  ℕ, zero, suc, ◌/◌, ◌%◌, ◌≡◌, String, Bool, true, false, Option, none, some, List, [], ◌∷◌, ◌++◌,
  map, if◌then◌else◌, flatten, nat_eq, ltb,
}
use Prim.Native.String.{◌++◌ as concat}
use iaa_s_exporter.Prelude.Dict.{Dict}
use iaa_s_exporter.Quota.{Float64, QuotaResult}
use iaa_s_exporter.Quota.Gauges.{GaugeSet, set_gauges}
use iaa_s_exporter.Quota.Sets.{Op}

-- strings.ReplaceAll(s, "_", " ")
unfoldable pub underscores_to_spaces : String → String
underscores_to_spaces String.[] = ""
underscores_to_spaces (String.◌∷◌ c s) =
    let rest = underscores_to_spaces s in
    if nat_eq (code c) 95 then concat " " rest else String.◌∷◌ c rest

abbrev digit : ℕ → String
digit d =
    if nat_eq d 0
    then "0"
    else if nat_eq d 1
    then "1"
    else if nat_eq d 2
    then "2"
    else if nat_eq d 3
    then "3"
    else if nat_eq d 4
    then "4"
    else if nat_eq d 5
    then "5"
    else if nat_eq d 6
    then "6"
    else if nat_eq d 7
    then "7"
    else if nat_eq d 8
    then "8"
    else "9"

decimal_from : ℕ → ℕ → String
decimal_from zero n = ""
decimal_from (suc fuel) n =
    let more = concat (decimal_from fuel (n / 10)) (digit (n % 10)) in
    if ltb n 10 then digit n else more

-- fmt.Sprintf("%d", n) of a uint64, which has at most 20 digits
unfoldable pub decimal : ℕ → String
unfolding decimal_from
decimal n = decimal_from 20 n

-- fmt.Sprintf("%v", b)
abbrev pub bool_text : Bool → String
bool_text true = "true"
bool_text false = "false"

pub record Quota (F : Type 0) : Type 0 where
  pub metric : String
  pub limit : F
  pub usage : F

pub record Project (F : Type 0) : Type 0 where
  pub id : ℕ
  pub name : String
  pub quotas : List (Quota F)

pub record Region (F : Type 0) : Type 0 where
  pub name : String
  pub quotas : List (Quota F)

pub record Result (F : Type 0) : Type 0 where
  pub quota_result : QuotaResult F
  pub region : String
  pub project : Project F
  pub regional : Bool

-- The calls of the cache, and whether the scrape panicked after them.
pub record Scraped (X : Type 0) : Type 0 where
  pub ops : List (Op X)
  pub crashed : Bool

module _ (float : Float64) where
  abbrev pub F : Type 0
  F = float.carrier

  -- The result that is set for a quota; `Unit` is left empty, and the region is the configured one.
  unfoldable pub result_of : String → Project F → Bool → Quota F → Result F
  result_of region project regional q = record {
    quota_result = record {
      quota_name = underscores_to_spaces q.metric;
      quota_code = q.metric;
      limit_value = q.limit;
      current_value = q.usage;
      unit = "";
    };
    region = region;
    project = project;
    regional = regional;
  }

  -- The loop over the quotas of the project or of a region.
  unfoldable pub set_used : String → Project F → Bool → List (Quota F) → List (Op (Result F))
  unfolding result_of
  set_used region project regional [] = []
  set_used region project regional (q ∷ qs) =
      if float.is_zero q.usage
      then set_used region project regional qs
      else (q.metric, result_of region project regional q) ∷ set_used region project regional qs

  unfoldable pub set_regions : String → Project F → List (Region F) → List (Op (Result F))
  unfolding set_used
  set_regions region project [] = []
  set_regions region project (r ∷ rs) =
      set_used region project true r.quotas ++ set_regions region project rs

  after_regions : String → Project F → Option (List (Region F)) → Scraped (Result F)
  unfolding set_used set_regions
  after_regions region project none = record {
    ops = set_used region project false project.quotas;
    crashed = true;
  }
  after_regions region project (some rs) = record {
    ops = set_used region project false project.quotas ++ set_regions region project rs;
    crashed = false;
  }

  -- By the answers to `GetProject` and `GetRegionList`.
  unfoldable pub scrape :
      String → Option (Project F) → Option (List (Region F)) → Scraped (Result F)
  unfolding after_regions
  scrape region none regions = record { ops = []; crashed = true }
  scrape region (some project) regions = after_regions region project regions

  unfoldable pub labels_of : Result F → List String
  labels_of r =
      bool_text r.regional
      ∷ r.region
      ∷ r.quota_result.quota_code
      ∷ r.quota_result.quota_name
      ∷ decimal r.project.id
      ∷ r.project.name
      ∷ []

  unfoldable pub collect : Dict (Result F) → List (GaugeSet F)
  unfolding set_gauges
  collect items = set_gauges labels_of (λ r. r.quota_result) items
