-- ===== src/Quota/AliCloud.antt =====
-- pkg/cloud/alicloud/alicloud_quota.go: one request for each product, and `Collect`. A request
-- whose response is nil makes the scrape panic; an error beside a response is only logged.
pub mod Reported
use iaa_s_exporter.Prelude.{
  ◌≡◌, refl, String, Bool, true, false, Option, none, some, List, [], ◌∷◌, ◌++◌, map, if◌then◌else◌,
  ap, ◌∙◌, flatten, All,
}
use iaa_s_exporter.Prelude.Dict.{Dict, lookup}
use iaa_s_exporter.Quota.{Float64, QuotaResult, Cache}
use iaa_s_exporter.Quota.Gauges.{GaugeSet, set_gauges, IsShown, set_gauges-IsShown}
use iaa_s_exporter.Quota.Sets.{Op, apply, lookup-apply}
use iaa_s_exporter.Prelude.Dict.{or_else}
use iaa_s_exporter.Quota.Interleave.{SetByOne, Interleaves-last_set}
use iaa_s_exporter.Prelude.Interleave.{flatten-Interleaves}

abbrev pub prod_code_list : List String
prod_code_list = "ecs" ∷ "nat" ∷ "eip" ∷ "vpc" ∷ "slb" ∷ "ros" ∷ []

-- The calls of the cache, and whether the scrape panicked after them.
pub record Scraped (X : Type 0) : Type 0 where
  pub ops : List (Op X)
  pub crashed : Bool

pub record Quota (F : Type 0) : Type 0 where
  pub quota_name : String
  pub quota_arn : String
  pub total_quota : F
  pub total_usage : F
  pub quota_unit : String
  pub quota_description : String

pub record Result (F : Type 0) : Type 0 where
  pub quota_result : QuotaResult F
  pub product_id : String
  pub quota_description : String

module _ (float : Float64) where
  abbrev pub F : Type 0
  F = float.carrier

  abbrev pub result_of : String → Quota F → Result F
  result_of prod q = record {
    quota_result = record {
      quota_name = q.quota_name;
      quota_code = q.quota_arn;
      limit_value = q.total_quota;
      current_value = q.total_usage;
      unit = q.quota_unit;
    };
    product_id = prod;
    quota_description = q.quota_description;
  }

  -- The inner loop: what is in use is set under its ARN.
  unfoldable pub set_used : String → List (Quota F) → List (Op (Result F))
  set_used prod [] = []
  set_used prod (q ∷ qs) =
      if float.is_zero q.total_usage
      then set_used prod qs
      else (q.quota_arn, result_of prod q) ∷ set_used prod qs

  abbrev pub then_ops : List (Op (Result F)) → Scraped (Result F) → Scraped (Result F)
  then_ops ops s = record s { ops = ops ++ s.ops }

  unfoldable pub after_response :
      String → Option (List (Quota F)) → Scraped (Result F) → Scraped (Result F)
  unfolding set_used
  after_response prod none rest = record { ops = []; crashed = true }
  after_response prod (some quotas) rest = then_ops (set_used prod quotas) rest

  unfoldable pub scrape_products :
      (String → Option (List (Quota F))) → List String → Scraped (Result F)
  unfolding after_response
  scrape_products client [] = record { ops = []; crashed = false }
  scrape_products client (prod ∷ prods) =
      after_response prod (client prod) (scrape_products client prods)

  unfoldable pub scrape : (String → Option (List (Quota F))) → Scraped (Result F)
  unfolding scrape_products
  scrape client = scrape_products client prod_code_list

  abbrev pub labels_of : Result F → List String
  labels_of r =
      r.product_id ∷ r.quota_result.quota_name ∷ r.quota_result.quota_code ∷ r.quota_description
      ∷ r.quota_result.unit ∷ []

  unfoldable pub collect : Dict (Result F) → List (GaugeSet F)
  unfolding set_gauges
  collect items = set_gauges labels_of (λ r. r.quota_result) items
