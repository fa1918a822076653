-- ===== src/Quota/AliCloud/Reported.antt =====
-- What is in the cache after the scrape of pkg/cloud/alicloud/alicloud_quota.go, and what is shown.
use iaa_s_exporter.Prelude.{
  ◌≡◌, String, Bool, not, ◌&&◌, Option, some, List, [], ◌∷◌, map, flatten, All, ◌==◌,
}
use iaa_s_exporter.Prelude.Dict.{Dict}
use iaa_s_exporter.Quota.{Float64}
use iaa_s_exporter.Quota.Sets.{last_where}
use iaa_s_exporter.Quota.AliCloud.{F, Quota, Result}

module _ (float : Float64) where
  -- A quota with the product that it is listed for.
  abbrev Listed : Type 0
  Listed = String × Quota (F float)

  abbrev is_used : Listed → Bool
  is_used (prod, q) = not (float.is_zero q.total_usage)

  abbrev arn_of : Listed → String
  arn_of (prod, q) = q.quota_arn

  -- What the cache holds for a quota.
  abbrev pub entry_of : Listed → Result (F float)
  entry_of (prod, q) = record {
    quota_result = record {
      quota_name = q.quota_name;
      quota_code = q.quota_arn;
      limit_value = q.total_quota;
      current_value = q.total_usage;
      unit = q.quota_unit;
    };
    product_id = prod;
    quota_description = q.quota_description;
  }

  abbrev pub shown_labels : Listed → List String
  shown_labels (prod, q) =
      prod ∷ q.quota_name ∷ q.quota_arn ∷ q.quota_description ∷ q.quota_unit ∷ []

  abbrev pub products : List String
  products = "ecs" ∷ "nat" ∷ "eip" ∷ "vpc" ∷ "slb" ∷ "ros" ∷ []

  abbrev pub listed_of : (String → List (Quota (F float))) → List String → List Listed
  listed_of quotas prods = flatten (map (λ prod. map (λ q. (prod, q)) (quotas prod)) prods)

  -- The last quota in the list that is in use and has the ARN.
  abbrev pub last_used : String → List Listed → Option Listed
  last_used arn = last_where (λ l. is_used l && (arn_of l == arn))

  module _ (client : String → Option (List (Quota (F float)))) where
    abbrev pub Answers : (String → List (Quota (F float))) → List String → Type 0
    Answers quotas = All (λ prod. client prod ≡ some (quotas prod))
