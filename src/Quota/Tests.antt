-- ===== src/Quota/Tests.antt =====
-- The theorems about the quota collectors at small accounts, with float64s that are integers and a
-- cache that is a dictionary.
mod Amazon
mod Labels
use iaa_s_exporter.Prelude.{
  ◌≡◌, refl, String, Bool, true, false, Option, none, some, List, [], ◌∷◌, ◌++◌, map, arith, All,
  ◌==◌, if◌then◌else◌, inl, inr, flatten, nat_eq, length,
}
use iaa_s_exporter.Prelude.Int.{ℤ, pos, leb_ℤ, ltb_ℤ, eq_ℤ}
use iaa_s_exporter.Prelude.Dict.{Dict, lookup, insert, lookup-insert}
use iaa_s_exporter.Quota.{Float64, QuotaResult, Cache}
use iaa_s_exporter.Quota.Gauges.{GaugeSet, IsShown, quota_current, quota_limit}
use iaa_s_exporter.Quota.Sets.{Op, last_set, apply, last_where}
use iaa_s_exporter.Quota.Interleave.{Spares, SetByOne, Interleaves-last_set}
use iaa_s_exporter.Prelude.Interleave.{
  Merge, none_left, left, right, Interleaves, flatten-Interleaves,
}
use iaa_s_exporter.Quota.Aws.{Globals}
use iaa_s_exporter.Quota.Aws.Scrape as AwsQuota
use iaa_s_exporter.Common.Names.{aws_quota_vecs, azure_quota_vecs, gcp_quota_vecs, ali_quota_vecs}
use iaa_s_exporter.Common.Names.Fit.{LabelCalls, AllUtf8, Returns, quota_labels-Returns}
use iaa_s_exporter.Quota.Azure
use iaa_s_exporter.Quota.Azure.Usages
use iaa_s_exporter.Quota.Azure.Report
use iaa_s_exporter.Quota.Gcp
use iaa_s_exporter.Quota.Gcp.Regions
use iaa_s_exporter.Quota.AliCloud
use iaa_s_exporter.Quota.AliCloud.Reported
use mathlib.Core.List.{Memᴰ}

abbrev pub float : Float64
float = record {
  carrier = ℤ;
  of_int = λ a. a;
  is_zero = λ a. eq_ℤ a (pos 0);
  ge = λ a b. leb_ℤ b a;
  gt = λ a b. ltb_ℤ b a;
  ge-of_int = λ a n h. refl;
  gt-of_int = λ a n h. refl;
}

abbrev pub dict : (X : Type 0) → Cache X
dict X = record {
  carrier = Dict X;
  set = insert;
  items = λ c. c;
  items-set = λ k j x c. lookup-insert k j x c;
}

abbrev first : List (Op String)
first = ("a", "1") ∷ ("a", "2") ∷ []

abbrev second : List (Op String)
second = ("b", "3") ∷ []

abbrev in_turns : List (Op String)
in_turns = ("a", "1") ∷ ("b", "3") ∷ ("a", "2") ∷ []

Interleaves-last_set_example : last_set "a" in_turns ≡ some "2"
unfolding last_set
Interleaves-last_set_example =
    Interleaves-last_set "a" (some "2") (first ∷ second ∷ []) in_turns
      (("b", "3") ∷ [], left (right (left none_left)), ([], left none_left, refl))
      (inl (refl, (refl, tt)))

abbrev cores : Azure.Usage
cores = record {
  name = none;
  current_value = some (pos 4);
  limit = some (pos 10);
  unit = some "Count";
}

abbrev disks : Azure.Usage
disks = record {
  name = none;
  current_value = some (pos 4);
  limit = some (pos 2147483647);
  unit = none;
}

abbrev named : String → Azure.UsageName
named s = record { value = some s; localized_value = some s }

abbrev usages : List Usages.Named
usages = (cores, named "cores") ∷ (disks, named "disks") ∷ []

abbrev all_of : List Usages.Named → Azure.G float
all_of us = record { ops = Usages.reports float us; ending = Azure.Ending.finished }

collect_reports_example :
    (Azure.collect_compute float (map (λ u. Usages.no_error (Usages.usage_of u)) usages)
      ≡ all_of usages)
    × (Azure.collect_network float (map (λ u. Usages.no_error (Usages.usage_of u)) usages)
        ≡ all_of usages)
    × (Azure.collect_storage float (some (some (map Usages.usage_of usages))) ≡ all_of usages)
collect_reports_example = Usages.collect_reports float usages

only_cores :
    Usages.reports float usages ≡ ("cores", Azure.result_of float cores (named "cores")) ∷ []
only_cores = refl

abbrev cores_result : QuotaResult ℤ
cores_result = Azure.result_of float cores (named "cores")

abbrev listed : List (Bool × Azure.Usage)
listed = map (λ u. Usages.no_error (Usages.usage_of u)) usages

abbrev azure_ops : List (List (Op (QuotaResult ℤ)))
azure_ops =
    (Azure.collect_network float []).ops
    ∷ (Azure.collect_storage float (some (some []))).ops
    ∷ (Azure.collect_compute float listed).ops
    ∷ []

abbrev azure_cache : Dict (QuotaResult ℤ)
azure_cache = apply (dict (QuotaResult ℤ)) (flatten azure_ops) []

azure_scrape-IsShown_example :
    (lookup "cores" azure_cache ≡ some cores_result)
    × IsShown
        (Azure.labels_of float "westeurope" "id" "name")
        (λ r. r)
        cores_result
        (Azure.collect float "westeurope" "id" "name" azure_cache)
unfolding last_set
azure_scrape-IsShown_example =
    Report.azure_scrape-IsShown float "westeurope" "id" "name" (dict (QuotaResult ℤ)) [] [] []
      usages (flatten azure_ops) (flatten-Interleaves azure_ops) "cores" cores_result
      (inr (refl, inr (refl, inl (refl, tt))))

abbrev ecs_quota : AliCloud.Quota ℤ
ecs_quota = record {
  quota_name = "instances";
  quota_arn = "acs:quotas:ecs";
  total_quota = pos 10;
  total_usage = pos 3;
  quota_unit = "Count";
  quota_description = "";
}

abbrev ali_quotas : String → List (AliCloud.Quota ℤ)
ali_quotas prod = if prod == "ecs" then ecs_quota ∷ [] else []

abbrev ali_client : String → Option (List (AliCloud.Quota ℤ))
ali_client prod = some (ali_quotas prod)

abbrev ali_cache : Dict (AliCloud.Result ℤ)
ali_cache = apply (dict (AliCloud.Result ℤ)) (AliCloud.scrape float ali_client).ops []

abbrev cpus : ℤ → Gcp.Quota ℤ
cpus used = record { metric = "CPUS"; limit = pos 24; usage = used }

abbrev project : Gcp.Project ℤ
project = record { id = 7; name = "backup"; quotas = cpus (pos 2) ∷ [] }

abbrev region_of : String → ℤ → Gcp.Region ℤ
region_of s used = record { name = s; quotas = cpus used ∷ [] }

abbrev gcp_scrape : Gcp.Scraped (Gcp.Result ℤ)
gcp_scrape =
    Gcp.scrape float "europe-west1" (some project)
      (some (region_of "us-east1" (pos 5) ∷ region_of "us-west1" (pos 9) ∷ []))

abbrev gcp_cache : Dict (Gcp.Result ℤ)
gcp_cache = apply (dict (Gcp.Result ℤ)) gcp_scrape.ops []

abbrev gcp_result : Gcp.Result ℤ
gcp_result = Gcp.result_of float "europe-west1" project true (cpus (pos 9))

scrape-last_region_example :
    (gcp_scrape.crashed ≡ false)
    × (lookup "CPUS" gcp_cache ≡ some gcp_result)
    × Memᴰ
        (record {
          vector = quota_current;
          labels = "true" ∷ "europe-west1" ∷ "CPUS" ∷ "CPUS" ∷ "7" ∷ "backup" ∷ [];
          value = pos 9;
        })
        (Gcp.collect float gcp_cache)
    × Memᴰ
        (record {
          vector = quota_limit;
          labels = "true" ∷ "europe-west1" ∷ "CPUS" ∷ "CPUS" ∷ "7" ∷ "backup" ∷ [];
          value = pos 24;
        })
        (Gcp.collect float gcp_cache)
unfolding last_where Gcp.decimal Gcp.underscores_to_spaces Gcp.result_of
scrape-last_region_example =
    Regions.scrape-last_region float "europe-west1" project (dict (Gcp.Result ℤ)) []
      (region_of "us-east1" (pos 5) ∷ []) (region_of "us-west1" (pos 9)) "CPUS" (cpus (pos 9)) refl
