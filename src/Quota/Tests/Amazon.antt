-- ===== src/Quota/Tests/Amazon.antt =====
-- The theorems about AWS's quotas at a small account.
use iaa_s_exporter.Prelude.{
  ◌≡◌, ◌≤◌, refl, String, Option, none, some, List, [], ◌∷◌, arith, ◌==◌, if◌then◌else◌, inl, inr,
  flatten, Bool-cases, eq_iff,
}
use iaa_s_exporter.Prelude.Int.{ℤ, pos, ◌+ℤ◌}
use iaa_s_exporter.Prelude.Word.{wrap32}
use iaa_s_exporter.Prelude.Dict.{Dict, lookup, lookup-nil, insert, is_some}
use iaa_s_exporter.Quota.{QuotaResult}
use iaa_s_exporter.Quota.Gauges.{IsShown}
use iaa_s_exporter.Quota.Sets.{Op, apply}
use iaa_s_exporter.Prelude.Interleave.{flatten-Interleaves}
use iaa_s_exporter.Quota.Aws.{
  ServiceQuota, no_quota, Globals, Directory, initial_quota_list, contains, to_string,
}
use iaa_s_exporter.Quota.Aws.Setup.{IsIndexed, initial_quota_list-IsIndexed}
use iaa_s_exporter.Quota.Aws.NatGateways.{Subnet, nat_gateway_usage}
use iaa_s_exporter.Quota.Aws.NatGateways.Shortfall.{
  nat_gateway_usage-short, nat_gateway_usage-none, zones_of, count,
}
use iaa_s_exporter.Quota.Aws.Usage.{
  Clients, value, volume_storage, vpcs, route_tables, load_balancers, nat_gateways, current_value,
  on_demand_instances,
}
use iaa_s_exporter.Quota.Aws.Usage.Paged.{volume_storage_floor}
use iaa_s_exporter.Quota.Aws.Scrape.{result_of, scrape, collect, labels_of, goroutines, goroutine}
use iaa_s_exporter.Quota.Aws.Scrape.Cached.{aws_scrape-IsShown}
use iaa_s_exporter.Quota.Aws.Scrape.Panics.{aws_scrape-panics}
use iaa_s_exporter.Quota.Tests.{float, dict}

abbrev globals : Dict (ServiceQuota ℤ) → Globals ℤ
globals m = record { account_id = "1"; account = "hdl-backup"; service_quota_map = m }

abbrev quota_of : String → ServiceQuota ℤ
quota_of c = record {
  quota_code = some c;
  quota_name = some c;
  service_code = some "vpc";
  service_name = some "VPC";
  unit = some "None";
  value = some (pos 5);
  usage_metric = some (record {
    metric_name = some "ResourceCount";
    metric_namespace = some "AWS/Usage";
    metric_statistic_recommendation = some "Maximum";
    metric_dimensions = [];
  });
}

-- All quotas come with the service "vpc".
abbrev directory : List (ServiceQuota ℤ) → Directory ℤ
directory qs = record {
  account_aliases = some ("hdl-backup" ∷ []);
  caller_account = some (some "1");
  quota_pages = λ s. if s == "vpc" then some qs ∷ [] else [];
}

abbrev instances_and_vpcs : List (ServiceQuota ℤ)
instances_and_vpcs =
    quota_of "L-43DA4232"
    ∷ quota_of "L-7295265B"
    ∷ quota_of "L-1216C47A"
    ∷ quota_of "L-F678F1CE"
    ∷ []

abbrev ready : Globals ℤ
ready = globals (
    ("L-43DA4232", quota_of "L-43DA4232")
    ∷ ("L-7295265B", quota_of "L-7295265B")
    ∷ ("L-1216C47A", quota_of "L-1216C47A")
    ∷ ("L-F678F1CE", quota_of "L-F678F1CE")
    ∷ [])

start_IsIndexed : IsIndexed (globals []).service_quota_map
start_IsIndexed = record { at = λ k q h. let e = lookup-nil {V = ServiceQuota ℤ} k in cc }

is_ready : initial_quota_list (directory instances_and_vpcs) (globals []) ≡ some ready
unfolding initial_quota_list contains insert
is_ready = refl

initial_quota_list-IsIndexed_example : IsIndexed ready.service_quota_map
initial_quota_list-IsIndexed_example =
    initial_quota_list-IsIndexed (directory instances_and_vpcs) (globals []) ready start_IsIndexed
      is_ready

abbrev subnets : List Subnet
subnets =
    record { subnet_id = some "s1"; availability_zone = some "a" }
    ∷ record { subnet_id = some "s2"; availability_zone = some "b" }
    ∷ []

-- Two gateways in the zone "a", one in "b".
abbrev gateways : List (Option String)
gateways = some "s1" ∷ some "s2" ∷ some "s1" ∷ []

nat_gateway_usage-short_example : nat_gateway_usage gateways subnets ≡ pos 1
nat_gateway_usage-short_example =
    nat_gateway_usage-short gateways subnets 1 "a" (omega arith) refl at_most_two
  where
    at_most_two : (z : String) → count z (zones_of gateways subnets) ≤ 2
    at_most_two z = elim (Bool-cases ("a" == z)) [
      | inl p ↦ let e = (eq_iff "a" z).0 p in rw (← e) (omega arith)
      | inr p ↦ rw p (ground arith)
    ]

nat_gateway_usage-none_example : nat_gateway_usage (some "s3" ∷ []) subnets ≡ pos 0
nat_gateway_usage-none_example = nat_gateway_usage-none (some "s3" ∷ []) subnets refl

abbrev clients : Clients ℤ
clients = record {
  metric_statistics = λ m. some (some (pos 3) ∷ []);
  volume_pages = some (some (pos 2000) ∷ []) ∷ some (some (pos 100) ∷ none ∷ []) ∷ [];
  route_table_pages = some 2 ∷ [];
  vpc_pages = some 2 ∷ some 1 ∷ [];
  addresses = some 0;
  hosts = some 0;
  network_load_balancer_pages = some [];
  classic_load_balancer_pages = some [];
  subnets = some subnets;
  nat_gateways = some gateways;
}

abbrev volumes : List (List (Option ℤ))
volumes = (some (pos 2000) ∷ []) ∷ (some (pos 100) ∷ none ∷ []) ∷ []

-- 2100 GiB
volume_storage_floor_example : volume_storage float clients ≡ value (pos 2)
unfolding ◌+ℤ◌
volume_storage_floor_example =
    volume_storage_floor float clients volumes 2100 refl refl (omega arith)

abbrev set_one : ServiceQuota ℤ → ℤ → List (Op (QuotaResult ℤ))
set_one q v = (to_string q.quota_code, result_of float q v) ∷ []

abbrev all_sets : List (List (Op (QuotaResult ℤ)))
all_sets =
    set_one (quota_of "L-43DA4232") (pos 3)
    ∷ set_one (quota_of "L-7295265B") (pos 3)
    ∷ set_one (quota_of "L-1216C47A") (pos 3)
    ∷ set_one no_quota (pos 2)
    ∷ set_one no_quota (pos 2)
    ∷ set_one (quota_of "L-F678F1CE") (pos 3)
    ∷ set_one no_quota (pos 0)
    ∷ set_one no_quota (pos 0)
    ∷ set_one no_quota (pos 1)
    ∷ set_one no_quota (pos 0)
    ∷ set_one no_quota (pos 0)
    ∷ []

scraped : scrape float (directory instances_and_vpcs) clients (globals []) ≡ some (ready, all_sets)
unfolding scrape goroutines goroutine initial_quota_list contains insert lookup current_value
    on_demand_instances volume_storage route_tables vpcs load_balancers nat_gateways
    nat_gateway_usage is_some ◌+ℤ◌ wrap32
scraped = refl

abbrev aws_cache : Dict (QuotaResult ℤ)
aws_cache = apply (dict (QuotaResult ℤ)) (flatten all_sets) []

aws_scrape-IsShown_example :
    (lookup "L-F678F1CE" aws_cache ≡ some (result_of float (quota_of "L-F678F1CE") (pos 3)))
    × IsShown
        (labels_of float "eu-west-1" ready)
        (λ r. r)
        (result_of float (quota_of "L-F678F1CE") (pos 3))
        (collect float "eu-west-1" ready aws_cache)
unfolding lookup current_value vpcs
aws_scrape-IsShown_example =
    aws_scrape-IsShown float (directory instances_and_vpcs) clients (dict (QuotaResult ℤ)) []
      "eu-west-1" (globals []) ready all_sets (flatten all_sets) start_IsIndexed scraped
      (flatten-Interleaves all_sets) "L-F678F1CE" (quota_of "L-F678F1CE") (pos 3) refl refl

abbrev only_vpcs : Globals ℤ
only_vpcs = globals (("L-F678F1CE", quota_of "L-F678F1CE") ∷ [])

aws_scrape-panics_example :
    scrape float (directory (quota_of "L-F678F1CE" ∷ [])) clients (globals []) ≡ none
unfolding initial_quota_list contains insert lookup
aws_scrape-panics_example =
    aws_scrape-panics float (directory (quota_of "L-F678F1CE" ∷ [])) clients (globals []) only_vpcs
      "L-43DA4232" refl (inl refl) refl
