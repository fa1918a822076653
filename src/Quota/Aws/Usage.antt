-- ===== src/Quota/Aws/Usage.antt =====
-- The current values of pkg/cloud/aws/quota/aws_quota.go, one function for each case of the switch.
pub mod Paged
use text.Mathlib.Text.{find?}
use iaa_s_exporter.Prelude.{
  ℕ, zero, suc, ◌+◌, String, Bool, true, false, ◌||◌, Option, none, some, List, [], ◌∷◌,
  if◌then◌else◌, ◌==◌,
}
use iaa_s_exporter.Prelude.Int.{ℤ, pos, ◌+ℤ◌, quot_ℤ}
use iaa_s_exporter.Prelude.Word.{wrap32}
use iaa_s_exporter.Prelude.Dict.{is_some}
use iaa_s_exporter.Quota.{Float64}
use iaa_s_exporter.Quota.Aws.{UsageMetric, ServiceQuota}
use iaa_s_exporter.Quota.Aws.NatGateways.{Subnet, nat_gateway_usage}

-- The answers of the clients. Of a page only its length matters, where that is a number here; the
-- pager of load balancers may be nil.
pub record Clients (F : Type 0) : Type 0 where
  pub metric_statistics : UsageMetric → Option (List (Option F))
  pub volume_pages : List (Option (List (Option ℤ)))
  pub route_table_pages : List (Option ℕ)
  pub vpc_pages : List (Option ℕ)
  pub addresses : Option ℕ
  pub hosts : Option ℕ
  pub network_load_balancer_pages : Option (List (Option ℕ))
  pub classic_load_balancer_pages : Option (List (Option ℕ))
  pub subnets : Option (List Subnet)
  pub nat_gateways : Option (List (Option String))

-- What a case comes to: a value, no result (a `break` or `return`), or a panic.
pub data Current (F : Type 0) : Type 0 where
  value : F → Current F
  unset crashed : Current F

-- aws.ToInt32
abbrev pub to_int32 : Option ℤ → ℤ
to_int32 none = pos 0
to_int32 (some n) = n

unfoldable pub add_volumes : ℤ → List (Option ℤ) → ℤ
add_volumes used [] = used
add_volumes used (size ∷ sizes) = add_volumes (wrap32 (used +ℤ to_int32 size)) sizes

pub add_volume_pages : ℤ → List (Option (List (Option ℤ))) → Option ℤ
unfolding add_volumes
add_volume_pages used [] = some used
add_volume_pages used (none ∷ pages) = none
add_volume_pages used (some volumes ∷ pages) = add_volume_pages (add_volumes used volumes) pages

-- The sum of the pages' lengths, or `none` at the first page that fails.
unfoldable pub add_pages : ℕ → List (Option ℕ) → Option ℕ
add_pages total [] = some total
add_pages total (none ∷ pages) = none
add_pages total (some n ∷ pages) = add_pages (total + n) pages

-- strings.Contains
abbrev pub has_part : String → String → Bool
has_part s part = is_some (find? s part)

module _ (float : Float64) where
  abbrev pub F : Type 0
  F = float.carrier

  -- aws.ToFloat64
  abbrev pub to_float64 : Option F → F
  to_float64 none = float.of_int (pos 0)
  to_float64 (some x) = x

  -- A panic at an answer that is missing, and else a count.
  abbrev pub counted : Option ℕ → Current F
  counted none = crashed
  counted (some n) = value (float.of_int (pos n))

  -- A `return` at a page that is missing, and else a count.
  abbrev pub counted_or_unset : Option ℕ → Current F
  counted_or_unset none = unset
  counted_or_unset (some n) = value (float.of_int (pos n))

  first_maximum : Option (List (Option F)) → Current F
  first_maximum none = crashed
  first_maximum (some []) = value (float.of_int (pos 0))
  first_maximum (some (maximum ∷ datapoints)) = value (to_float64 maximum)

  -- `q.UsageMetric` is dereferenced without a test.
  unfoldable pub on_demand_instances : Clients F → Option UsageMetric → Current F
  unfolding first_maximum
  on_demand_instances clients none = crashed
  on_demand_instances clients (some m) = first_maximum (clients.metric_statistics m)

  -- `usedQuotaGib / 1024` is a division of int32; `math.Round` leaves its float64 as it is.
  volume_tib : Option ℤ → Current F
  volume_tib none = crashed
  volume_tib (some used_quota_gib) = value (float.of_int (quot_ℤ used_quota_gib 1024))

  unfoldable pub volume_storage : Clients F → Current F
  unfolding volume_tib add_volume_pages
  volume_storage clients = volume_tib (add_volume_pages (pos 0) clients.volume_pages)

  unfoldable pub route_tables : Clients F → String → Current F
  unfolding add_pages
  route_tables clients account =
      if has_part account "hdl" then counted (add_pages 0 clients.route_table_pages) else unset

  unfoldable pub vpcs : Clients F → Current F
  unfolding add_pages
  vpcs clients = counted (add_pages 0 clients.vpc_pages)

  -- The two cases of load balancers, whose pages are tested for errors.
  unfoldable pub load_balancers : Option (List (Option ℕ)) → Current F
  unfolding add_pages
  load_balancers none = unset
  load_balancers (some pages) = counted_or_unset (add_pages 0 pages)

  unfoldable pub nat_gateways : Option (List Subnet) → Option (List (Option String)) → Current F
  unfolding nat_gateway_usage
  nat_gateways subnets none = crashed
  nat_gateways (some subnets) (some ngws) = value (float.of_int (nat_gateway_usage ngws subnets))
  nat_gateways none (some []) = value (float.of_int (pos 0))
  nat_gateways none (some (ngw ∷ ngws)) = crashed

  -- The switch on the quota's code.
  unfoldable pub current_value : Clients F → String → String → ServiceQuota F → Current F
  unfolding on_demand_instances volume_storage route_tables vpcs load_balancers nat_gateways
  current_value clients account code q =
      if code == "L-43DA4232" || code == "L-7295265B" || code == "L-1216C47A"
      then on_demand_instances clients q.usage_metric
      else if code == "L-D18FCD1D"
      then volume_storage clients
      else if code == "L-589F43AA"
      then route_tables clients account
      else if code == "L-F678F1CE"
      then vpcs clients
      else if code == "L-0263D0A3"
      then counted clients.addresses
      else if code == "L-A84ABF80"
      then counted clients.hosts
      else if code == "L-69A177A2"
      then load_balancers clients.network_load_balancer_pages
      else if code == "L-E9E9831D"
      then load_balancers clients.classic_load_balancer_pages
      else if code == "L-FE5A380F"
      then nat_gateways clients.subnets clients.nat_gateways
      else unset
