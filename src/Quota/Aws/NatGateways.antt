-- ===== src/Quota/Aws/NatGateways.antt =====
-- The case L-FE5A380F of pkg/cloud/aws/quota/aws_quota.go: NAT gateways per availability zone.
pub mod Shortfall
use iaa_s_exporter.Prelude.{
  ℕ, zero, suc, ◌+◌, ◌-◌, ◌≤◌, ◌<◌, ◌≡◌, refl, String, Bool, true, false, Option, none, some, List,
  [], ◌∷◌, ◌++◌, arith, if◌then◌else◌, ◌==◌, eq_iff, eq_refl, Bool-cases, inl, inr, ◌⊎◌, length, ap,
  ◌∙◌, All,
}
use iaa_s_exporter.Prelude.Int.{ℤ, pos, ◌+ℤ◌, ltb_ℤ, ◌≤ℤ◌, eq_of_parts}
use iaa_s_exporter.Prelude.Word.{wrap32, wrap32-add_pos, two31}
use iaa_s_exporter.Prelude.Dict.{Dict, lookup, insert, lookup-insert, lookup-nil}
use iaa_s_exporter.Quota.Aws.{to_string}

pub record Subnet : Type 0 where
  pub subnet_id : Option String
  pub availability_zone : Option String

-- val, ok := ngwCountPerAzs[zone]
abbrev pub next_count : Option ℤ → ℤ
next_count (some val) = wrap32 (val +ℤ pos 1)
next_count none = pos 0

unfoldable pub count_zone : Dict ℤ → String → Dict ℤ
count_zone counts zone = insert zone (next_count (lookup zone counts)) counts

-- The loop over the subnets, for one gateway.
pub count_subnets : Dict ℤ → Option String → List Subnet → Dict ℤ
unfolding count_zone
count_subnets counts ngw [] = counts
count_subnets counts ngw (s ∷ subnets) =
    count_subnets
      (if to_string s.subnet_id == to_string ngw
        then count_zone counts (to_string s.availability_zone)
        else counts)
      ngw subnets

-- The loop over the gateways, each given by its subnet.
pub count_gateways : Dict ℤ → List (Option String) → List Subnet → Dict ℤ
unfolding count_subnets
count_gateways counts [] subnets = counts
count_gateways counts (ngw ∷ ngws) subnets =
    count_gateways (count_subnets counts ngw subnets) ngws subnets

pub largest : ℤ → Dict ℤ → ℤ
largest usage [] = usage
largest usage ((zone, n) ∷ counts) = largest (if ltb_ℤ usage n then n else usage) counts

unfoldable pub nat_gateway_usage : List (Option String) → List Subnet → ℤ
unfolding count_gateways largest
nat_gateway_usage ngws subnets = largest (pos 0) (count_gateways [] ngws subnets)
