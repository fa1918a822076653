-- ===== src/Quota/Aws/Scrape.antt =====
-- `Scrape` and `Collect` of pkg/cloud/aws/quota/aws_quota.go: a goroutine for each quota code.
pub mod Cached
pub mod Panics
use iaa_s_exporter.Prelude.{
  ◌≡◌, ◌≢◌, refl, sym, ap, ◌∙◌, String, Bool, true, false, not, ◌&&◌, ◌||◌, Option, none, some,
  List, [], ◌∷◌, arith, if◌then◌else◌, ◌==◌, eq_iff, eq_refl, Bool-cases, inl, inr, ◌⊎◌,
}
use iaa_s_exporter.Prelude.Dict.{Dict, lookup}
use iaa_s_exporter.Quota.{Float64, QuotaResult, Cache}
use iaa_s_exporter.Quota.Gauges.{GaugeSet, set_gauges, IsShown, set_gauges-IsShown}
use iaa_s_exporter.Quota.Sets.{Op, last_set, apply, lookup-apply}
use iaa_s_exporter.Prelude.Dict.{or_else}
use iaa_s_exporter.Quota.Interleave.{Spares, SetByOne, Interleaves-last_set}
use iaa_s_exporter.Prelude.Interleave.{Interleaves}
use iaa_s_exporter.Quota.Aws.{
  quota_code_list, contains, to_string, ServiceQuota, no_quota, Globals, Directory,
  initial_quota_list,
}
use iaa_s_exporter.Quota.Aws.Setup.{IsIndexed}
use iaa_s_exporter.Quota.Aws.Usage.{
  Clients, Current, value, unset, crashed, F, to_float64, current_value, on_demand_instances,
}

abbrev pub or_no_quota : {F : Type 0} → Option (ServiceQuota F) → ServiceQuota F
or_no_quota none = no_quota
or_no_quota (some q) = q

abbrev both : {A : Type 0} → Option A → Option (List A) → Option (List A)
both none rest = none
both (some a) none = none
both (some a) (some rest) = some (a ∷ rest)

module _ (float : Float64) where
  abbrev pub result_of : ServiceQuota (F float) → F float → QuotaResult (F float)
  result_of q current = record {
    quota_code = to_string q.quota_code;
    quota_name = to_string q.quota_name;
    limit_value = to_float64 float q.value;
    current_value = current;
    unit = to_string q.unit;
  }

  -- What a goroutine sets in the cache, under the quota's own code; `none` is a panic.
  set_current :
      ServiceQuota (F float) → Current (F float) → Option (List (Op (QuotaResult (F float))))
  set_current q (value v) = some ((to_string q.quota_code, result_of q v) ∷ [])
  set_current q unset = some []
  set_current q crashed = none

  unfoldable pub goroutine :
      Clients (F float) → Globals (F float) → String → Option (List (Op (QuotaResult (F float))))
  unfolding set_current current_value
  goroutine clients g code =
      let q = or_no_quota (lookup code g.service_quota_map) in
      set_current q (current_value float clients g.account code q)

  -- What all goroutines set; a panic in one of them ends the process.
  unfoldable pub goroutines :
      Clients (F float)
      → Globals (F float)
      → List String
      → Option (List (List (Op (QuotaResult (F float)))))
  unfolding goroutine
  goroutines clients g [] = some []
  goroutines clients g (code ∷ codes) = both (goroutine clients g code) (goroutines clients g codes)

  abbrev with_sets :
      Globals (F float)
      → Option (List (List (Op (QuotaResult (F float)))))
      → Option (Globals (F float) × List (List (Op (QuotaResult (F float)))))
  with_sets g none = none
  with_sets g (some sets) = some (g, sets)

  abbrev after_setup :
      Clients (F float)
      → Option (Globals (F float))
      → Option (Globals (F float) × List (List (Op (QuotaResult (F float)))))
  after_setup clients none = none
  after_setup clients (some g) = with_sets g (goroutines clients g quota_code_list)

  -- The new globals and the calls of the cache, goroutine by goroutine: `waitGroup.Wait` lets them
  -- happen in any interleaving.
  unfoldable pub scrape :
      Directory (F float)
      → Clients (F float)
      → Globals (F float)
      → Option (Globals (F float) × List (List (Op (QuotaResult (F float)))))
  unfolding goroutines initial_quota_list
  scrape dir clients g = after_setup clients (initial_quota_list dir g)

  module _ (region : String) (g : Globals (F float)) where
    unfoldable pub labels_of : QuotaResult (F float) → List String
    labels_of r =
        let q = or_no_quota (lookup r.quota_code g.service_quota_map) in
        region
        ∷ to_string q.service_name
        ∷ to_string q.service_code
        ∷ to_string q.quota_name
        ∷ r.quota_code
        ∷ g.account_id
        ∷ g.account
        ∷ r.unit
        ∷ []

    unfoldable pub collect : Dict (QuotaResult (F float)) → List (GaugeSet (F float))
    unfolding set_gauges
    collect items = set_gauges labels_of (λ r. r) items
