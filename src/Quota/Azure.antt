-- ===== src/Quota/Azure.antt =====
-- pkg/cloud/azure/azure_quota.go: the three collectors of usages, the scrape that runs them at the
-- same time, and `Collect`. An SDK iterator enters as the list of the usages at which it is not
-- done, each with whether the step that led there failed.
pub mod Usages
pub mod Report
use iaa_s_exporter.Prelude.{
  ℕ, String, Bool, true, false, Option, none, some, List, [], ◌∷◌, ◌++◌, if◌then◌else◌,
}
use iaa_s_exporter.Prelude.Int.{ℤ, pos}
use iaa_s_exporter.Prelude.Dict.{Dict}
use iaa_s_exporter.Quota.{Float64, QuotaResult}
use iaa_s_exporter.Quota.Gauges.{GaugeSet, set_gauges}
use iaa_s_exporter.Quota.Sets.{Op}
use iaa_s_exporter.Prelude.Interleave.{Interleaves}

pub record UsageName : Type 0 where
  pub value : Option String
  pub localized_value : Option String

-- A usage of the compute, network or storage API; the storage API's unit is a plain string, which
-- is never nil.
pub record Usage : Type 0 where
  pub name : Option UsageName
  pub current_value : Option ℤ
  pub limit : Option ℤ
  pub unit : Option String

-- to.Int32, to.Int64 and to.String: the zero value for nil.
abbrev pub to_int : Option ℤ → ℤ
to_int none = pos 0
to_int (some n) = n

abbrev pub to_string : Option String → String
to_string none = ""
to_string (some s) = s

abbrev pub max_int32 : ℕ
max_int32 = 2147483647

-- How a goroutine ends: at the end of its function, at the `return` after an error was logged, or
-- by a panic, which ends the process.
pub data Ending : Type 0 where
  finished stopped crashed : Ending

pub record Goroutine (X : Type 0) : Type 0 where
  pub ops : List (Op X)
  pub ending : Ending

module _ (float : Float64) where
  abbrev pub F : Type 0
  F = float.carrier

  abbrev pub G : Type 0
  G = Goroutine (QuotaResult F)

  abbrev ended : Ending → G
  ended e = record { ops = []; ending = e }

  abbrev then_set : Op (QuotaResult F) → G → G
  then_set op g = record g { ops = op ∷ g.ops }

  abbrev pub result_of : Usage → UsageName → QuotaResult F
  result_of i n = record {
    quota_code = to_string n.value;
    quota_name = to_string n.localized_value;
    current_value = float.of_int (to_int i.current_value);
    limit_value = float.of_int (to_int i.limit);
    unit = to_string i.unit;
  }

  set_named : Usage → Option UsageName → G → G
  set_named i none rest = ended crashed
  set_named i (some n) rest =
      if float.gt (float.of_int (to_int i.current_value)) (float.of_int (pos 0))
      then then_set (to_string n.value, result_of i n) rest
      else rest

  -- The body of the three loops; an unlimited resource is passed over.
  visit : Usage → G → G
  unfolding set_named
  visit i rest =
      if float.ge (float.of_int (to_int i.limit)) (float.of_int (pos max_int32))
      then rest
      else set_named i i.name rest

  traverse : List (Bool × Usage) → G
  unfolding visit
  traverse [] = ended finished
  traverse ((true, i) ∷ rest) = ended stopped
  traverse ((false, i) ∷ rest) = visit i (traverse rest)

  unfoldable pub collect_compute : List (Bool × Usage) → G
  unfolding traverse
  collect_compute usages = traverse usages

  unfoldable pub collect_network : List (Bool × Usage) → G
  unfolding traverse
  collect_network usages = traverse usages

  visit_all : List Usage → G
  unfolding visit
  visit_all [] = ended finished
  visit_all (i ∷ rest) = visit i (visit_all rest)

  -- The storage API answers with an error, or with a pointer to a list.
  unfoldable pub collect_storage : Option (Option (List Usage)) → G
  unfolding visit_all
  collect_storage none = ended stopped
  collect_storage (some none) = ended crashed
  collect_storage (some (some usages)) = visit_all usages

  -- What `scrape` waits for: the calls of the cache, in an order of the three goroutines.
  abbrev pub Scrapes :
      List (Bool × Usage)
      → Option (Option (List Usage))
      → List (Bool × Usage)
      → List (Op (QuotaResult F))
      → Type 0
  Scrapes network storage compute zs =
      Interleaves
        ((collect_network network).ops
          ∷ (collect_storage storage).ops
          ∷ (collect_compute compute).ops
          ∷ [])
        zs

  module _ (region subscription_id subscription_name : String) where
    abbrev pub labels_of : QuotaResult F → List String
    labels_of r =
        region ∷ r.quota_code ∷ r.quota_name ∷ subscription_id ∷ subscription_name ∷ r.unit ∷ []

    unfoldable pub collect : Dict (QuotaResult F) → List (GaugeSet F)
    unfolding set_gauges
    collect items = set_gauges labels_of (λ r. r) items

  -- `GetSubscriptionInfo`, by what the subscriptions client answers: an error, which is logged, or
  -- the display name, whose nil pointer panics.
  unfoldable pub get_subscription_info : String → Option (Option String) → Option (String × String)
  get_subscription_info id none = some ("", "")
  get_subscription_info id (some none) = none
  get_subscription_info id (some (some display_name)) = some (id, display_name)

  collect_as : String → Option (String × String) → Dict (QuotaResult F) → Option (List (GaugeSet F))
  unfolding collect
  collect_as region none items = none
  collect_as region (some (id, name)) items = some (collect region id name items)

  -- `Collect`, which asks for the subscription first.
  unfoldable pub collect_subscribed :
      String → String → Option (Option String) → Dict (QuotaResult F) → Option (List (GaugeSet F))
  unfolding collect_as get_subscription_info
  collect_subscribed region id answer items =
      collect_as region (get_subscription_info id answer) items
