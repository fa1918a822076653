-- ===== src/Quota/Aws.antt =====
-- pkg/cloud/aws/quota/aws_quota.go: the quotas that are looked up, and the limits of the services.
-- An SDK call that fails returns a nil output beside its error; the error is only logged and the
-- output is then dereferenced, unless the source tests for it. So an answer is an `Option`, and a
-- pager is the list of the answers to its `NextPage`.
pub mod Setup
pub mod Usage
pub mod NatGateways
pub mod Scrape
use iaa_s_exporter.Prelude.{
  String, Bool, true, false, ◌||◌, Option, none, some, List, [], ◌∷◌, if◌then◌else◌, ◌==◌,
}
use iaa_s_exporter.Prelude.Dict.{Dict, insert}

abbrev pub services : List String
services = "ec2" ∷ "vpc" ∷ "elasticloadbalancing" ∷ "ebs" ∷ []

abbrev pub quota_code_list : List String
quota_code_list =
    "L-43DA4232" ∷ "L-7295265B" ∷ "L-1216C47A" ∷ "L-D18FCD1D" ∷ "L-589F43AA" ∷ "L-F678F1CE"
    ∷ "L-0263D0A3" ∷ "L-E9E9831D" ∷ "L-FE5A380F" ∷ "L-A84ABF80" ∷ "L-69A177A2" ∷ []

-- slices.Contains
unfoldable pub contains : List String → String → Bool
contains [] s = false
contains (t ∷ ts) s = t == s || contains ts s

-- aws.ToString
abbrev pub to_string : Option String → String
to_string none = ""
to_string (some s) = s

pub record UsageMetric : Type 0 where
  pub metric_name : Option String
  pub metric_namespace : Option String
  pub metric_statistic_recommendation : Option String
  pub metric_dimensions : Dict String

pub record ServiceQuota (F : Type 0) : Type 0 where
  pub quota_code : Option String
  pub quota_name : Option String
  pub service_code : Option String
  pub service_name : Option String
  pub unit : Option String
  pub value : Option F
  pub usage_metric : Option UsageMetric

-- What a missing key of `serviceQuotaMap` reads as.
abbrev pub no_quota : {F : Type 0} → ServiceQuota F
no_quota = record {
  quota_code = none;
  quota_name = none;
  service_code = none;
  service_name = none;
  unit = none;
  value = none;
  usage_metric = none;
}

-- The package's variables.
pub record Globals (F : Type 0) : Type 0 where
  pub account_id : String
  pub account : String
  pub service_quota_map : Dict (ServiceQuota F)

-- The answers to ListAccountAliases, to GetCallerIdentity, and to the pages of a service's quotas.
pub record Directory (F : Type 0) : Type 0 where
  pub account_aliases : Option (List String)
  pub caller_account : Option (Option String)
  pub quota_pages : String → List (Option (List (ServiceQuota F)))

-- The first alias, if there is one.
abbrev pub first_or : String → List String → String
first_or old [] = old
first_or old (alias ∷ aliases) = alias

module _ {F : Type 0} where
  abbrev pub keep_quota : Dict (ServiceQuota F) → ServiceQuota F → Dict (ServiceQuota F)
  keep_quota m q =
      if contains quota_code_list (to_string q.quota_code)
      then insert (to_string q.quota_code) q m
      else m

  pub keep_page : Dict (ServiceQuota F) → List (ServiceQuota F) → Dict (ServiceQuota F)
  keep_page m [] = m
  keep_page m (q ∷ qs) = keep_page (keep_quota m q) qs

  -- `none` is the panic of a nil page.
  pub keep_pages :
      Dict (ServiceQuota F) → List (Option (List (ServiceQuota F))) → Option (Dict (ServiceQuota F))
  unfolding keep_page
  keep_pages m [] = some m
  keep_pages m (none ∷ pages) = none
  keep_pages m (some qs ∷ pages) = keep_pages (keep_page m qs) pages

  pub keep_services :
      Directory F → Option (Dict (ServiceQuota F)) → List String → Option (Dict (ServiceQuota F))
  unfolding keep_pages
  keep_services dir none names = none
  keep_services dir (some m) [] = some m
  keep_services dir (some m) (name ∷ names) =
      keep_services dir (keep_pages m (dir.quota_pages name)) names

  pub with_map : Globals F → Option (Dict (ServiceQuota F)) → Option (Globals F)
  with_map g none = none
  with_map g (some m) = some (record g { service_quota_map = m })

  pub identified : Directory F → Globals F → Option (Option String) → Option (Globals F)
  unfolding with_map keep_services
  identified dir g none = none
  identified dir g (some id) =
      with_map (record g { account_id = to_string id })
        (keep_services dir (some g.service_quota_map) services)

  pub named : Directory F → Globals F → Option (List String) → Option (Globals F)
  unfolding identified
  named dir g none = none
  named dir g (some aliases) =
      identified dir (record g { account = first_or g.account aliases }) dir.caller_account

  -- The limits are kept in the map over all scrapes; `none` is a panic.
  unfoldable pub initial_quota_list : Directory F → Globals F → Option (Globals F)
  unfolding named
  initial_quota_list dir g = named dir g dir.account_aliases
