-- ===== src/Health/Tests.antt =====
-- The theorems about the health collectors at an open and a closed event.
mod Listed
mod Clouds
use iaa_s_exporter.Prelude.{◌≡◌, refl, String, none, some, List, [], ◌∷◌, map, flatten, All}
use iaa_s_exporter.Health.{Labels, Counters, sent, eq_labels}
use iaa_s_exporter.Health.Tests.Listed.{listed}
use iaa_s_exporter.Health.Occurrences.{occurrences}
use iaa_s_exporter.Health.Aws.{
  Event, Entity, HealthClient, event_labels, total_labels, region_map, group_arns, entity_labels,
  collect,
}
use iaa_s_exporter.Health.Azure.Counted.{azure_report}
use iaa_s_exporter.Health.Gcp.Counted.{gcp_report}
use iaa_s_exporter.Health.AliCloud.Counted.{ali_report}
use iaa_s_exporter.Health.Tests.Clouds.{azure_event, gcp_incident, ali_event, ali_client}
use iaa_s_exporter.Common.Names.{
  aws_health_vecs, azure_health_vecs, gcp_health_vecs, ali_health_vecs,
}
use iaa_s_exporter.Common.Names.Fit.{Fits, ReportFits, health_labels-Fits}
use iaa_s_exporter.Health.Aws.Counted.{
  IsGroup, group_arns_lem, with_status, entities_of, aws_health_collect_lem,
}

abbrev event_of : String → String → Event
event_of arn status = record {
  arn = some arn;
  service = some "EC2";
  region = some "eu-west-1";
  start_time = "";
  status_code = status;
  last_updated_time = "";
  event_type_code = none;
  event_type_category = "issue";
  event_scope_code = "PUBLIC";
  availability_zone = none;
}

abbrev arns : List String
arns = "1" ∷ "2" ∷ "3" ∷ "4" ∷ "5" ∷ "6" ∷ "7" ∷ "8" ∷ "9" ∷ "10" ∷ "11" ∷ []

abbrev host : Entity
host = record {
  event_arn = some "a";
  aws_account_id = some "1";
  entity_arn = none;
  status_code = "IMPAIRED";
  entity_value = some "i-1";
  entity_url = none;
  last_updated_time = "";
}

abbrev events : List Event
events = event_of "a" "open" ∷ event_of "b" "closed" ∷ []

abbrev client : HealthClient
client = record {
  event_pages = some (event_of "a" "open" ∷ []) ∷ some (event_of "b" "closed" ∷ []) ∷ [];
  entity_pages = λ batch. some (host ∷ []) ∷ [];
}

-- The labels of both totals.
abbrev issue : Labels
issue = "issue" ∷ "" ∷ "EC2" ∷ []

-- What an earlier collection left.
abbrev stale : Counters listed.carrier
stale = record {
  health_event = [];
  affected_entity = [];
  health_opened_total = (issue, 7) ∷ [];
  health_closed_total = [];
}

aws_health_collect_lem_example :
    (c : Counters listed.carrier) × (collect listed client stale ≡ sent c)
    × (listed.count_of issue c.health_event ≡ occurrences issue (map event_labels events))
    × (listed.count_of issue c.health_opened_total
        ≡ occurrences issue (map total_labels (with_status "open" events)))
    × (listed.count_of issue c.health_closed_total
        ≡ occurrences issue (map total_labels (with_status "closed" events)))
    × (listed.count_of issue c.affected_entity
        ≡ occurrences issue (
            map
              (entity_labels (region_map events []))
              (entities_of listed client (((host ∷ []) ∷ []) ∷ []))))
    × (flatten (group_arns [] ("a" ∷ "b" ∷ [])) ≡ "a" ∷ "b" ∷ [])
    × All IsGroup (group_arns [] ("a" ∷ "b" ∷ []))
unfolding group_arns
aws_health_collect_lem_example =
    aws_health_collect_lem listed client stale
      ((event_of "a" "open" ∷ []) ∷ (event_of "b" "closed" ∷ []) ∷ []) (event_of "a" "open")
      (event_of "b" "closed" ∷ []) (((host ∷ []) ∷ []) ∷ []) issue refl refl (refl, tt)

one_open : occurrences issue (map total_labels (with_status "open" events)) ≡ 1
unfolding eq_labels
one_open = refl
