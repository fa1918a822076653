-- ===== src/Health/Tests/Clouds.antt =====
-- The theorems about the collectors that read JSON, each at a response with one event.
use iaa_s_exporter.Prelude.{◌≡◌, refl, String, true, some, [], ◌∷◌, map, if◌then◌else◌, ◌==◌}
use iaa_s_exporter.Health.{Counters, sent}
use iaa_s_exporter.Health.Tests.Listed.{listed}
use iaa_s_exporter.Health.Json.{
  Value, boolean, number, text, slice, object, no_items, item, Object, no_keys, entry, find, member,
  text_at, num_at, items_at, texts_at,
}
use iaa_s_exporter.Health.Reports.{IsExactly, IsReported}
use iaa_s_exporter.Health.Azure.{AzureHealthClient, AzureHealthConf, get_token}
use iaa_s_exporter.Health.Azure.Counted.{AzureEvent, azure_report, azure_health_collect_lem}
use iaa_s_exporter.Health.Gcp.{GcpHealthClient}
use iaa_s_exporter.Health.Gcp.Counted.{GcpIncident, gcp_report, gcp_health_collect_lem}
use iaa_s_exporter.Health.AliCloud.{AliHealthClient}
use iaa_s_exporter.Health.AliCloud.Counted.{AliEvent, ali_report, ali_health_collect_lem}
use iaa_s_exporter.Health.Azure as Azure
use iaa_s_exporter.Health.Gcp as Gcp
use iaa_s_exporter.Health.AliCloud as AliCloud

-- What an earlier collection left.
abbrev stale : Counters listed.carrier
stale = record {
  health_event = [];
  affected_entity = [];
  health_opened_total = ("ServiceIssue" ∷ [], 4) ∷ [];
  health_closed_total = [];
}

abbrev token_reply : Object
token_reply = entry "access_token" (text "t") no_keys

abbrev azure_properties : Value
azure_properties = object (
    entry "status" (text "Active") (
      entry "lastUpdateTime" (text "2") (
        entry "eventType" (text "ServiceIssue") (
          entry "title" (text "Storage") (
            entry "level" (text "Warning") (
              entry "impactStartTime" (text "1") (
                entry "impact"
                  (slice (
                    item
                      (object (
                        entry "impactedService" (text "Storage") (
                          entry "impactedRegions"
                            (slice (
                              item (object (entry "impactedRegion" (text "West US") no_keys)) (
                                item (object (entry "impactedRegion" (text "East US") no_keys))
                                  no_items)))
                            no_keys)))
                      no_items))
                  no_keys)))))))

abbrev azure_value : Value
azure_value = object (entry "id" (text "e1") (entry "properties" azure_properties no_keys))

abbrev azure_reply : Object
azure_reply = entry "value" (slice (item azure_value no_items)) no_keys

abbrev pub azure_event : AzureEvent
azure_event = record {
  id = "e1";
  title = "Storage";
  event_type = "ServiceIssue";
  last_update_time = "2";
  impact_start_time = "1";
  status = "Active";
  level = "Warning";
  impacts = record { service = "Storage"; regions = "West US" ∷ "East US" ∷ [] } ∷ [];
}

-- A client that answers with the token, and then with the event.
abbrev azure_client : AzureHealthClient
azure_client = record {
  post = λ url body. some "token";
  send = λ url token. some "events";
  unmarshal = λ body. if body == "token" then some token_reply else some azure_reply;
}

abbrev azure_conf : AzureHealthConf
azure_conf = record {
  tenant_id = "tenant";
  client_id = "client";
  client_secret = "secret";
  subscription_id = "sub";
}

azure_health_collect_lem_example :
    (c : Counters listed.carrier) × (Azure.collect listed azure_client azure_conf stale ≡ sent c)
    × IsExactly listed (map azure_report (azure_event ∷ [])) c ("ServiceIssue" ∷ [])
unfolding get_token find member text_at items_at texts_at
azure_health_collect_lem_example =
    azure_health_collect_lem listed azure_client azure_conf stale "t" "events" azure_reply
      (azure_value ∷ []) (azure_event ∷ []) ("ServiceIssue" ∷ []) refl refl refl refl refl
      (
        (
          refl,
          azure_properties,
          refl,
          refl,
          refl,
          refl,
          refl,
          refl,
          refl,
          _,
          refl,
          ((refl, _, refl, refl), tt),
        ),
        tt,
      )

abbrev titled : String → Value
titled name = object (entry "title" (text name) no_keys)

abbrev gcp_value : Value
gcp_value = object (
    entry "id" (text "g1") (
      entry "external_desc" (text "Compute errors") (
        entry "begin" (text "1") (
          entry "modified" (text "2") (
            entry "status_impact" (text "SERVICE_OUTAGE") (
              entry "severity" (text "high") (
                entry "uri" (text "incidents/g1") (
                  entry "service_key" (text "k") (
                    entry "service_name" (text "Compute") (
                      entry "affected_products" (slice (item (titled "Compute") no_items)) (
                        entry "previously_affected_locations"
                          (slice (item (titled "us-east1") (item (titled "us-west1") no_items)))
                          (entry "most_recent_update"
                            (object (entry "status" (text "AVAILABLE") no_keys)) no_keys))))))))))))

abbrev pub gcp_incident : GcpIncident
gcp_incident = record {
  id = "g1";
  external_desc = "Compute errors";
  begin = "1";
  modified = "2";
  status = "AVAILABLE";
  status_impact = "SERVICE_OUTAGE";
  severity = "high";
  uri = "incidents/g1";
  service_key = "k";
  service_name = "Compute";
  affected_products = "Compute" ∷ [];
  previously_affected_locations = "us-east1" ∷ "us-west1" ∷ [];
}

abbrev gcp_client : GcpHealthClient
gcp_client = record { get = λ url. some "incidents"; unmarshal = λ body. some (gcp_value ∷ []) }

gcp_health_collect_lem_example :
    (c : Counters listed.carrier) × (Gcp.collect listed gcp_client stale ≡ sent c)
    × IsExactly listed (map gcp_report (gcp_incident ∷ [])) c ("SERVICE_OUTAGE" ∷ [])
unfolding find member text_at items_at texts_at
gcp_health_collect_lem_example =
    gcp_health_collect_lem listed gcp_client stale "incidents" (gcp_value ∷ []) (gcp_incident ∷ [])
      ("SERVICE_OUTAGE" ∷ []) refl refl
      (
        (
          (_, refl, refl),
          refl,
          refl,
          refl,
          refl,
          refl,
          refl,
          refl,
          refl,
          refl,
          (_, refl, refl),
          _,
          refl,
          refl,
        ),
        tt,
      )

abbrev ali_value : Value
ali_value = object (
    entry "productId" (text "ecs") (
      entry "title" (text "ECS") (
        entry "currentStateSeverity" (text "1")
          (entry "startTime" (number "100") (entry "endTime" (number "200") no_keys)))))

abbrev ali_reply : Object
ali_reply = entry "success" (boolean true) (entry "data" (slice (item ali_value no_items)) no_keys)

abbrev pub ali_event : AliEvent
ali_event = record {
  title = "ECS";
  product_id = "ecs";
  severity = "1";
  start_time = "100";
  end_time = "200";
}

abbrev pub ali_client : AliHealthClient
ali_client = record {
  get = λ url. some "events";
  unmarshal = λ body. some ali_reply;
  time_text = λ seconds. seconds;
}

ali_health_collect_lem_example :
    (c : Counters listed.carrier) × (AliCloud.collect listed ali_client "cn-beijing" stale ≡ sent c)
    × IsReported listed
        (map (ali_report ali_client "cn-beijing") (ali_event ∷ []))
        stale
        c
        ("ECS" ∷ "ecs" ∷ "cn-beijing" ∷ [])
unfolding find text_at num_at items_at member
ali_health_collect_lem_example =
    ali_health_collect_lem listed ali_client "cn-beijing" stale "events" ali_reply (ali_value ∷ [])
      (ali_event ∷ []) ("ECS" ∷ "ecs" ∷ "cn-beijing" ∷ []) refl refl refl refl
      ((refl, refl, refl, refl, refl), tt)
