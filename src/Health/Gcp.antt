-- ===== src/Health/Gcp.antt =====
-- pkg/cloud/gcp/gcp_health.go. The HTTP client and encoding/json enter as `GcpHealthClient`.
pub mod Counted
use iaa_s_exporter.Prelude.{String, Bool, true, false, Option, none, some, List, [], ◌∷◌, ◌==◌}
use iaa_s_exporter.Health.{CounterVec, Counters, reset_all, Collected, sent, fatal, panicked}
use iaa_s_exporter.Health.Json.{Value, member, text_at, items_at, texts_at, join, ◌>>=◌}
use iaa_s_exporter.Health.Reports.{visit_all}

pub record GcpHealthClient : Type 0 where
  -- http.Get: the body of the response, or `none` for an error of the request or of reading it
  pub get : String → Option String
  -- json.Unmarshal into a list of maps
  pub unmarshal : String → Option (List Value)

module _ (vec : CounterVec) where
  abbrev pub C : Type 0
  C = Counters vec.carrier

  -- By whether the status is "AVAILABLE".
  unfoldable pub count_status : Bool → String → C → C
  count_status true status_impact c = record c {
    health_closed_total = vec.inc (status_impact ∷ []) c.health_closed_total;
  }
  count_status false status_impact c = record c {
    health_opened_total = vec.inc (status_impact ∷ []) c.health_opened_total;
  }

  -- The body of the loop over the incidents; `none` where it panics.
  unfoldable pub visit_result : Value → C → Option C
  unfolding member text_at items_at texts_at join count_status
  visit_result result c = do
    most_recent_update ← member "most_recent_update" result
    status ← text_at "status" most_recent_update
    event_id ← text_at "id" result
    title ← text_at "external_desc" result
    start_time ← text_at "begin" result
    last_update_time ← text_at "modified" result
    status_impact ← text_at "status_impact" result
    level ← text_at "severity" result
    uri ← text_at "uri" result
    service_key ← text_at "service_key" result
    service_name ← text_at "service_name" result
    products ← items_at "affected_products" result
    affected_products ← texts_at "title" products
    locations ← items_at "previously_affected_locations" result
    affected_locations ← texts_at "title" locations
    some (
        count_status (status == "AVAILABLE") status_impact (record c {
          health_event =
              vec.inc
                (event_id ∷ title ∷ start_time ∷ last_update_time ∷ status ∷ status_impact ∷ level
                  ∷ uri ∷ service_key ∷ service_name ∷ [])
                c.health_event;
          affected_entity =
              vec.inc (event_id ∷ join affected_products ∷ join affected_locations ∷ [])
                c.affected_entity;
        }))

  -- A panic of the loop, or the counters that are sent.
  abbrev collected : Option C → Collected vec.carrier
  collected none = panicked
  collected (some c) = sent c

  module _ (client : GcpHealthClient) where
    after_unmarshal : Option (List Value) → C → Collected vec.carrier
    unfolding visit_all visit_result
    after_unmarshal none c = fatal
    after_unmarshal (some results) c = collected (visit_all vec visit_result results c)

    after_get : Option String → C → Collected vec.carrier
    unfolding after_unmarshal
    after_get none c = fatal
    after_get (some resp_body) c = after_unmarshal (client.unmarshal resp_body) c

    -- The counters are reset first.
    unfoldable pub collect : C → Collected vec.carrier
    unfolding after_get
    collect before =
        after_get (client.get "https://status.cloud.google.com/incidents.json")
          (reset_all vec before)
