-- ===== src/Health/AliCloud.antt =====
-- pkg/cloud/alicloud/alicloud_health.go. The HTTP client, encoding/json and the text of a time enter
-- as `AliHealthClient`.
pub mod Counted
use iaa_s_exporter.Prelude.{String, Bool, true, false, Option, none, some, List, [], ◌∷◌}
use iaa_s_exporter.Health.{CounterVec, Counters, Collected, sent, fatal, panicked}
use iaa_s_exporter.Health.Json.{
  Value, nil, boolean, number, text, slice, object, Object, find, text_at, num_at, items_at, ◌>>=◌,
}
use iaa_s_exporter.Health.Reports.{visit_all}
use Prim.Native.String.{◌++◌ as concat}

pub record AliHealthClient : Type 0 where
  -- http.Get: the body of the response, or `none` for an error of the request or of reading it
  pub get : String → Option String
  -- json.Unmarshal into a map
  pub unmarshal : String → Option Object
  -- time.Unix(int64(seconds), 0).UTC().String() of a number
  pub time_text : String → String

-- v == true
abbrev is_true : Value → Bool
is_true (boolean b) = b
is_true nil = false
is_true (number n) = false
is_true (text s) = false
is_true (slice xs) = false
is_true (object fields) = false

module _ (vec : CounterVec) where
  abbrev pub C : Type 0
  C = Counters vec.carrier

  -- A panic of the loop, or the counters that are sent.
  abbrev collected : Option C → Collected vec.carrier
  collected none = panicked
  collected (some c) = sent c

  module _ (client : AliHealthClient) where
    -- The body of the loop over the events; `none` where it panics.
    unfoldable pub visit_result : String → Value → C → Option C
    unfolding text_at num_at
    visit_result region result c = do
      product_id ← text_at "productId" result
      title ← text_at "title" result
      current_state_severity ← text_at "currentStateSeverity" result
      start_time ← num_at "startTime" result
      end_time ← num_at "endTime" result
      some (record c {
        health_event =
            vec.inc
              (title
                ∷ client.time_text start_time
                ∷ client.time_text end_time
                ∷ current_state_severity
                ∷ [])
              c.health_event;
        affected_entity = vec.inc (title ∷ product_id ∷ region ∷ []) c.affected_entity;
      })

    -- By whether the response says that it is a success.
    unfoldable pub after_success : Bool → String → Object → C → Collected vec.carrier
    unfolding items_at visit_all visit_result
    after_success false region event_results c = sent c
    after_success true region event_results c = collected (
        items_at "data" (object event_results) >>= λ data'.
        visit_all vec (visit_result region) data' c)

    unfoldable pub after_unmarshal : String → Option Object → C → Collected vec.carrier
    unfolding find after_success
    after_unmarshal region none c = fatal
    after_unmarshal region (some event_results) c =
        after_success (is_true (find "success" event_results)) region event_results c

    after_get : String → Option String → C → Collected vec.carrier
    unfolding after_unmarshal
    after_get region none c = fatal
    after_get region (some event_resp_body) c =
        after_unmarshal region (client.unmarshal event_resp_body) c

    -- No counter is reset; of the counters, those of the events and of the entities are sent.
    unfoldable pub collect : String → C → Collected vec.carrier
    unfolding after_get
    collect region before =
        let event_url =
          concat
            "https://status.aliyun.com/api/status/listProductEventForRegionInLast24Hours?regionId="
            region in
        after_get region (client.get event_url) before
