-- ===== src/Health/Azure.antt =====
-- pkg/cloud/azure/azure_health.go. The HTTP client and encoding/json enter as `AzureHealthClient`.
pub mod Counted
use iaa_s_exporter.Prelude.{
  String, Bool, true, false, Option, none, some, List, [], ◌∷◌, if◌then◌else◌, ◌==◌,
}
use iaa_s_exporter.Prelude.Result.{Result, ok, err, panic, fatal as exits}
use iaa_s_exporter.Health.{CounterVec, Counters, reset_all, Collected, sent, fatal, panicked}
use iaa_s_exporter.Health.Json.{
  Value, nil, boolean, number, text, slice, object, Object, find, member, text_at, items_at,
  texts_at, join, ◌>>=◌,
}
use iaa_s_exporter.Health.Reports.{visit_all}
use Prim.Native.String.{◌++◌ as concat}

pub record AzureHealthClient : Type 0 where
  -- http.Post of a body to an address: the body of the response, or `none` for an error of the
  -- request or of reading the response
  pub post : String → String → Option String
  -- the same for the request to an address that bears a token
  pub send : String → String → Option String
  -- json.Unmarshal into a map
  pub unmarshal : String → Option Object

pub data TokenError : Type 0 where
  post_error json_error no_access_token : TokenError

pub record AzureHealthConf : Type 0 where
  pub tenant_id : String
  pub client_id : String
  pub client_secret : String
  pub subscription_id : String

-- A missing `access_token` is nil too; the assertion panics unless it is a string.
abbrev pub access_token : Value → Result TokenError String
access_token nil = err no_access_token
access_token (text token) = ok token
access_token (boolean b) = panic
access_token (number n) = panic
access_token (slice xs) = panic
access_token (object fields) = panic

module _ (client : AzureHealthClient) where
  parse_token : Option Object → Result TokenError String
  unfolding find
  parse_token none = err json_error
  parse_token (some decoded) = access_token (find "access_token" decoded)

  after_post : Option String → Result TokenError String
  unfolding parse_token
  after_post none = err post_error
  after_post (some respbody) = parse_token (client.unmarshal respbody)

  unfoldable pub get_token : String → String → String → Result TokenError String
  unfolding after_post
  get_token tenant_id client_id client_secret =
      let url =
        concat "https://login.microsoftonline.com/" (concat tenant_id "/oauth2/v2.0/token") in
      let scope : String = "https://management.azure.com/.default" in
      let post_body = concat "client_id=" (
        concat client_id (
          concat "&client_secret=" (
            concat client_secret
              (concat "&scope=" (concat scope "&grant_type=client_credentials"))))) in
      after_post (client.post url post_body)

module _ (vec : CounterVec) where
  abbrev pub C : Type 0
  C = Counters vec.carrier

  -- By whether the status is "Resolved".
  unfoldable pub count_status : Bool → String → C → C
  count_status true event_type c = record c {
    health_closed_total = vec.inc (event_type ∷ []) c.health_closed_total;
  }
  count_status false event_type c = record c {
    health_opened_total = vec.inc (event_type ∷ []) c.health_opened_total;
  }

  -- The body of the loop over the impacts.
  unfoldable pub visit_impact : String → Value → vec.carrier → Option vec.carrier
  unfolding text_at items_at texts_at join
  visit_impact event_id imp c = do
    service ← text_at "impactedService" imp
    impacted_regions ← items_at "impactedRegions" imp
    regions ← texts_at "impactedRegion" impacted_regions
    some (vec.inc (event_id ∷ service ∷ join regions ∷ []) c)

  unfoldable pub visit_impacts : String → List Value → vec.carrier → Option vec.carrier
  unfolding visit_impact
  visit_impacts event_id [] c = some c
  visit_impacts event_id (imp ∷ impact) c =
      visit_impact event_id imp c >>= visit_impacts event_id impact

  -- The body of the loop over the events; `none` where it panics.
  unfoldable pub visit_event : Value → C → Option C
  unfolding member text_at items_at count_status visit_impacts
  visit_event val c = do
    event_id ← text_at "id" val
    property ← member "properties" val
    status ← text_at "status" property
    last_update_time ← text_at "lastUpdateTime" property
    event_type ← text_at "eventType" property
    title ← text_at "title" property
    level ← text_at "level" property
    impact_start_time ← text_at "impactStartTime" property
    impact ← items_at "impact" property
    affected ← visit_impacts event_id impact c.affected_entity
    some (
        count_status (status == "Resolved") event_type (record c {
          health_event =
              vec.inc
                (event_id ∷ title ∷ event_type ∷ last_update_time ∷ impact_start_time ∷ status
                  ∷ level ∷ [])
                c.health_event;
          affected_entity = affected;
        }))

  -- A panic of the loop, or the counters that are sent.
  abbrev pub collected : Option C → Collected vec.carrier
  collected none = panicked
  collected (some c) = sent c

  module _ (client : AzureHealthClient) where
    unfoldable pub after_unmarshal : Option Object → C → Collected vec.carrier
    unfolding items_at visit_all visit_event
    after_unmarshal none c = fatal
    after_unmarshal (some result) c =
        collected (items_at "value" (object result) >>= λ value. visit_all vec visit_event value c)

    after_send : Option String → C → Collected vec.carrier
    unfolding after_unmarshal
    after_send none c = fatal
    after_send (some respbody) c = after_unmarshal (client.unmarshal respbody) c

    after_token : String → Result TokenError String → C → Collected vec.carrier
    unfolding after_send
    after_token url (ok token) c =
        if token == "" then fatal else after_send (client.send url token) c
    after_token url (err e) c = fatal
    after_token url panic c = panicked
    after_token url exits c = fatal

    -- The counters are reset first.
    unfoldable pub collect : AzureHealthConf → C → Collected vec.carrier
    unfolding after_token get_token
    collect conf before =
        let url = concat "https://management.azure.com/subscriptions/" (
          concat conf.subscription_id
            "/providers/Microsoft.ResourceHealth/events?api-version=2018-07-01") in
        after_token url (get_token client conf.tenant_id conf.client_id conf.client_secret)
          (reset_all vec before)
