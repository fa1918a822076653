-- ===== src/Health/Azure/Counted.antt =====
-- What the counters of pkg/cloud/azure/azure_health.go come to, by the events of the response.
use iaa_s_exporter.Prelude.{
  ◌≡◌, refl, String, false, some, List, [], ◌∷◌, map, Bool-cases, inl, inr, if◌then◌else◌, ◌==◌,
}
use iaa_s_exporter.Prelude.Result.{ok}
use iaa_s_exporter.Health.{Labels, CounterVec, reset_all, sent}
use iaa_s_exporter.Health.Json.{Value, object, Object, member, text_at, items_at, texts_at, join}
use iaa_s_exporter.Health.Reports.{
  Report, Describe, inc_all, reported, reported_all, IsExactly, reported_all-IsExactly,
  visit_all-Describe,
}
use iaa_s_exporter.Health.Azure.{
  C, AzureHealthClient, AzureHealthConf, get_token, visit_impact, visit_impacts, visit_event,
  count_status, after_unmarshal, after_send, after_token, collect,
}
use Prim.Native.String.{◌++◌ as concat}

pub record Impact : Type 0 where
  pub service : String
  pub regions : List String

pub record AzureEvent : Type 0 where
  pub id : String
  pub title : String
  pub event_type : String
  pub last_update_time : String
  pub impact_start_time : String
  pub status : String
  pub level : String
  pub impacts : List Impact

abbrev pub IsImpact : Value → Impact → Type 0
IsImpact v i =
    (text_at "impactedService" v ≡ some i.service)
    × (vs : List Value) × (items_at "impactedRegions" v ≡ some vs)
    × (texts_at "impactedRegion" vs ≡ some i.regions)

-- The value has what the collector reads of an event.
abbrev pub IsAzureEvent : Value → AzureEvent → Type 0
IsAzureEvent v e =
    (text_at "id" v ≡ some e.id)
    × (p : Value) × (member "properties" v ≡ some p)
    × (text_at "status" p ≡ some e.status)
    × (text_at "lastUpdateTime" p ≡ some e.last_update_time)
    × (text_at "eventType" p ≡ some e.event_type)
    × (text_at "title" p ≡ some e.title)
    × (text_at "level" p ≡ some e.level)
    × (text_at "impactStartTime" p ≡ some e.impact_start_time)
    × (vs : List Value) × (items_at "impact" p ≡ some vs)
    × Describe IsImpact vs e.impacts

abbrev pub affected_of : String → Impact → Labels
affected_of id i = id ∷ i.service ∷ join i.regions ∷ []

-- An event is counted as closed where it is resolved, and else as opened.
abbrev pub azure_report : AzureEvent → Report
azure_report e = record {
  events =
      (e.id ∷ e.title ∷ e.event_type ∷ e.last_update_time ∷ e.impact_start_time ∷ e.status ∷ e.level
        ∷ [])
      ∷ [];
  affected = map (affected_of e.id) e.impacts;
  opened = if e.status == "Resolved" then [] else (e.event_type ∷ []) ∷ [];
  closed = if e.status == "Resolved" then (e.event_type ∷ []) ∷ [] else [];
}

abbrev pub events_url : AzureHealthConf → String
events_url conf = concat "https://management.azure.com/subscriptions/" (
    concat conf.subscription_id "/providers/Microsoft.ResourceHealth/events?api-version=2018-07-01")

module _ (vec : CounterVec) where
  visit_impacts-Describe :
      (id : String) (vs : List Value) (is : List Impact) (c : vec.carrier)
      → Describe IsImpact vs is
      → visit_impacts vec id vs c ≡ some (inc_all vec (map (affected_of id) is) c)
  unfolding visit_impacts visit_impact
  visit_impacts-Describe id [] [] c d = refl
  visit_impacts-Describe id [] (i ∷ is) c d = elim d [ ]
  visit_impacts-Describe id (v ∷ vs) [] c d = elim d [ ]
  visit_impacts-Describe id (v ∷ vs) (i ∷ is) c ((s, rs, r, t), d) =
      rw (s, r, t) (visit_impacts-Describe id vs is (vec.inc (affected_of id i) c) d)

  visit_event-IsAzureEvent :
      (v : Value) (e : AzureEvent) (c : C vec)
      → IsAzureEvent v e
      → visit_event vec v c ≡ some (reported vec (azure_report e) c)
  unfolding visit_event count_status
  visit_event-IsAzureEvent v e c (i, p, q, st, up, ty, ti, le, im, vs, ma, d) =
      let affected = visit_impacts-Describe e.id vs e.impacts c.affected_entity d in
      elim (Bool-cases (e.status == "Resolved")) [
        | inl r ↦ rw (i, q, st, up, ty, ti, le, im, ma, affected, r) refl
        | inr r ↦ rw (i, q, st, up, ty, ti, le, im, ma, affected, r) refl
      ]

  module _ (client : AzureHealthClient) where
    -- With a token, and a response that lists events, the collection ends with its counters sent:
    -- each counter is the number of times that the events of the response are counted under its
    -- labels, whatever the counters were before.
    pub azure_health_collect_lem :
        (conf : AzureHealthConf) (before : C vec) (token respbody : String) (result : Object)
        (value : List Value) (es : List AzureEvent) (labels : Labels)
        → get_token client conf.tenant_id conf.client_id conf.client_secret ≡ ok token
        → (token == "") ≡ false
        → client.send (events_url conf) token ≡ some respbody
        → client.unmarshal respbody ≡ some result
        → items_at "value" (object result) ≡ some value
        → Describe IsAzureEvent value es
        → (c : C vec) × (collect vec client conf before ≡ sent c)
          × IsExactly vec (map azure_report es) c labels
    unfolding collect after_token after_send after_unmarshal
    azure_health_collect_lem conf before token respbody result value es labels t n s u i d =
        let visited =
          visit_all-Describe vec IsAzureEvent azure_report (visit_event vec)
            visit_event-IsAzureEvent value es (reset_all vec before) d in
        (
          reported_all vec (map azure_report es) (reset_all vec before),
          rw (t, n, s, u, i, visited) refl,
          reported_all-IsExactly vec (map azure_report es) before labels,
        )
