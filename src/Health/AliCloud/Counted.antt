-- ===== src/Health/AliCloud/Counted.antt =====
-- What the counters of pkg/cloud/alicloud/alicloud_health.go come to, by the events of the response.
use iaa_s_exporter.Prelude.{◌≡◌, refl, String, true, some, List, [], ◌∷◌, map}
use iaa_s_exporter.Health.{Labels, CounterVec, sent}
use iaa_s_exporter.Health.Json.{Value, boolean, object, Object, find, text_at, num_at, items_at}
use iaa_s_exporter.Health.Reports.{
  Report, Describe, reported, reported_all, IsReported, reported_all-IsReported, visit_all-Describe,
}
use iaa_s_exporter.Health.AliCloud.{
  C, AliHealthClient, visit_result, after_success, after_unmarshal, after_get, collect,
}
use Prim.Native.String.{◌++◌ as concat}

pub record AliEvent : Type 0 where
  pub title : String
  pub product_id : String
  pub severity : String
  pub start_time : String
  pub end_time : String

-- The value has what the collector reads of an event.
abbrev pub IsAliEvent : Value → AliEvent → Type 0
IsAliEvent v e =
    (text_at "productId" v ≡ some e.product_id)
    × (text_at "title" v ≡ some e.title)
    × (text_at "currentStateSeverity" v ≡ some e.severity)
    × (num_at "startTime" v ≡ some e.start_time)
    × (num_at "endTime" v ≡ some e.end_time)

abbrev pub ali_report : AliHealthClient → String → AliEvent → Report
ali_report client region e = record {
  events =
      (e.title ∷ client.time_text e.start_time ∷ client.time_text e.end_time ∷ e.severity ∷ [])
      ∷ [];
  affected = (e.title ∷ e.product_id ∷ region ∷ []) ∷ [];
  opened = [];
  closed = [];
}

abbrev pub event_url : String → String
event_url region =
    concat "https://status.aliyun.com/api/status/listProductEventForRegionInLast24Hours?regionId="
      region

module _ (vec : CounterVec) (client : AliHealthClient) (region : String) where
  visit_result-IsAliEvent :
      (v : Value) (e : AliEvent) (c : C vec)
      → IsAliEvent v e
      → visit_result vec client region v c ≡ some (reported vec (ali_report client region e) c)
  unfolding visit_result
  visit_result-IsAliEvent v e c (p, t, s, b, d) = rw (p, t, s, b, d) refl

  -- With a response that is a success and lists events, the collection ends with its counters sent,
  -- and adds to each counter, which is not reset, the number of times that the events are counted
  -- under its labels.
  pub ali_health_collect_lem :
      (before : C vec) (body : String) (event_results : Object) (data' : List Value)
      (es : List AliEvent) (labels : Labels)
      → client.get (event_url region) ≡ some body
      → client.unmarshal body ≡ some event_results
      → find "success" event_results ≡ boolean true
      → items_at "data" (object event_results) ≡ some data'
      → Describe IsAliEvent data' es
      → (c : C vec) × (collect vec client region before ≡ sent c)
        × IsReported vec (map (ali_report client region) es) before c labels
  unfolding collect after_get after_unmarshal after_success
  ali_health_collect_lem before body event_results data' es labels g u s i d =
      let visited =
        visit_all-Describe vec IsAliEvent (ali_report client region)
          (visit_result vec client region) visit_result-IsAliEvent data' es before d in
      (
        reported_all vec (map (ali_report client region) es) before,
        rw (g, u, s, i, visited) refl,
        reported_all-IsReported vec (map (ali_report client region) es) before labels,
      )
