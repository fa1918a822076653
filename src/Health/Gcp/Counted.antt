-- ===== src/Health/Gcp/Counted.antt =====
-- What the counters of pkg/cloud/gcp/gcp_health.go come to, by the incidents of the response.
use iaa_s_exporter.Prelude.{
  ◌≡◌, refl, String, some, List, [], ◌∷◌, map, Bool-cases, inl, inr, if◌then◌else◌, ◌==◌,
}
use iaa_s_exporter.Health.{Labels, CounterVec, reset_all, sent}
use iaa_s_exporter.Health.Json.{Value, member, text_at, items_at, texts_at, join}
use iaa_s_exporter.Health.Reports.{
  Report, Describe, reported, reported_all, IsExactly, reported_all-IsExactly, visit_all-Describe,
}
use iaa_s_exporter.Health.Gcp.{
  C, GcpHealthClient, visit_result, count_status, after_unmarshal, after_get, collect,
}

pub record GcpIncident : Type 0 where
  pub id : String
  pub external_desc : String
  pub begin : String
  pub modified : String
  pub status : String
  pub status_impact : String
  pub severity : String
  pub uri : String
  pub service_key : String
  pub service_name : String
  pub affected_products : List String
  pub previously_affected_locations : List String

-- The value has what the collector reads of an incident.
abbrev pub IsGcpIncident : Value → GcpIncident → Type 0
IsGcpIncident v e =
    ((u : Value) × (member "most_recent_update" v ≡ some u) × (text_at "status" u ≡ some e.status))
    × (text_at "id" v ≡ some e.id)
    × (text_at "external_desc" v ≡ some e.external_desc)
    × (text_at "begin" v ≡ some e.begin)
    × (text_at "modified" v ≡ some e.modified)
    × (text_at "status_impact" v ≡ some e.status_impact)
    × (text_at "severity" v ≡ some e.severity)
    × (text_at "uri" v ≡ some e.uri)
    × (text_at "service_key" v ≡ some e.service_key)
    × (text_at "service_name" v ≡ some e.service_name)
    × ((vs : List Value) × (items_at "affected_products" v ≡ some vs)
        × (texts_at "title" vs ≡ some e.affected_products))
    × (vs : List Value) × (items_at "previously_affected_locations" v ≡ some vs)
    × (texts_at "title" vs ≡ some e.previously_affected_locations)

-- An incident is counted as closed where its service is available again, and else as opened.
abbrev pub gcp_report : GcpIncident → Report
gcp_report e = record {
  events =
      (e.id ∷ e.external_desc ∷ e.begin ∷ e.modified ∷ e.status ∷ e.status_impact ∷ e.severity
        ∷ e.uri ∷ e.service_key ∷ e.service_name ∷ [])
      ∷ [];
  affected = (e.id ∷ join e.affected_products ∷ join e.previously_affected_locations ∷ []) ∷ [];
  opened = if e.status == "AVAILABLE" then [] else (e.status_impact ∷ []) ∷ [];
  closed = if e.status == "AVAILABLE" then (e.status_impact ∷ []) ∷ [] else [];
}

module _ (vec : CounterVec) where
  visit_result-IsGcpIncident :
      (v : Value) (e : GcpIncident) (c : C vec)
      → IsGcpIncident v e
      → visit_result vec v c ≡ some (reported vec (gcp_report e) c)
  unfolding visit_result count_status
  visit_result-IsGcpIncident v e c
        ((u, m, st), i, ti, be, mo, im, se, ur, sk, sn, (ps, p, pt), ls, l, lt) =
      elim (Bool-cases (e.status == "AVAILABLE")) [
        | inl r ↦ rw (m, st, i, ti, be, mo, im, se, ur, sk, sn, p, pt, l, lt, r) refl
        | inr r ↦ rw (m, st, i, ti, be, mo, im, se, ur, sk, sn, p, pt, l, lt, r) refl
      ]

  module _ (client : GcpHealthClient) where
    -- With a response that lists incidents, the collection ends with its counters sent: each counter
    -- is the number of times that the incidents of the response are counted under its labels,
    -- whatever the counters were before.
    pub gcp_health_collect_lem :
        (before : C vec) (resp_body : String) (results : List Value) (es : List GcpIncident)
        (labels : Labels)
        → client.get "https://status.cloud.google.com/incidents.json" ≡ some resp_body
        → client.unmarshal resp_body ≡ some results
        → Describe IsGcpIncident results es
        → (c : C vec) × (collect vec client before ≡ sent c)
          × IsExactly vec (map gcp_report es) c labels
    unfolding collect after_get after_unmarshal
    gcp_health_collect_lem before resp_body results es labels g u d =
        let visited =
          visit_all-Describe vec IsGcpIncident gcp_report (visit_result vec)
            visit_result-IsGcpIncident results es (reset_all vec before) d in
        (
          reported_all vec (map gcp_report es) (reset_all vec before),
          rw (g, u, visited) refl,
          reported_all-IsExactly vec (map gcp_report es) before labels,
        )
