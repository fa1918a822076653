-- ===== src/Common/Names/Fit.antt =====
-- The calls of `WithLabelValues`, which panic unless there is a value for each name, in valid UTF-8.
use iaa_s_exporter.Prelude.{
  ◌≡◌, refl, String, List, [], ◌∷◌, map, length, All, Bool, true, Bool-cases, inl, inr, ◌==◌,
}
use iaa_s_exporter.Prelude.Dict.{Dict}
use iaa_s_exporter.Quota.{QuotaResult, Float64}
use iaa_s_exporter.Quota.Gauges.{Vector, quota_current, quota_limit, GaugeSet, set_gauges}
use iaa_s_exporter.Quota.Aws.{Globals}
use iaa_s_exporter.Quota.Aws.Scrape as AwsQuota
use iaa_s_exporter.Quota.Azure as AzureQuota
use iaa_s_exporter.Quota.Gcp as GcpQuota
use iaa_s_exporter.Quota.AliCloud as AliQuota
use iaa_s_exporter.Health.Aws.{Event, Entity, event_labels, total_labels, entity_labels}
use iaa_s_exporter.Health.Reports.{Report}
use iaa_s_exporter.Health.Azure.Counted.{Impact, AzureEvent, affected_of, azure_report}
use iaa_s_exporter.Health.Gcp.Counted.{GcpIncident, gcp_report}
use iaa_s_exporter.Health.AliCloud.{AliHealthClient}
use iaa_s_exporter.Health.AliCloud.Counted.{AliEvent, ali_report}
use iaa_s_exporter.Common.{Opts, QuotaVecs, HealthVecs}
use iaa_s_exporter.Common.Names.{
  aws_quota_vecs, azure_quota_vecs, gcp_quota_vecs, ali_quota_vecs, aws_health_vecs,
  azure_health_vecs, gcp_health_vecs, ali_health_vecs,
}

-- There is a value for each name.
abbrev pub Fits : Opts → List String → Type 0
Fits opts values = length values ≡ length opts.labels

abbrev pub ReportFits : HealthVecs → Report → Type 0
ReportFits vecs r =
    All (Fits vecs.health_event) r.events
    × All (Fits vecs.affected_entity) r.affected
    × All (Fits vecs.health_opened_total) r.opened
    × All (Fits vecs.health_closed_total) r.closed

azure_affected-Fits :
    (id : String) (is : List Impact)
    → All (Fits azure_health_vecs.affected_entity) (map (affected_of id) is)
azure_affected-Fits id [] = tt
azure_affected-Fits id (i ∷ is) = (refl, azure_affected-Fits id is)

azure_report-ReportFits : (e : AzureEvent) → ReportFits azure_health_vecs (azure_report e)
azure_report-ReportFits e = elim (Bool-cases (e.status == "Resolved")) [
  | inl p ↦ rw p ((refl, tt), azure_affected-Fits e.id e.impacts, tt, (refl, tt))
  | inr p ↦ rw p ((refl, tt), azure_affected-Fits e.id e.impacts, (refl, tt), tt)
]

gcp_report-ReportFits : (e : GcpIncident) → ReportFits gcp_health_vecs (gcp_report e)
gcp_report-ReportFits e = elim (Bool-cases (e.status == "AVAILABLE")) [
  | inl p ↦ rw p ((refl, tt), (refl, tt), tt, (refl, tt))
  | inr p ↦ rw p ((refl, tt), (refl, tt), (refl, tt), tt)
]

-- The labels under which the health collectors of the four providers count an event, and the
-- entities that it affects, have a value for each name that is registered.
pub health_labels-Fits :
    (regions : Dict String) (event : Event) (entity : Entity) (azure : AzureEvent)
    (gcp : GcpIncident) (client : AliHealthClient) (region : String) (ali : AliEvent)
    → Fits aws_health_vecs.health_event (event_labels event)
      × Fits aws_health_vecs.affected_entity (entity_labels regions entity)
      × Fits aws_health_vecs.health_opened_total (total_labels event)
      × Fits aws_health_vecs.health_closed_total (total_labels event)
      × ReportFits azure_health_vecs (azure_report azure)
      × ReportFits gcp_health_vecs (gcp_report gcp)
      × ReportFits ali_health_vecs (ali_report client region ali)
unfolding entity_labels
health_labels-Fits regions event entity azure gcp client region ali = (
  refl,
  refl,
  refl,
  refl,
  azure_report-ReportFits azure,
  gcp_report-ReportFits gcp,
  ((refl, tt), (refl, tt), tt, tt),
)

abbrev registered_as : QuotaVecs → Vector → Opts
registered_as vecs quota_current = vecs.quota_current
registered_as vecs quota_limit = vecs.quota_limit

-- Each gauge that is set has a value for each name of its vector.
abbrev pub GaugesFit : {F : Type 0} → QuotaVecs → List (GaugeSet F) → Type 0
GaugesFit vecs gauges = All (λ g. Fits (registered_as vecs g.vector) g.labels) gauges

set_gauges-GaugesFit :
    {X F : Type 0} (labels_of : X → List String) (result_of : X → QuotaResult F) (vecs : QuotaVecs)
    → ((x : X) → Fits vecs.quota_current (labels_of x))
    → ((x : X) → Fits vecs.quota_limit (labels_of x))
    → (items : Dict X) → GaugesFit vecs (set_gauges labels_of result_of items)
unfolding set_gauges
set_gauges-GaugesFit labels_of result_of vecs c l [] = tt
set_gauges-GaugesFit labels_of result_of vecs c l ((k, x) ∷ items) =
    (c x, (l x, set_gauges-GaugesFit labels_of result_of vecs c l items))

-- A vector of client_golang with these names, at label values: whether `WithLabelValues` returns, which
-- else panics. It does where there is a value for each name and all values are valid UTF-8.
pub record LabelCalls : Type 0 where
  pub is_utf8 : String → Bool
  pub returns : Opts → List String → Bool
  pub returns-Fits :
      (opts : Opts) (values : List String)
      → length values ≡ length opts.labels
      → All (λ v. is_utf8 v ≡ true) values
      → returns opts values ≡ true

module _ (calls : LabelCalls) {F : Type 0} where
  -- The label values of each gauge are valid UTF-8.
  abbrev pub AllUtf8 : List (GaugeSet F) → Type 0
  AllUtf8 gauges = All (λ g. All (λ v. calls.is_utf8 v ≡ true) g.labels) gauges

  -- No call of `WithLabelValues` for the gauges panics.
  abbrev pub Returns : QuotaVecs → List (GaugeSet F) → Type 0
  Returns vecs gauges =
      All (λ g. calls.returns (registered_as vecs g.vector) g.labels ≡ true) gauges

  GaugesFit-Returns :
      (vecs : QuotaVecs) (gauges : List (GaugeSet F))
      → GaugesFit vecs gauges
      → AllUtf8 gauges
      → Returns vecs gauges
  GaugesFit-Returns vecs [] f u = tt
  GaugesFit-Returns vecs (g ∷ gauges) (f, fs) (u, us) = (
    calls.returns-Fits (registered_as vecs g.vector) g.labels f u,
    GaugesFit-Returns vecs gauges fs us,
  )

module _ (float : Float64) (region id name : String) (g : Globals float.carrier)
    (results : Dict (QuotaResult float.carrier)) (gcp : Dict (GcpQuota.Result float.carrier))
    (ali : Dict (AliQuota.Result float.carrier)) where
  -- Whatever the cache holds, each gauge that the quota collectors of the four providers set has a
  -- value for each name that is registered.
  quota_labels-GaugesFit :
      GaugesFit aws_quota_vecs (AwsQuota.collect float region g results)
      × GaugesFit azure_quota_vecs (AzureQuota.collect float region id name results)
      × GaugesFit gcp_quota_vecs (GcpQuota.collect float gcp)
      × GaugesFit ali_quota_vecs (AliQuota.collect float ali)
  unfolding AwsQuota.collect AzureQuota.collect GcpQuota.collect AliQuota.collect AwsQuota.labels_of
      GcpQuota.labels_of
  quota_labels-GaugesFit = (
    set_gauges-GaugesFit _ (λ r. r) aws_quota_vecs (λ x. refl) (λ x. refl) results,
    set_gauges-GaugesFit _ (λ r. r) azure_quota_vecs (λ x. refl) (λ x. refl) results,
    set_gauges-GaugesFit _ (λ r. r.quota_result) gcp_quota_vecs (λ x. refl) (λ x. refl) gcp,
    set_gauges-GaugesFit _ (λ r. r.quota_result) ali_quota_vecs (λ x. refl) (λ x. refl) ali,
  )

  -- Whatever the cache holds, no `WithLabelValues` of the quota collectors of the four providers
  -- panics where the label values that they set are valid UTF-8: with the names that each provider's
  -- constructor registers, there is a value for each name.
  pub quota_labels-Returns :
      (calls : LabelCalls)
      → AllUtf8 calls (AwsQuota.collect float region g results)
      → AllUtf8 calls (AzureQuota.collect float region id name results)
      → AllUtf8 calls (GcpQuota.collect float gcp)
      → AllUtf8 calls (AliQuota.collect float ali)
      → Returns calls aws_quota_vecs (AwsQuota.collect float region g results)
        × Returns calls azure_quota_vecs (AzureQuota.collect float region id name results)
        × Returns calls gcp_quota_vecs (GcpQuota.collect float gcp)
        × Returns calls ali_quota_vecs (AliQuota.collect float ali)
  quota_labels-Returns calls u v w x =
      let (a, b, c, d) = quota_labels-GaugesFit in
      (
        GaugesFit-Returns calls aws_quota_vecs _ a u,
        GaugesFit-Returns calls azure_quota_vecs _ b v,
        GaugesFit-Returns calls gcp_quota_vecs _ c w,
        GaugesFit-Returns calls ali_quota_vecs _ d x,
      )
