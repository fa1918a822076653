-- ===== src/Common/Names.antt =====
-- The names of labels that the collectors' constructors register, in pkg/cloud/aws, pkg/cloud/azure,
-- pkg/cloud/gcp and pkg/cloud/alicloud.
pub mod Fit
use iaa_s_exporter.Prelude.{String, List, [], ◌∷◌}
use iaa_s_exporter.Constant.{
  label_region, label_service_name, label_service_code, label_quota_name, label_quota_code,
  label_account_id, label_account_alias, label_unit, label_subscription_id, label_subscription_name,
  label_regional, label_project_id, label_project_name, label_product_code, label_quota_description,
}
use iaa_s_exporter.Common.{QuotaVecs, HealthVecs, init_quota_gauge_vec, init_health_counter_vec}

abbrev pub aws_quota_vecs : QuotaVecs
aws_quota_vecs = init_quota_gauge_vec "AWS" (
    label_region ∷ label_service_name ∷ label_service_code ∷ label_quota_name ∷ label_quota_code
    ∷ label_account_id ∷ label_account_alias ∷ label_unit ∷ [])

abbrev pub azure_quota_vecs : QuotaVecs
azure_quota_vecs = init_quota_gauge_vec "Azure" (
    label_region ∷ label_quota_code ∷ label_quota_name ∷ label_subscription_id
    ∷ label_subscription_name ∷ label_unit ∷ [])

abbrev pub gcp_quota_vecs : QuotaVecs
gcp_quota_vecs = init_quota_gauge_vec "GCP" (
    label_regional ∷ label_region ∷ label_quota_code ∷ label_quota_name ∷ label_project_id
    ∷ label_project_name ∷ [])

abbrev pub ali_quota_vecs : QuotaVecs
ali_quota_vecs = init_quota_gauge_vec "AliCloud" (
    label_product_code ∷ label_quota_name ∷ label_quota_code ∷ label_quota_description ∷ label_unit
    ∷ [])

abbrev pub aws_health_vecs : HealthVecs
aws_health_vecs =
    let event_label =
      "eventID" ∷ "cloudService" ∷ "eventRegion" ∷ "startTime" ∷ "statusCode" ∷ "lastUpdatedTime"
      ∷ "eventTypeCode" ∷ "eventType" ∷ "eventScopeCode" ∷ "availabilityZone" ∷ [] in
    let entity_label =
      "eventID" ∷ "accountID" ∷ "affectedRegions" ∷ "entityArn" ∷ "statusCode" ∷ "entityValue"
      ∷ "entityUrl" ∷ "lastUpdatedTime" ∷ [] in
    let open_total_label = "eventType" ∷ "availabilityZone" ∷ "cloudService" ∷ [] in
    let close_total_label = "eventType" ∷ "availabilityZone" ∷ "cloudService" ∷ [] in
    init_health_counter_vec "AWS" event_label entity_label open_total_label close_total_label

abbrev entity_label : List String
entity_label = "eventID" ∷ "affectedService" ∷ "affectedRegions" ∷ []

abbrev pub azure_health_vecs : HealthVecs
azure_health_vecs =
    let event_label =
      "eventID" ∷ "title" ∷ "eventType" ∷ "lastUpdatedTime" ∷ "startTime" ∷ "status" ∷ "level"
      ∷ [] in
    init_health_counter_vec "Azure" event_label entity_label ("eventType" ∷ []) ("eventType" ∷ [])

abbrev pub gcp_health_vecs : HealthVecs
gcp_health_vecs =
    let event_label =
      "eventID" ∷ "title" ∷ "startTime" ∷ "lastUpdatedTime" ∷ "status" ∷ "eventType" ∷ "level"
      ∷ "uri" ∷ "serviceKey" ∷ "serviceName" ∷ [] in
    init_health_counter_vec "Gcp" event_label entity_label ("eventType" ∷ []) ("eventType" ∷ [])

abbrev pub ali_health_vecs : HealthVecs
ali_health_vecs =
    let event_label = "eventID" ∷ "startTime" ∷ "lastUpdatedTime" ∷ "level" ∷ [] in
    init_health_counter_vec "AliCloud" event_label entity_label ("eventType" ∷ [])
      ("eventType" ∷ [])
