-- ===== src/Constant.antt =====
-- pkg/constant/const.go: provider names, metric names and label names.
use iaa_s_exporter.Prelude.{String}

abbrev pub provider_aws : String
provider_aws = "aws"

abbrev pub provider_azure : String
provider_azure = "azure"

abbrev pub provider_ali_cloud : String
provider_ali_cloud = "alicloud"

abbrev pub provider_gcp : String
provider_gcp = "gcp"

abbrev pub quota_current_name : String
quota_current_name = "cpe_quota_current"

abbrev pub quota_limit_name : String
quota_limit_name = "cpe_quota_limit"

abbrev pub vault_list_success : String
vault_list_success = "cpe_vault_object_list_success"

abbrev pub vault_max_size : String
vault_max_size = "cpe_vault_object_max_size_bytes"

abbrev pub vault_last_modify_date : String
vault_last_modify_date = "cpe_vault_object_last_modified_date"

abbrev pub vault_last_modify_size : String
vault_last_modify_size = "cpe_vault_object_last_modified_size_bytes"

abbrev pub vault_object_count : String
vault_object_count = "cpe_vault_object_count"

abbrev pub vault_object_size_total : String
vault_object_size_total = "cpe_vault_object_size_bytes_total"

abbrev pub health_event_name : String
health_event_name = "cpe_health_events"

abbrev pub health_affected : String
health_affected = "cpe_health_events_affected"

abbrev pub health_event_open_total : String
health_event_open_total = "cpe_health_events_opened_total"

abbrev pub health_event_close_total : String
health_event_close_total = "cpe_health_events_closed_total"

abbrev pub help_health_affected : String
help_health_affected = "Resource health affected information"

abbrev pub help_health_event : String
help_health_event = "Resource health event information"

abbrev pub help_health_event_opened_total : String
help_health_event_opened_total = "Resource health opened total"

abbrev pub help_health_event_closed_total : String
help_health_event_closed_total = "Resource health closed total"

abbrev pub label_service_name : String
label_service_name = "ServiceName"

abbrev pub label_service_code : String
label_service_code = "ServiceCode"

abbrev pub label_quota_code : String
label_quota_code = "QuotaCode"

abbrev pub label_quota_name : String
label_quota_name = "QuotaName"

abbrev pub label_account_id : String
label_account_id = "AccountID"

abbrev pub label_account_alias : String
label_account_alias = "AccountAlias"

abbrev pub label_region : String
label_region = "Region"

abbrev pub label_unit : String
label_unit = "Unit"

abbrev pub label_regional : String
label_regional = "Regional"

abbrev pub label_project_id : String
label_project_id = "ProjectID"

abbrev pub label_project_name : String
label_project_name = "ProjectName"

abbrev pub label_subscription_id : String
label_subscription_id = "SubscriptionID"

abbrev pub label_subscription_name : String
label_subscription_name = "SubscriptionName"

abbrev pub label_product_code : String
label_product_code = "ProductCode"

abbrev pub label_quota_description : String
label_quota_description = "QuotaDescription"

abbrev pub help_quota_current : String
help_quota_current = "Current usage value of quota"

abbrev pub help_quota_limit : String
help_quota_limit = "Limit value of quota"

abbrev pub help_vault_backup_bucket_list_success : String
help_vault_backup_bucket_list_success = "If the ListObjects operation was a success"

abbrev pub help_vault_backup_bucket_last_modified_object_date : String
help_vault_backup_bucket_last_modified_object_date =
    "The last modified date of the object that was modified most recently"

abbrev pub help_vault_backup_bucket_last_modified_object_size : String
help_vault_backup_bucket_last_modified_object_size =
    "The size of the object that was modified most recently"

abbrev pub help_vault_backup_bucket_object_total : String
help_vault_backup_bucket_object_total =
    "The total number of objects for the bucket/prefix combination"

abbrev pub help_vault_backup_bucket_sum_size : String
help_vault_backup_bucket_sum_size = "The total size of all objects summed"

abbrev pub help_vault_backup_bucket_biggest_size : String
help_vault_backup_bucket_biggest_size = "The size of the biggest object"
