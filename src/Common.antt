-- ===== src/Common.antt =====
-- pkg/cloud/common/common.go: what the vectors and descriptors of the program are registered with.
pub mod Names
use iaa_s_exporter.Prelude.{String, List}
use iaa_s_exporter.Constant.{
  quota_current_name, quota_limit_name, help_quota_current, help_quota_limit, health_event_name,
  health_affected, health_event_open_total, health_event_close_total, help_health_event,
  help_health_affected, help_health_event_opened_total, help_health_event_closed_total,
  vault_list_success, vault_last_modify_date, vault_last_modify_size, vault_object_count,
  vault_object_size_total, vault_max_size, help_vault_backup_bucket_list_success,
  help_vault_backup_bucket_last_modified_object_date,
  help_vault_backup_bucket_last_modified_object_size, help_vault_backup_bucket_object_total,
  help_vault_backup_bucket_sum_size, help_vault_backup_bucket_biggest_size,
}
use Prim.Native.String.{◌++◌ as concat}

-- A metric's name, its help and the names of its labels.
pub record Opts : Type 0 where
  pub name : String
  pub help : String
  pub labels : List String

pub record QuotaVecs : Type 0 where
  pub quota_current : Opts
  pub quota_limit : Opts

pub record HealthVecs : Type 0 where
  pub health_event : Opts
  pub affected_entity : Opts
  pub health_opened_total : Opts
  pub health_closed_total : Opts

pub record BucketDescs : Type 0 where
  pub list_success : Opts
  pub last_modified_object_date : Opts
  pub last_modified_object_size : Opts
  pub object_total : Opts
  pub sum_size : Opts
  pub biggest_size : Opts

-- strings.Join([]string{cloudProvider, help}, " ")
abbrev pub joined : String → String → String
joined cloud_provider help = concat cloud_provider (concat " " help)

abbrev pub init_quota_gauge_vec : String → List String → QuotaVecs
init_quota_gauge_vec cloud_provider labels = record {
  quota_current = record {
    name = quota_current_name;
    help = joined cloud_provider help_quota_current;
    labels = labels;
  };
  quota_limit = record {
    name = quota_limit_name;
    help = joined cloud_provider help_quota_limit;
    labels = labels;
  };
}

abbrev pub init_health_counter_vec :
    String → List String → List String → List String → List String → HealthVecs
init_health_counter_vec cloud_provider event_labels entity_labels opened_total_labels
      closed_total_labels =
    record {
      health_event = record {
        name = health_event_name;
        help = joined cloud_provider help_health_event;
        labels = event_labels;
      };
      affected_entity = record {
        name = health_affected;
        help = joined cloud_provider help_health_affected;
        labels = entity_labels;
      };
      health_opened_total = record {
        name = health_event_open_total;
        help = joined cloud_provider help_health_event_opened_total;
        labels = opened_total_labels;
      };
      health_closed_total = record {
        name = health_event_close_total;
        help = joined cloud_provider help_health_event_closed_total;
        labels = closed_total_labels;
      };
    }

-- prometheus.BuildFQName enters as an argument.
module _ (build_fq_name : String → String → String → String) where
  abbrev pub described : String → String → String → String → List String → Opts
  described namespace cloud_provider name help labels = record {
    name = build_fq_name namespace "" name;
    help = concat cloud_provider help;
    labels = labels;
  }

  abbrev pub init_vault_backup_bucket_desc : String → String → List String → BucketDescs
  init_vault_backup_bucket_desc namespace cloud_provider labels = record {
    list_success =
        described namespace cloud_provider vault_list_success help_vault_backup_bucket_list_success
          labels;
    last_modified_object_date =
        described namespace cloud_provider vault_last_modify_date
          help_vault_backup_bucket_last_modified_object_date labels;
    last_modified_object_size =
        described namespace cloud_provider vault_last_modify_size
          help_vault_backup_bucket_last_modified_object_size labels;
    object_total =
        described namespace cloud_provider vault_object_count help_vault_backup_bucket_object_total
          labels;
    sum_size =
        described namespace cloud_provider vault_object_size_total help_vault_backup_bucket_sum_size
          labels;
    biggest_size =
        described namespace cloud_provider vault_max_size help_vault_backup_bucket_biggest_size
          labels;
  }
