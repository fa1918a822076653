-- ===== src/Config.antt =====
-- pkg/config/config.go: the configuration's types, and reading it. A pointer is an `Option`, an
-- int32 or int64 is the integer that it holds.
use iaa_s_exporter.Prelude.{String, Bool, false, not, Option, List, if◌then◌else◌}
use iaa_s_exporter.Prelude.Int.{ℤ}
use iaa_s_exporter.Prelude.Dict.{Dict}
use iaa_s_exporter.Prelude.Result.{Result, ok, panic, fatal, ◌>>=◌}

pub record VaultBackupBucketConfig : Type 0 where
  pub bucket : String
  pub prefix : String

pub record Tag : Type 0 where
  pub key : String
  pub value : String

pub record Dimension : Type 0 where
  pub name : String
  pub value : String

pub record Metric : Type 0 where
  pub name : String
  pub statistics : List String
  pub period : ℤ
  pub length : ℤ
  pub delay : ℤ
  pub nil_to_zero : Option Bool
  pub add_cloudwatch_timestamp : Option Bool

pub record Job : Type 0 where
  pub type : String
  pub search_tags : List Tag
  pub custom_tags : List Tag
  pub dimension_name_requirements : List String
  pub metrics : List Metric
  pub length : ℤ
  pub delay : ℤ
  pub period : ℤ
  pub rounding_period : Option ℤ
  pub statistics : List String
  pub add_cloudwatch_timestamp : Option Bool
  pub nil_to_zero : Option Bool

pub record CloudWatchMetricsConf : Type 0 where
  pub exported_tags_on_metrics : Dict (List String)
  pub jobs : List Job

pub record AwsConfig : Type 0 where
  pub health_event_status_codes : List String
  pub health_event_type_categories : List String
  pub cloud_watch_metrics_conf : CloudWatchMetricsConf

pub record AliCloudConfig : Type 0 where
  pub endpoint : String

pub record AzureConfig : Type 0 where
  pub subscription_id : String

pub record VaultConfig : Type 0 where
  pub vault_token_from_env : Bool
  pub vault_addr : String
  pub vault_login_path : String
  pub vault_role : String

pub record Config : Type 0 where
  pub provider : String
  pub project : String
  pub region : String
  pub scraping_duration : ℤ
  pub cache_expiration : ℤ
  pub cache_cleanup_interval : ℤ
  pub cloud_provider_account_vault_subpath : String
  pub aws : Option AwsConfig
  pub gcp : Option (Unit {0})
  pub azure : Option AzureConfig
  pub ali_cloud : Option AliCloudConfig
  pub vault : Option VaultConfig
  pub vault_backup_bucket : Option VaultBackupBucketConfig

-- What os.Stat reports of a path.
pub data Stat : Type 0 where
  not_exist failed : Stat
  found : Bool → Stat

-- `info` is nil when os.Stat fails with any other error, and `info.IsDir()` then panics.
pub file_exists : {E : Type 0} → Stat → Result E Bool
file_exists not_exist = ok false
file_exists failed = panic
file_exists (found is_dir) = ok (not is_dir)

-- The file system and gopkg.in/yaml.v3 enter as arguments.
unfoldable pub read_conf :
    {E : Type 0}
    → (String → Stat)
    → (String → Result E String)
    → (String → Result E Config)
    → String
    → Result E Config
unfolding file_exists
read_conf stat read_file unmarshal filename = file_exists (stat filename) >>= λ there.
    if there then read_file filename >>= unmarshal else fatal
