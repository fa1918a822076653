-- ===== src/Vault/Tests.antt =====
-- The theorems about pkg/vault/vault_client.go at a small Vault.
use iaa_s_exporter.Prelude.{
  ℕ, ◌≡◌, refl, String, Bool, false, none, some, [], ◌∷◌, arith, ltb, if◌then◌else◌, ◌==◌, eq_iff,
}
use iaa_s_exporter.Prelude.Int.{pos}
use iaa_s_exporter.Prelude.Dict.{Dict, lookup}
use iaa_s_exporter.Prelude.Result.{ok}
use iaa_s_exporter.Vault.{
  Api, Value, text, other, gcp_service_account, gcp_project_id, api_error, value_of,
  aws_access_key_id, aws_secret_access_key, read_secret_v1, credentials_from_path,
}
use iaa_s_exporter.Vault.Secrets.{read_secret_v1-Answers}
use iaa_s_exporter.Config.{Config, VaultConfig}
use iaa_s_exporter.Vault.Login.{LoginApi, write_error, write_once, new_vault_client}
use iaa_s_exporter.Errorutil.Retry.{retry_on_err}
use iaa_s_exporter.Vault.Login.Safe.{IsEntitled, new_vault_client-IsEntitled}
use iaa_s_exporter.Vault.Login.Entered.{new_vault_client-Answers}
use iaa_s_exporter.Vault.Project.{gcp_credentials_read_back}
use iaa_s_exporter.Vault.Provider.{IsSteady, credentials_from_path_lem}

abbrev keys : Dict Value
keys =
    ("AWS_ACCESS_KEY_ID", text "id") ∷ ("AWS_SECRET_ACCESS_KEY", text "key") ∷ ("count", other) ∷ []

-- The calls below n fail, and the others return the keys.
abbrev failing_below : ℕ → Api
failing_below n = record {
  read = λ c path. if ltb c n then (none, some api_error) else (some keys, none);
  marshal = λ m. some "json";
  unmarshal = λ s. none;
  draws = λ c n. 0;
}

read_secret_v1-Answers_example :
    read_secret_v1 (failing_below 2) "p" "AWS_ACCESS_KEY_ID" 0 ≡ (3, ok "id")
unfolding value_of
read_secret_v1-Answers_example =
    read_secret_v1-Answers (failing_below 2) "p" "AWS_ACCESS_KEY_ID" 0 2 (some keys) (omega arith)
      ((api_error, refl), ((api_error, refl), refl))

answers_at_once : IsSteady (failing_below 0) "p" (some keys)
answers_at_once c = (0, omega arith, ground arith)

credentials_from_path_lem_example :
    (credentials_from_path (failing_below 0) "p" "aws" 0).1
    ≡ ok ((aws_access_key_id, "id") ∷ (aws_secret_access_key, "key") ∷ [])
unfolding value_of
credentials_from_path_lem_example =
    credentials_from_path_lem (failing_below 0) "p" (some keys) answers_at_once "aws" 0

-- A service account's secret, and what json.Marshal writes for it: the keys are sorted.
abbrev account_secret : Dict Value
account_secret =
    ("type", text "service_account") ∷ ("project_id", text "p-1") ∷ ("client_email", text "e") ∷ []

abbrev account_text : String
account_text = "{\"client_email\":\"e\",\"project_id\":\"p-1\",\"type\":\"service_account\"}"

abbrev account_read : Dict Value
account_read =
    ("client_email", text "e") ∷ ("project_id", text "p-1") ∷ ("type", text "service_account") ∷ []

-- Every read has that secret.
abbrev accounts : Api
accounts = record {
  read = λ c path. (some account_secret, none);
  marshal = λ m. some account_text;
  unmarshal = λ s. if s == account_text then some account_read else none;
  draws = λ c n. 0;
}

account_lookup : (key : String) → lookup key account_read ≡ lookup key account_secret
unfolding lookup
account_lookup key = ground (
  arith,
  eq_iff "type" key,
  eq_iff "project_id" key,
  eq_iff "client_email" key,
  eq_iff "type" "project_id",
  eq_iff "type" "client_email",
  eq_iff "project_id" "client_email",
)

gcp_credentials_read_back_example :
    (credentials_from_path accounts "p" "gcp" 0).1
    ≡ ok ((gcp_service_account, account_text) ∷ (gcp_project_id, "p-1") ∷ [])
unfolding lookup
gcp_credentials_read_back_example =
    gcp_credentials_read_back accounts "p" account_secret account_text "p-1" 0 refl
      (account_read, refl, account_lookup) (λ c. (0, omega arith, refl)) refl

abbrev vault_conf : Bool → VaultConfig
vault_conf from_env = record {
  vault_token_from_env = from_env;
  vault_addr = "https://vault";
  vault_login_path = "auth/login";
  vault_role = "iaas-monitor";
}

abbrev conf_of : VaultConfig → Config
conf_of vault = record {
  provider = "aws";
  project = "hc";
  region = "eu-west-1";
  scraping_duration = pos 5;
  cache_expiration = pos 6;
  cache_cleanup_interval = pos 10;
  cloud_provider_account_vault_subpath = "account";
  aws = none;
  gcp = none;
  azure = none;
  ali_cloud = none;
  vault = some vault;
  vault_backup_bucket = none;
}

-- The first login fails, and the second one is answered.
abbrev login_at_second : LoginApi
login_at_second = record {
  new_client = none;
  set_address = λ address. none;
  token_file = some "jwt";
  write = λ c path data'.
      if ltb c 1 then (none, some write_error) else (some (record { auth = some "t" }), none);
  draws = λ n. 7;
}

new_vault_client-IsEntitled_example :
    IsEntitled login_at_second
      (vault_conf false)
      (record { address = "https://vault"; token = some "t" })
unfolding new_vault_client retry_on_err write_once
new_vault_client-IsEntitled_example =
    new_vault_client-IsEntitled login_at_second (conf_of (vault_conf false)) (vault_conf false)
      (record { address = "https://vault"; token = some "t" }) refl refl

new_vault_client-Answers_example :
    new_vault_client login_at_second (conf_of (vault_conf false))
    ≡ ok (record { address = "https://vault"; token = some "t" })
new_vault_client-Answers_example =
    new_vault_client-Answers login_at_second (vault_conf false) (conf_of (vault_conf false)) "jwt"
      "t" 1 (record { auth = some "t" }) refl refl refl refl refl refl (λ e. cc) (omega arith) refl
      ((write_error, refl), refl)
