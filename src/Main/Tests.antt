-- ===== src/Main/Tests.antt =====
-- The theorems about main.go at an account of AWS.
use iaa_s_exporter.Prelude.{◌≡◌, ◌≢◌, refl, String, true, false, none, some, [], ◌∷◌, arith}
use iaa_s_exporter.Prelude.Int.{pos}
use iaa_s_exporter.Prelude.Word.{wrap64}
use iaa_s_exporter.Prelude.Dict.{Dict, lookup}
use iaa_s_exporter.Prelude.Result.{ok}
use iaa_s_exporter.Config.{Config, found, read_conf}
use iaa_s_exporter.Vault.{
  Api, Value, text, aws_access_key_id, aws_secret_access_key, credentials_from_path, value_of,
}
use iaa_s_exporter.Vault.Provider.{credentials_from_path_lem}
use iaa_s_exporter.Vault.Login.{new_vault_client}
use iaa_s_exporter.Factory.{aws_quota}
use iaa_s_exporter.Main.{
  World, nil_exporter, running, new_cache, registered, scraped, listening, main,
}
use iaa_s_exporter.Main.Started.{main-never_nil}
use iaa_s_exporter.Main.Planned.{perform, planned, main_lem}

abbrev conf_of : String → Config
conf_of provider = record {
  provider = provider;
  project = "hc";
  region = "eu-west-1";
  scraping_duration = pos 5;
  cache_expiration = pos 6;
  cache_cleanup_interval = pos 10;
  cloud_provider_account_vault_subpath = "account";
  aws = none;
  gcp = none;
  azure = none;
  ali_cloud = none;
  vault = some (record {
    vault_token_from_env = true;
    vault_addr = "https://vault";
    vault_login_path = "auth/login";
    vault_role = "";
  });
  vault_backup_bucket = none;
}

abbrev keys : Dict Value
keys = ("AWS_ACCESS_KEY_ID", text "id") ∷ ("AWS_SECRET_ACCESS_KEY", text "key") ∷ []

abbrev api : Api
api = record {
  read = λ c path. (some keys, none);
  marshal = λ m. none;
  unmarshal = λ s. none;
  draws = λ c n. 0;
}

-- A configuration of this provider is read, and everything returns.
abbrev working : String → World
working provider = record {
  stat = λ path. found false;
  read_file = λ path. ok "provider";
  unmarshal = λ s. ok (conf_of provider);
  login = record {
    new_client = none;
    set_address = λ address. none;
    token_file = none;
    write = λ c path data'. (none, none);
    draws = λ n. 0;
  };
  vault = λ client. api;
  constructs = λ c conf credential. true;
  scrapes = λ i c. true;
}

main-never_nil_example : (main (working "ibm") 3).ending ≢ nil_exporter
main-never_nil_example = main-never_nil (working "ibm") 3

keys_read :
    (credentials_from_path api "hc/static/aws/account/deployment" "aws" 0).1
    ≡ ok ((aws_access_key_id, "id") ∷ (aws_secret_access_key, "key") ∷ [])
unfolding value_of lookup
keys_read =
    credentials_from_path_lem api "hc/static/aws/account/deployment" (some keys)
      (λ c. (0, omega arith, refl)) "aws" 0

main_lem_example :
    main (working "aws") 2
    ≡ perform (
        planned
          (working "aws")
          (conf_of "aws")
          ((aws_access_key_id, "id") ∷ (aws_secret_access_key, "key") ∷ [])
          2)
unfolding read_conf new_vault_client
main_lem_example =
    main_lem (working "aws") (conf_of "aws") (record { address = "https://vault"; token = none })
      ((aws_access_key_id, "id") ∷ (aws_secret_access_key, "key") ∷ []) 2 refl refl keys_read

-- What is planned there: the collector is scraped three times, and the process runs on.
aws_performed :
    perform (
      planned
        (working "aws")
        (conf_of "aws")
        ((aws_access_key_id, "id") ∷ (aws_secret_access_key, "key") ∷ [])
        2)
    ≡ record {
      steps =
          new_cache (pos 360000000000) (pos 600000000000)
          ∷ registered aws_quota
          ∷ scraped aws_quota
          ∷ listening
          ∷ scraped aws_quota
          ∷ scraped aws_quota
          ∷ [];
      ending = running;
    }
unfolding perform wrap64
aws_performed = refl
