-- ===== src/Vault/Login.antt =====
-- `NewVaultClient` of pkg/vault/vault_client.go. The Vault API and the file of the service account's
-- token enter as `LoginApi`; the writes of the login are numbered.
pub mod Tries
pub mod Safe
pub mod Entered
use iaa_s_exporter.Prelude.{
  ℕ, suc, String, Bool, true, false, Option, none, some, List, [], ◌∷◌, ◌==◌, if◌then◌else◌,
}
use iaa_s_exporter.Prelude.Int.{pos}
use iaa_s_exporter.Prelude.Dict.{Dict}
use iaa_s_exporter.Prelude.Result.{Result, ok, err, panic}
use iaa_s_exporter.Config.{Config, VaultConfig}
use iaa_s_exporter.Errorutil.Retry.{Ended, returned, panicked, out_of_fuel, retry_on_err}
use iaa_s_exporter.Vault.{vault_max_attempts}

pub data LoginError : Type 0 where
  client_error address_error file_error write_error empty_token : LoginError
  invalid_role : String → LoginError
  could_not_log_in : LoginError → LoginError

-- What the answer to a login has: `secret.Auth`, by its client token, or nil.
pub record LoginSecret : Type 0 where
  pub auth : Option String

-- The client has the address that was set, and the token that was set, or else that of the
-- environment.
pub record VaultClient : Type 0 where
  pub address : String
  pub token : Option String

pub record LoginApi : Type 0 where
  -- vaultApi.NewClient and SetAddress, by their errors
  pub new_client : Option LoginError
  pub set_address : String → Option LoginError
  -- ioutil.ReadFile of /var/run/secrets/kubernetes.io/serviceaccount/token
  pub token_file : Option String
  -- Logical().Write(path, data), at each call: a secret, or nil, and an error
  pub write : ℕ → String → Dict String → Option LoginSecret × Option LoginError
  -- the random numbers of the retries
  pub draws : ℕ → ℕ

-- What the closure `f` captures, with the number of its calls.
pub record LoggingIn : Type 0 where
  pub calls : ℕ
  pub secret : Option LoginSecret

-- one minute, in nanoseconds
abbrev pub vault_retry_login_sleep_duration : ℕ
vault_retry_login_sleep_duration = 60000000000

abbrev pub read_write_credentials_role : String
read_write_credentials_role = "iaas-monitor"

-- `secret.Auth.ClientToken`, which panics at a nil Auth.
abbrev pub set_token : String → Option String → Result LoginError VaultClient
set_token address none = panic
set_token address (some token) = ok (record { address = address; token = some token })

-- It panics at a nil secret too.
abbrev pub with_secret : String → Option LoginSecret → Result LoginError VaultClient
with_secret address none = panic
with_secret address (some secret) = set_token address secret.auth

pub after_retries : String → Option LoginSecret → Ended LoginError → Result LoginError VaultClient
after_retries address secret (returned none) = with_secret address secret
after_retries address secret (returned (some e)) = err (could_not_log_in e)
after_retries address secret panicked = panic
after_retries address secret out_of_fuel = panic

module _ (api : LoginApi) where
  -- The closure `f`.
  unfoldable pub write_once : String → Dict String → LoggingIn → LoggingIn × Option LoginError
  write_once path data' l =
      let (secret, e) = api.write l.calls path data' in
      (record { calls = suc l.calls; secret = secret }, e)

  -- Logging in with the token of the service account.
  unfoldable pub log_in : VaultConfig → String → Result LoginError VaultClient
  unfolding after_retries
  log_in conf client_token =
      let data' = ("jwt", client_token) ∷ ("role", conf.vault_role) ∷ [] in
      let run =
        retry_on_err (write_once conf.vault_login_path data') api.draws vault_max_attempts
          (pos vault_retry_login_sleep_duration) (record { calls = 0; secret = none }) in
      after_retries conf.vault_addr run.state.secret run.ended

  unfoldable pub after_file : VaultConfig → Option String → Result LoginError VaultClient
  unfolding log_in
  after_file conf none = err file_error
  after_file conf (some client_token) =
      if client_token == "" then err empty_token else log_in conf client_token

  unfoldable pub after_address : VaultConfig → Option LoginError → Result LoginError VaultClient
  unfolding after_file
  after_address conf (some e) = err e
  after_address conf none =
      if conf.vault_token_from_env
      then ok (record { address = conf.vault_addr; token = none })
      else if conf.vault_role == read_write_credentials_role
      then after_file conf api.token_file
      else err (invalid_role conf.vault_role)

  unfoldable pub after_client :
      Option VaultConfig → Option LoginError → Result LoginError VaultClient
  unfolding after_address
  after_client conf (some e) = err e
  after_client none none = panic
  after_client (some conf) none = after_address conf (api.set_address conf.vault_addr)

  unfoldable pub new_vault_client : Config → Result LoginError VaultClient
  unfolding after_client
  new_vault_client conf = after_client conf.vault api.new_client
