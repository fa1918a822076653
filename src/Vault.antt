-- ===== src/Vault.antt =====
-- pkg/vault/vault_client.go: reading secrets with retries, and collecting a provider's credentials.
-- The Vault API and encoding/json enter as `Api`; its calls are numbered, so that it may answer
-- each call differently. The state of an action is the number of calls made so far.
pub mod Secrets
pub mod Provider
pub mod Login
pub mod Project
mod Tests
use iaa_s_exporter.Prelude.{
  ℕ, suc, ◌≡◌, String, Bool, true, false, Option, none, some, List, [], ◌∷◌, ◌==◌, if◌then◌else◌,
}
use iaa_s_exporter.Prelude.Int.{ℤ, pos}
use iaa_s_exporter.Prelude.Dict.{Dict, lookup}
use iaa_s_exporter.Prelude.Result.{Result, ok, err, panic, fatal}
use iaa_s_exporter.Constant.{provider_aws, provider_azure, provider_ali_cloud, provider_gcp}
use iaa_s_exporter.Errorutil.Retry.{Run, Ended, returned, panicked, out_of_fuel, retry_on_err}

pub data CredentialKey : Type 0 where
  aws_access_key_id aws_secret_access_key : CredentialKey
  azure_client_id azure_client_secret azure_subscription_id azure_tenant_id : CredentialKey
  ali_cloud_access_key_id ali_cloud_secret_access_key : CredentialKey
  gcp_service_account gcp_project_id : CredentialKey

pub CredentialKey-discrete : Discrete CredentialKey
CredentialKey-discrete = hlevel

abbrev pub CloudCredentials : Type 0
CloudCredentials = List (CredentialKey × String)

-- A value of `map[string]interface{}`: nil, a string, or something else.
pub data Value : Type 0 where
  nil other : Value
  text : String → Value

pub data VaultError : Type 0 where
  api_error json_error : VaultError
  read_secret secret_not_found : String → VaultError
  key_not_found : String → String → VaultError
  unknown_provider : String → VaultError

pub record Api : Type 0 where
  -- Logical().Read(path), at each call: a secret, or nil, and an error
  pub read : ℕ → String → Option (Dict Value) × Option VaultError
  -- json.Marshal of a secret's data, and json.Unmarshal into a map
  pub marshal : Dict Value → Option String
  pub unmarshal : String → Option (Dict Value)
  -- the random numbers of the retries that begin at a call
  pub draws : ℕ → ℕ → ℕ

-- What the closure of `readSecretV1` captures.
pub record Reading : Type 0 where
  pub calls : ℕ
  pub secret : Option (Dict Value)

abbrev pub vault_max_attempts : ℕ
vault_max_attempts = 3

-- five seconds, in nanoseconds
abbrev pub vault_retry_sleep_duration : ℕ
vault_retry_sleep_duration = 5000000000

abbrev pub Action : Type 0 → Type 0
Action A = ℕ → ℕ × Result VaultError A

abbrev pub then_do :
    {A B : Type 0} → ℕ × Result VaultError A → (A → Action B) → ℕ × Result VaultError B
then_do (n, ok a) f = f a n
then_do (n, err e) f = (n, err e)
then_do (n, panic) f = (n, panic)
then_do (n, fatal) f = (n, fatal)

infixl 5 ◌>>=◌
abbrev pub ◌>>=◌ : {A B : Type 0} → Action A → (A → Action B) → Action B
◌>>=◌ m f calls = then_do (m calls) f

abbrev pub give : {A : Type 0} → Result VaultError A → Action A
give r calls = (calls, r)

pub text_of : String → String → Option Value → Result VaultError String
text_of path key none = err (key_not_found key path)
text_of path key (some nil) = err (key_not_found key path)
text_of path key (some (text s)) = ok s
text_of path key (some other) = panic

pub marshalled : String → String → Option String → Result VaultError String
marshalled path key none = err (key_not_found key path)
marshalled path key (some s) = ok s

-- `ReadProjectID`; the type assertion panics unless the value is a string.
pub project_of : Option Value → Result VaultError String
project_of (some (text s)) = ok s
project_of _ = panic

pub read_map : Option (Dict Value) → Result VaultError String
unfolding project_of
read_map none = err json_error
read_map (some m) = project_of (lookup "project_id" m)

module _ (api : Api) where
  -- What `readSecretV1` makes of the secret that was read.
  unfoldable pub value_of : String → String → Option (Dict Value) → Result VaultError String
  unfolding text_of marshalled lookup
  value_of path key none = err (secret_not_found path)
  value_of path key (some secret) =
      if key == "gcp_service_account"
      then marshalled path key (api.marshal secret)
      else text_of path key (lookup key secret)

  -- The closure `f`: one read, whose secret is kept even beside an error.
  unfoldable pub read_once : String → Reading → Reading × Option VaultError
  read_once path r =
      let (secret, e) = api.read r.calls path in
      (record { calls = suc r.calls; secret = secret }, e)

  pub after_retries : String → String → Reading → Ended VaultError → Result VaultError String
  unfolding value_of
  after_retries path key r (returned none) = value_of path key r.secret
  after_retries path key r (returned (some e)) = err (read_secret path)
  after_retries path key r panicked = panic
  after_retries path key r out_of_fuel = panic

  pub read_secret_v1 : String → String → Action String
  unfolding after_retries
  read_secret_v1 path key calls =
      let run =
        retry_on_err (read_once path) (api.draws calls) vault_max_attempts
          (pos vault_retry_sleep_duration) (record { calls = calls; secret = none }) in
      (run.state.calls, after_retries path key run.state run.ended)

  unfoldable pub read_project_id : String → Result VaultError String
  unfolding read_map
  read_project_id service_account = read_map (api.unmarshal service_account)

  credentials_aws : String → Action CloudCredentials
  credentials_aws path = do
    access_key_id ← read_secret_v1 path "AWS_ACCESS_KEY_ID"
    secret_access_key ← read_secret_v1 path "AWS_SECRET_ACCESS_KEY"
    give (ok ((aws_access_key_id, access_key_id) ∷ (aws_secret_access_key, secret_access_key) ∷ []))

  credentials_azure : String → Action CloudCredentials
  credentials_azure path = do
    client_id ← read_secret_v1 path "client_id"
    client_secret ← read_secret_v1 path "client_secret"
    subscription_id ← read_secret_v1 path "subscription_id"
    tenant_id ← read_secret_v1 path "tenant_id"
    give (
        ok (
          (azure_client_id, client_id)
          ∷ (azure_client_secret, client_secret)
          ∷ (azure_subscription_id, subscription_id)
          ∷ (azure_tenant_id, tenant_id)
          ∷ []))

  credentials_ali_cloud : String → Action CloudCredentials
  credentials_ali_cloud path = do
    access_key_id ← read_secret_v1 path "ALICLOUD_ACCESS_KEY_ID"
    secret_access_key ← read_secret_v1 path "ALICLOUD_SECRET_ACCESS_KEY"
    give (
        ok (
          (ali_cloud_access_key_id, access_key_id)
          ∷ (ali_cloud_secret_access_key, secret_access_key)
          ∷ []))

  credentials_gcp : String → Action CloudCredentials
  credentials_gcp path = do
    service_account ← read_secret_v1 path "gcp_service_account"
    project_id ← give (read_project_id service_account)
    give (ok ((gcp_service_account, service_account) ∷ (gcp_project_id, project_id) ∷ []))

  -- The `switch` on the provider.
  pub credentials_from_path : String → String → Action CloudCredentials
  unfolding credentials_aws credentials_azure credentials_ali_cloud credentials_gcp
  credentials_from_path path provider =
      if provider == provider_aws
      then credentials_aws path
      else if provider == provider_azure
      then credentials_azure path
      else if provider == provider_ali_cloud
      then credentials_ali_cloud path
      else if provider == provider_gcp
      then credentials_gcp path
      else give (err (unknown_provider provider))
