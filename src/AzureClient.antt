-- ===== src/AzureClient.antt =====
-- pkg/cloud/azure/azure.go: the client of Azure's blob storage. The package's variable AzureEnv is
-- the state, nil at first; the functions of azure, adal, azblob and net/url enter as `Sdk`.
pub mod Reached
mod Tests
use iaa_s_exporter.Prelude.{String, Option, none, some, List, [], ◌∷◌, ◌==◌, if◌then◌else◌}
use iaa_s_exporter.Prelude.Int.{ℤ, pos, ◌-ℤ◌, ◌+ℤ◌}
use iaa_s_exporter.Prelude.Result.{Result, ok, err, panic, fatal}
use Prim.Native.String.{◌++◌ as concat}

pub data AzureError : Type 0 where
  sdk_error : String → AzureError
  unable_to_configure : String → AzureError
  failed_to_parse : String → AzureError → AzureError

-- azure.Environment, as far as it is read.
pub record Environment : Type 0 where
  pub active_directory_endpoint : String
  pub storage_endpoint_suffix : String
  pub storage_resource_identifier : String

pub record OauthConfig : Type 0 where
  pub authority : String
  pub tenant : String

pub record Token : Type 0 where
  pub access_token : String
  pub expires : ℤ

-- A service principal's token, by what `Refresh` returns, and the token after it.
pub record PrincipalToken : Type 0 where
  pub refresh : Option AzureError
  pub token : Token

pub record Sdk : Type 0 where
  -- azure.EnvironmentFromName, with a zero environment beside an error
  pub environment_from_name : String → Environment × Option AzureError
  pub new_oauth_config : String → String → Option OauthConfig × Option AzureError
  -- adal.NewServicePrincipalToken of a configuration, a client's id and secret, and a resource
  pub new_service_principal_token :
      OauthConfig → String → String → String → Result AzureError PrincipalToken
  -- url.Parse, by the text of the address
  pub parse : String → Result AzureError String

abbrev pub State : Type 0
State = Option Environment

-- A call with the package's variable after it.
abbrev pub Action : Type 0 → Type 0
Action A = State → State × Result AzureError A

pub record AzureClient : Type 0 where
  pub credentials : PrincipalToken
  pub bucket_name : String
  pub account_name : String
  pub tenant_id : String
  pub subscription_id : String

pub record ServiceUrl : Type 0 where
  pub url : String
  pub credentials : PrincipalToken

pub record ContainerUrl : Type 0 where
  pub service : ServiceUrl
  pub container : String

-- Refreshing the credentials' token: its text, and how long it may be used. An error exits.
abbrev token_of : Option AzureError → Token → ℤ → Result AzureError (String × ℤ)
token_of (some e) token now = fatal
token_of none token now = ok (token.access_token, token.expires -ℤ (now +ℤ pos 120000000000))

unfoldable pub token_refresher : PrincipalToken → ℤ → Result AzureError (String × ℤ)
token_refresher spt now = token_of spt.refresh spt.token now

module _ (sdk : Sdk) where
  abbrev init_result : Option AzureError → Result AzureError (Unit {0})
  init_result none = ok tt
  init_result (some e) = err e

  -- The variable is set beside an error too.
  unfoldable pub init_azure_env : Action (Unit {0})
  init_azure_env before =
      let (env, e) = sdk.environment_from_name "AZUREPUBLICCLOUD" in (some env, init_result e)

  -- `if AzureEnv == nil { initAzureEnv() }`, and what follows with the environment.
  abbrev after_init :
      {A : Type 0}
      → (Environment → Result AzureError A)
      → State × Result AzureError (Unit {0})
      → State × Result AzureError A
  after_init next (some env, ok u) = (some env, next env)
  after_init next (none, ok u) = (none, panic)
  after_init next (env, err e) = (env, err e)
  after_init next (env, panic) = (env, panic)
  after_init next (env, fatal) = (env, fatal)

  with_env : {A : Type 0} → (Environment → Result AzureError A) → Action A
  unfolding init_azure_env
  with_env next none = after_init next (init_azure_env none)
  with_env next (some env) = (some env, next env)

  abbrev oauth_result :
      String → Option OauthConfig × Option AzureError → Result AzureError OauthConfig
  oauth_result tenant (c, some e) = err e
  oauth_result tenant (none, none) = err (unable_to_configure tenant)
  oauth_result tenant (some c, none) = ok c

  unfoldable pub get_azure_oauth_config : String → Action OauthConfig
  unfolding with_env
  get_azure_oauth_config tenant =
      with_env
        (λ env. oauth_result tenant (sdk.new_oauth_config env.active_directory_endpoint tenant))

  -- `AzureEnv` is set once the configuration has been got.
  principal_token :
      String
      → String
      → State × Result AzureError OauthConfig
      → State × Result AzureError PrincipalToken
  principal_token id secret (some env, ok c) =
      (some env, sdk.new_service_principal_token c id secret env.storage_resource_identifier)
  principal_token id secret (none, ok c) = (none, panic)
  principal_token id secret (env, err e) = (env, err e)
  principal_token id secret (env, panic) = (env, panic)
  principal_token id secret (env, fatal) = (env, fatal)

  unfoldable pub get_azure_service_principal_token :
      String → String → String → Action PrincipalToken
  unfolding principal_token get_azure_oauth_config
  get_azure_service_principal_token client_id client_secret tenant before =
      principal_token client_id client_secret (get_azure_oauth_config tenant before)

  after_first_init :
      String
      → String
      → String
      → State × Result AzureError (Unit {0})
      → State × Result AzureError PrincipalToken
  unfolding get_azure_service_principal_token
  after_first_init id secret tenant (env, ok u) =
      get_azure_service_principal_token id secret tenant env
  after_first_init id secret tenant (env, err e) = (env, err e)
  after_first_init id secret tenant (env, panic) = (env, panic)
  after_first_init id secret tenant (env, fatal) = (env, fatal)

  -- The credentials are those whose token the principal's token refreshes.
  unfoldable pub get_azure_storage_credentials : String → String → String → Action PrincipalToken
  unfolding after_first_init init_azure_env
  get_azure_storage_credentials client_id client_secret tenant before =
      after_first_init client_id client_secret tenant (init_azure_env before)

  client_of :
      String
      → String
      → String
      → State × Result AzureError PrincipalToken
      → State × Result AzureError AzureClient
  client_of tenant subscription bucket (env, ok c) = (
    env,
    ok (record {
      credentials = c;
      bucket_name = bucket;
      account_name = bucket;
      tenant_id = tenant;
      subscription_id = subscription;
    }),
  )
  client_of tenant subscription bucket (env, err e) = (env, err e)
  client_of tenant subscription bucket (env, panic) = (env, panic)
  client_of tenant subscription bucket (env, fatal) = (env, fatal)

  unfoldable pub new_azure_client : String → String → String → String → String → Action AzureClient
  unfolding client_of get_azure_storage_credentials
  new_azure_client client_id client_secret tenant_id subscription_id bucket_name before =
      client_of tenant_id subscription_id bucket_name
        (get_azure_storage_credentials client_id client_secret tenant_id before)

  abbrev service_at :
      PrincipalToken → String → Result AzureError String → Result AzureError ServiceUrl
  service_at credentials account_name (ok url) =
      ok (record { url = url; credentials = credentials })
  service_at credentials account_name (err e) = err (failed_to_parse account_name e)
  service_at credentials account_name panic = panic
  service_at credentials account_name fatal = fatal

  unfoldable pub blob_service : AzureClient → String → Action ServiceUrl
  unfolding with_env
  blob_service client account_name = with_env (λ env. service_at client.credentials account_name (
      sdk.parse
        (concat "https://" (concat account_name (concat ".blob." env.storage_endpoint_suffix)))))

  in_service :
      String → State × Result AzureError ServiceUrl → State × Result AzureError ContainerUrl
  in_service bucket (env, ok s) = (env, ok (record { service = s; container = bucket }))
  in_service bucket (env, err e) = (env, err e)
  in_service bucket (env, panic) = (env, panic)
  in_service bucket (env, fatal) = (env, fatal)

  unfoldable pub container_service : AzureClient → String → String → Action ContainerUrl
  unfolding in_service blob_service
  container_service client bucket_name account_name before =
      in_service bucket_name (blob_service client account_name before)
