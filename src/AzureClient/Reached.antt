-- ===== src/AzureClient/Reached.antt =====
-- Where the client of pkg/cloud/azure/azure.go looks for a bucket.
use iaa_s_exporter.Prelude.{◌≡◌, refl, String, none, some}
use iaa_s_exporter.Prelude.Result.{ok, err}
use iaa_s_exporter.AzureClient.{
  AzureError, Environment, OauthConfig, PrincipalToken, Sdk, State, AzureClient, init_azure_env,
  with_env, principal_token, after_first_init, client_of, in_service, get_azure_oauth_config,
  get_azure_service_principal_token, get_azure_storage_credentials, new_azure_client, blob_service,
  container_service,
}
use Prim.Native.String.{◌++◌ as concat}

module _ (sdk : Sdk) where
  abbrev pub blob_url : Environment → String → String
  blob_url env account =
      concat "https://" (concat account (concat ".blob." env.storage_endpoint_suffix))

  abbrev pub client_with : PrincipalToken → String → String → String → AzureClient
  client_with spt tenant subscription bucket = record {
    credentials = spt;
    bucket_name = bucket;
    account_name = bucket;
    tenant_id = tenant;
    subscription_id = subscription;
  }

  new_azure_client-made :
      (id secret tenant subscription bucket : String) (before : State) (env : Environment)
      (oauth : OauthConfig) (spt : PrincipalToken)
      → sdk.environment_from_name "AZUREPUBLICCLOUD" ≡ (env, none)
      → sdk.new_oauth_config env.active_directory_endpoint tenant ≡ (some oauth, none)
      → sdk.new_service_principal_token oauth id secret env.storage_resource_identifier ≡ ok spt
      → new_azure_client sdk id secret tenant subscription bucket before
        ≡ (some env, ok (client_with spt tenant subscription bucket))
  unfolding new_azure_client client_of get_azure_storage_credentials after_first_init init_azure_env
      get_azure_service_principal_token principal_token get_azure_oauth_config with_env
  new_azure_client-made id secret tenant subscription bucket before env oauth spt e o s =
      rw (e, o, s) refl

  -- Whatever AzureEnv was before, where the SDK knows the public cloud and gives a token for the
  -- tenant and the cloud's storage, the client that is made finds a bucket in the account of its
  -- name, under the public cloud's suffix, with the credentials of the token.
  pub azure_client-reaches :
      (id secret tenant subscription bucket url : String) (before : State) (env : Environment)
      (oauth : OauthConfig) (spt : PrincipalToken)
      → sdk.environment_from_name "AZUREPUBLICCLOUD" ≡ (env, none)
      → sdk.new_oauth_config env.active_directory_endpoint tenant ≡ (some oauth, none)
      → sdk.new_service_principal_token oauth id secret env.storage_resource_identifier ≡ ok spt
      → sdk.parse (blob_url env bucket) ≡ ok url
      → let made = new_azure_client sdk id secret tenant subscription bucket before in
        let client = client_with spt tenant subscription bucket in
        (made ≡ (some env, ok client))
        × (container_service sdk client client.bucket_name client.account_name made.0 ≡ (
          some env,
          ok (record { service = record { url = url; credentials = spt }; container = bucket }),
        ))
  unfolding with_env container_service in_service blob_service
  azure_client-reaches id secret tenant subscription bucket url before env oauth spt e o s p =
      let made =
        new_azure_client-made id secret tenant subscription bucket before env oauth spt e o s in
      (made, rw (made, p) refl)

  -- When the environment of the public cloud is not known, the first call of `BlobService` returns
  -- the error, but it leaves AzureEnv set: the second call goes on with the environment that stood
  -- beside the error, and returns a service.
  pub blob_service-forgets :
      (client : AzureClient) (account url : String) (e : AzureError) (env : Environment)
      → sdk.environment_from_name "AZUREPUBLICCLOUD" ≡ (env, some e)
      → sdk.parse (blob_url env account) ≡ ok url
      → let first = blob_service sdk client account none in
        (first ≡ (some env, err e))
        × ((blob_service sdk client account first.0).1
            ≡ ok (record { url = url; credentials = client.credentials }))
  unfolding blob_service with_env init_azure_env
  blob_service-forgets client account url e env h p = (rw h refl, rw (h, p) refl)
