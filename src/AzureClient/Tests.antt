-- ===== src/AzureClient/Tests.antt =====
-- The theorems about the client of Azure's blob storage.
use iaa_s_exporter.Prelude.{◌≡◌, refl, none, some}
use iaa_s_exporter.Prelude.Int.{pos}
use iaa_s_exporter.Prelude.Result.{ok}
use iaa_s_exporter.AzureClient.{
  Environment, PrincipalToken, Sdk, new_azure_client, container_service,
}
use iaa_s_exporter.AzureClient.Reached.{client_with, azure_client-reaches}

abbrev public_cloud : Environment
public_cloud = record {
  active_directory_endpoint = "https://login/";
  storage_endpoint_suffix = "core.windows.net";
  storage_resource_identifier = "https://storage.azure.com/";
}

abbrev zero : Environment
zero = record {
  active_directory_endpoint = "";
  storage_endpoint_suffix = "";
  storage_resource_identifier = "";
}

abbrev spt : PrincipalToken
spt = record { refresh = none; token = record { access_token = "t"; expires = pos 9 } }

abbrev sdk : Sdk
sdk = record {
  environment_from_name = λ name. (public_cloud, none);
  new_oauth_config =
      λ endpoint tenant. (some (record { authority = endpoint; tenant = tenant }), none);
  new_service_principal_token = λ oauth id secret resource. ok spt;
  parse = λ text. ok text;
}

azure_client-reaches_example :
    (new_azure_client sdk "id" "secret" "tenant" "sub" "backup" none
      ≡ (some public_cloud, ok (client_with sdk spt "tenant" "sub" "backup")))
    × (container_service sdk
          (client_with sdk spt "tenant" "sub" "backup")
          "backup"
          "backup"
          (new_azure_client sdk "id" "secret" "tenant" "sub" "backup" none).0
        ≡ (
          some public_cloud,
          ok (record {
            service = record { url = "https://backup.blob.core.windows.net"; credentials = spt };
            container = "backup";
          }),
        ))
azure_client-reaches_example =
    azure_client-reaches sdk "id" "secret" "tenant" "sub" "backup"
      "https://backup.blob.core.windows.net" none public_cloud
      (record { authority = "https://login/"; tenant = "tenant" }) spt refl refl refl refl
