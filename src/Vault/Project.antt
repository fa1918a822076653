-- ===== src/Vault/Project.antt =====
-- GCP's project id in pkg/vault/vault_client.go: the secret is written as the text of a service
-- account, and the project id is read back from that text.
use iaa_s_exporter.Prelude.{ℕ, ◌≡◌, refl, ◌∙◌, String, some, [], ◌∷◌}
use iaa_s_exporter.Prelude.Dict.{Dict, lookup}
use iaa_s_exporter.Prelude.Result.{ok}
use iaa_s_exporter.Constant.{provider_gcp}
use iaa_s_exporter.Vault.{
  Api, Value, text, gcp_service_account, gcp_project_id, value_of, marshalled, read_project_id,
  read_map, project_of, credentials_from_path,
}
use iaa_s_exporter.Vault.Provider.{IsSteady, carry_out, plan_of, credentials_from_path_lem}

module _ (api : Api) where
  -- encoding/json reads a text as a map with the secret's entries, in some order.
  abbrev pub ReadsBack : String → Dict Value → Type 0
  ReadsBack s secret =
      (m : Dict Value) × (api.unmarshal s ≡ some m)
      × ((key : String) → lookup key m ≡ lookup key secret)

  -- If the text that encoding/json writes for the secret reads back as a map with the same entries,
  -- and Vault answers with the secret after at most two failures, GCP's credentials are that text and
  -- the project id that the secret has.
  pub gcp_credentials_read_back :
      (path : String) (secret : Dict Value) (s project : String) (n : ℕ)
      → api.marshal secret ≡ some s
      → ReadsBack s secret
      → IsSteady api path (some secret)
      → lookup "project_id" secret ≡ some (text project)
      → (credentials_from_path api path provider_gcp n).1
        ≡ ok ((gcp_service_account, s) ∷ (gcp_project_id, project) ∷ [])
  unfolding value_of marshalled read_project_id read_map project_of
  gcp_credentials_read_back path secret s project n m (read, back, same) steady p =
      credentials_from_path_lem api path (some secret) steady provider_gcp n ∙ carried
    where
      carried :
          carry_out api path (some secret) provider_gcp (plan_of provider_gcp)
          ≡ ok ((gcp_service_account, s) ∷ (gcp_project_id, project) ∷ [])
      carried = rw (m, back, same "project_id", p) refl
