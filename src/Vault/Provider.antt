-- ===== src/Vault/Provider.antt =====
-- The credentials of a provider against a table of the keys that it needs.
use iaa_s_exporter.Prelude.{
  ℕ, suc, ◌+◌, ◌≤◌, ◌≡◌, refl, ap, ◌∙◌, String, Option, List, [], ◌∷◌, arith, false, ◌==◌, eq_iff,
  if◌then◌else◌, Bool-cases, inl, inr, ◌≢◌,
}
use iaa_s_exporter.Prelude.Dict.{Dict}
use iaa_s_exporter.Prelude.Result
use iaa_s_exporter.Prelude.Result.{Result, ok, err, panic, fatal}
use iaa_s_exporter.Constant.{provider_aws, provider_azure, provider_ali_cloud, provider_gcp}
use iaa_s_exporter.Vault.{
  Api, Value, VaultError, unknown_provider, CredentialKey, CloudCredentials, aws_access_key_id,
  aws_secret_access_key, azure_client_id, azure_client_secret, azure_subscription_id,
  azure_tenant_id, ali_cloud_access_key_id, ali_cloud_secret_access_key, gcp_service_account,
  gcp_project_id, value_of, read_secret_v1, read_project_id, credentials_from_path, then_do, Action,
  credentials_aws, credentials_azure, credentials_ali_cloud, credentials_gcp,
}
use iaa_s_exporter.Vault.Secrets.{Answers, read_secret_v1-Answers}

-- What a provider needs: secrets by key, and whether a project id is read out of the only one.
pub data Plan : Type 0 where
  secrets : List (CredentialKey × String) → Plan
  service_account unknown : Plan

abbrev azure_keys_after_secret : List (CredentialKey × String)
azure_keys_after_secret =
    (azure_subscription_id, "subscription_id") ∷ (azure_tenant_id, "tenant_id") ∷ []

abbrev azure_keys_after_id : List (CredentialKey × String)
azure_keys_after_id = (azure_client_secret, "client_secret") ∷ azure_keys_after_secret

abbrev pub plan_of : String → Plan
plan_of p =
    if p == provider_aws
    then secrets (
        (aws_access_key_id, "AWS_ACCESS_KEY_ID")
        ∷ (aws_secret_access_key, "AWS_SECRET_ACCESS_KEY")
        ∷ [])
    else if p == provider_azure
    then secrets ((azure_client_id, "client_id") ∷ azure_keys_after_id)
    else if p == provider_ali_cloud
    then secrets (
        (ali_cloud_access_key_id, "ALICLOUD_ACCESS_KEY_ID")
        ∷ (ali_cloud_secret_access_key, "ALICLOUD_SECRET_ACCESS_KEY")
        ∷ [])
    else if p == provider_gcp
    then service_account
    else unknown

module _ (api : Api) (path : String) (secret : Option (Dict Value)) where
  -- Every read of the path is answered by this secret, after at most two failed calls.
  abbrev pub IsSteady : Type 0
  IsSteady = (c : ℕ) → (k : ℕ) × (k ≤ 2) × Answers api path c k secret

  abbrev pub with_value :
      CredentialKey
      → String
      → Result VaultError CloudCredentials
      → Result VaultError CloudCredentials
  with_value c k rest =
      Result.◌>>=◌ (value_of api path k secret) λ v. Result.◌>>=◌ rest λ vs. ok ((c, v) ∷ vs)

  -- The values under the keys, up to the first that is missing.
  abbrev pub gather : List (CredentialKey × String) → Result VaultError CloudCredentials
  gather [] = ok []
  gather ((c, k) ∷ rest) = with_value c k (gather rest)

  abbrev pub carry_out : String → Plan → Result VaultError CloudCredentials
  carry_out p (secrets keys) = gather keys
  carry_out p service_account = Result.◌>>=◌ (value_of api path "gcp_service_account" secret) λ v.
      Result.◌>>=◌ (read_project_id api v)
        λ project. ok ((gcp_service_account, v) ∷ (gcp_project_id, project) ∷ [])
  carry_out p unknown = err (unknown_provider p)

  -- One read followed by more actions, by its value.
  read_then :
      {B : Type 0} (steady : IsSteady) (key : String) (c : ℕ) (f : String → Action B)
      → then_do (read_secret_v1 api path key c) f
        ≡ then_do (suc (c + (steady c).0), value_of api path key secret) f
  read_then steady key c f =
      ap (λ r. then_do r f)
        (read_secret_v1-Answers api path key c (steady c).0 secret (steady c).1 (steady c).2)

  -- However many calls it makes, the action ends with this result.
  abbrev Yields : {A : Type 0} → Action A → Result VaultError A → Type 0
  Yields m r = (c : ℕ) → (m c).1 ≡ r

  then_do-result :
      {A B : Type 0} (q : ℕ × Result VaultError A) (f : A → Action B) (g : A → Result VaultError B)
      → ((a : A) → Yields (f a) (g a))
      → (then_do q f).1 ≡ Result.◌>>=◌ q.1 g
  then_do-result (n, ok a) f g h = h a n
  then_do-result (n, err e) f g h = refl
  then_do-result (n, panic) f g h = refl
  then_do-result (n, fatal) f g h = refl

  regroup :
      (c : CredentialKey) (r : Result VaultError String) (rest : Result VaultError CloudCredentials)
      (h : CloudCredentials → Result VaultError CloudCredentials)
      → Result.◌>>=◌ r (λ v. Result.◌>>=◌ rest (λ vs. h ((c, v) ∷ vs)))
        ≡ Result.◌>>=◌ (Result.◌>>=◌ r (λ v. Result.◌>>=◌ rest (λ vs. ok ((c, v) ∷ vs)))) h
  regroup c (ok v) (ok vs) h = refl
  regroup c (ok v) (err e) h = refl
  regroup c (ok v) panic h = refl
  regroup c (ok v) fatal h = refl
  regroup c (err e) rest h = refl
  regroup c panic rest h = refl
  regroup c fatal rest h = refl

  -- A read, and then actions that gather the other keys, gather all of them.
  read-Yields :
      (steady : IsSteady) (c : CredentialKey) (key : String) (rest : List (CredentialKey × String))
      (f : String → Action CloudCredentials)
      (h : CloudCredentials → Result VaultError CloudCredentials)
      → ((v : String) → Yields (f v) (Result.◌>>=◌ (gather rest) (λ vs. h ((c, v) ∷ vs))))
      → Yields
          (λ n. then_do (read_secret_v1 api path key n) f)
          (Result.◌>>=◌ (gather ((c, key) ∷ rest)) h)
  read-Yields steady c key rest f h ih n =
      ap (λ q. q.1) (read_then steady key n f)
      ∙ then_do-result (suc (n + (steady n).0), value_of api path key secret) f _ ih
      ∙ regroup c (value_of api path key secret) (gather rest) h

  bind-ok : (r : Result VaultError CloudCredentials) → Result.◌>>=◌ r ok ≡ r
  bind-ok (ok v) = refl
  bind-ok (err e) = refl
  bind-ok panic = refl
  bind-ok fatal = refl

  module _ (steady : IsSteady) where
    aws-Yields : Yields (credentials_aws api path) (carry_out provider_aws (plan_of provider_aws))
    unfolding credentials_aws
    aws-Yields n =
        read-Yields steady aws_access_key_id _
          ((aws_secret_access_key, "AWS_SECRET_ACCESS_KEY") ∷ []) _ ok
          (λ v.
            read-Yields steady aws_secret_access_key _ [] _ (λ vs. ok ((aws_access_key_id, v) ∷ vs))
              (λ w m. refl))
          n
        ∙ bind-ok _

    ali_cloud-Yields :
        Yields
          (credentials_ali_cloud api path)
          (carry_out provider_ali_cloud (plan_of provider_ali_cloud))
    unfolding credentials_ali_cloud
    ali_cloud-Yields n =
        read-Yields steady ali_cloud_access_key_id _
          ((ali_cloud_secret_access_key, "ALICLOUD_SECRET_ACCESS_KEY") ∷ []) _ ok
          (λ v.
            read-Yields steady ali_cloud_secret_access_key _ [] _
              (λ vs. ok ((ali_cloud_access_key_id, v) ∷ vs)) (λ w m. refl))
          n
        ∙ bind-ok _

    azure-Yields :
        Yields (credentials_azure api path) (carry_out provider_azure (plan_of provider_azure))
    unfolding credentials_azure
    azure-Yields n =
        read-Yields steady azure_client_id _ azure_keys_after_id _ ok
          (λ a.
            read-Yields steady azure_client_secret _ azure_keys_after_secret _
              (λ vs. ok ((azure_client_id, a) ∷ vs))
              (λ b.
                read-Yields steady azure_subscription_id _ ((azure_tenant_id, "tenant_id") ∷ []) _
                  (λ vs. ok ((azure_client_id, a) ∷ (azure_client_secret, b) ∷ vs))
                  (λ d.
                    read-Yields steady azure_tenant_id _ [] _
                      (λ vs. ok (
                        (azure_client_id, a)
                        ∷ (azure_client_secret, b)
                        ∷ (azure_subscription_id, d)
                        ∷ vs))
                      (λ e m. refl))))
          n
        ∙ bind-ok _

    gcp-Yields : Yields (credentials_gcp api path) (carry_out provider_gcp (plan_of provider_gcp))
    unfolding credentials_gcp
    gcp-Yields n =
        ap (λ q. q.1) (read_then steady "gcp_service_account" n _)
        ∙ then_do-result (suc (n + (steady n).0), value_of api path "gcp_service_account" secret) _
            _ (λ v m. then_do-result (m, read_project_id api v) _ _ (λ p k. refl))

    -- With a Vault whose every read is answered by the same secret after at most two failures, the
    -- credentials of a provider are the values under the keys of its plan, in that order, and the
    -- first key that fails decides the error; a name that is none of the four is reported.
    pub credentials_from_path_lem :
        (provider : String) (n : ℕ)
        → (credentials_from_path api path provider n).1 ≡ carry_out provider (plan_of provider)
    unfolding credentials_from_path
    credentials_from_path_lem p n = elim (Bool-cases (p == provider_aws)) [
      | inl a ↦ rw ((eq_iff p provider_aws).0 a) (aws-Yields n)
      | inr a ↦ elim (Bool-cases (p == provider_azure)) [
        | inl b ↦ rw ((eq_iff p provider_azure).0 b) (azure-Yields n)
        | inr b ↦ elim (Bool-cases (p == provider_ali_cloud)) [
          | inl d ↦ rw ((eq_iff p provider_ali_cloud).0 d) (ali_cloud-Yields n)
          | inr d ↦ elim (Bool-cases (p == provider_gcp)) [
            | inl e ↦ rw ((eq_iff p provider_gcp).0 e) (gcp-Yields n)
            | inr e ↦ rw (a, b, d, e) refl
          ]
        ]
      ]
    ]

-- A name that is none of the four providers is an error, and Vault is not called.
pub credentials_from_path-unknown :
    (api : Api) (path provider : String) (n : ℕ)
    → provider ≢ provider_aws
    → provider ≢ provider_azure
    → provider ≢ provider_ali_cloud
    → provider ≢ provider_gcp
    → credentials_from_path api path provider n ≡ (n, err (unknown_provider provider))
unfolding credentials_from_path
credentials_from_path-unknown api path p n a b d e =
    rw (no p provider_aws a, no p provider_azure b, no p provider_ali_cloud d, no p provider_gcp e)
      refl
  where
    no : (s t : String) → s ≢ t → (s == t) ≡ false
    no s t h = ground (arith, eq_iff s t)
