-- ===== src/Vault/Login/Entered.antt =====
-- When the login of `NewVaultClient` succeeds.
use iaa_s_exporter.Prelude.{
  ℕ, ◌≤◌, ◌≡◌, ◌≢◌, refl, ap, ◌∙◌, String, Bool, true, false, Option, none, some, ◌==◌, eq_iff,
}
use iaa_s_exporter.Prelude.Result.{ok}
use iaa_s_exporter.Config.{Config, VaultConfig}
use iaa_s_exporter.Errorutil.Retry.Numbered as Numbered
use iaa_s_exporter.Vault.Login.Tries.{login_data, decided, by_tries}
use iaa_s_exporter.Vault.Login.{
  LoginApi, LoginSecret, write_once, log_in, after_file, after_address, after_client,
  new_vault_client, read_write_credentials_role,
}

module _ (api : LoginApi) (vault : VaultConfig) where
  -- The first k writes of the login fail, and the next one is answered by the secret.
  abbrev pub Answers : String → ℕ → Option LoginSecret → Type 0
  Answers client_token k secret =
      Numbered.Answers (λ n. api.write n vault.vault_login_path (login_data vault client_token)) 0 k
        secret

  log_in-Answers :
      (client_token : String) (k : ℕ) (secret : LoginSecret) (token : String)
      → k ≤ 2
      → secret.auth ≡ some token
      → Answers client_token k (some secret)
      → log_in api vault client_token
        ≡ ok (record { address = vault.vault_addr; token = some token })
  unfolding write_once
  log_in-Answers client_token k secret token h q a =
      by_tries api vault client_token
      ∙ ap (decided api vault) (
          Numbered.try_upto-Answers
            (λ n. api.write n vault.vault_login_path (login_data vault client_token))
            (write_once api vault.vault_login_path (login_data vault client_token))
            (λ n last. record { calls = n; secret = last }) (λ n last. refl) 2 k 0 none
            (some secret) h a)
      ∙ rw q refl

  nonempty : (s : String) → s ≢ "" → (s == "") ≡ false
  nonempty s n = by_test (s == "") refl
    where
      by_test : (b : Bool) → (s == "") ≡ b → b ≡ false
      by_test true p = absurd (n ((eq_iff s "").0 p))
      by_test false p = refl

  -- If the token is not that of the environment, the client and its address are set up without
  -- an error, the role is "iaas-monitor", the service account has a token that is not empty, and
  -- at most two writes of the login fail before one is answered by a secret with a token, then a
  -- client with that token is returned.
  pub new_vault_client-Answers :
      (conf : Config) (client_token token : String) (k : ℕ) (secret : LoginSecret)
      → conf.vault ≡ some vault
      → api.new_client ≡ none
      → api.set_address vault.vault_addr ≡ none
      → vault.vault_token_from_env ≡ false
      → vault.vault_role ≡ read_write_credentials_role
      → api.token_file ≡ some client_token
      → client_token ≢ ""
      → k ≤ 2
      → secret.auth ≡ some token
      → Answers client_token k (some secret)
      → new_vault_client api conf ≡ ok (record { address = vault.vault_addr; token = some token })
  unfolding new_vault_client after_client after_address after_file
  new_vault_client-Answers conf client_token token k secret v c s f r t n h q a =
      let same = (eq_iff vault.vault_role read_write_credentials_role).1 r in
      simp (
        v,
        c,
        s,
        f,
        same,
        t,
        nonempty client_token n,
        log_in-Answers client_token k secret token h q a,
      )
