-- ===== src/Vault/Login/Tries.antt =====
-- The login of `NewVaultClient` by the outcome of its three tries.
use iaa_s_exporter.Prelude.{◌≡◌, refl, ap, ◌∙◌, String, Option, none, some, [], ◌∷◌, arith}
use iaa_s_exporter.Prelude.Dict.{Dict}
use iaa_s_exporter.Prelude.Result.{Result, err}
use iaa_s_exporter.Config.{VaultConfig}
use iaa_s_exporter.Errorutil.Retry.Outcome.{try_upto, ending, retry_on_err_lem}
use iaa_s_exporter.Vault.Login.{
  LoginApi, LoginError, LoggingIn, VaultClient, could_not_log_in, with_secret, after_retries,
  write_once, log_in,
}

abbrev pub login_data : VaultConfig → String → Dict String
login_data conf client_token = ("jwt", client_token) ∷ ("role", conf.vault_role) ∷ []

module _ (api : LoginApi) where
  -- The login by the outcome of three tries.
  abbrev pub decided : VaultConfig → LoggingIn × Option LoginError → Result LoginError VaultClient
  decided conf (l, none) = with_secret conf.vault_addr l.secret
  decided conf (l, some e) = err (could_not_log_in e)

  finish-ending :
      (conf : VaultConfig) (o : LoggingIn × Option LoginError)
      → after_retries conf.vault_addr (ending o).0.secret (ending o).1 ≡ decided conf o
  unfolding after_retries
  finish-ending conf (l, none) = refl
  finish-ending conf (l, some e) = refl

  pub by_tries :
      (conf : VaultConfig) (client_token : String)
      → log_in api conf client_token
        ≡ decided conf (
            try_upto
              (write_once api conf.vault_login_path (login_data conf client_token))
              3
              (record { calls = 0; secret = none }))
  unfolding log_in
  by_tries conf client_token =
      ap (λ o. after_retries conf.vault_addr o.0.secret o.1)
        (retry_on_err_lem (write_once api conf.vault_login_path (login_data conf client_token))
          api.draws 3 60000000000 (record { calls = 0; secret = none }) (omega arith) (omega arith)
          (omega arith))
      ∙ finish-ending conf (
          try_upto (write_once api conf.vault_login_path (login_data conf client_token)) 3
            (record { calls = 0; secret = none }))
