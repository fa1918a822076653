-- ===== src/Vault/Login/Safe.antt =====
-- When `NewVaultClient` returns a client, and when its retries decide.
use iaa_s_exporter.Prelude.{
  ℕ, zero, suc, ◌+◌, ◌<◌, ◌≡◌, ◌≢◌, refl, sym, ap, ◌∙◌, String, Bool, true, false, Option, none,
  some, ◌==◌, ◌⊎◌, inl, inr, arith, eq_iff, if◌then◌else◌,
}
use iaa_s_exporter.Prelude.Dict.{Dict}
use iaa_s_exporter.Prelude.Result.{ok, err}
use iaa_s_exporter.Config.{Config, VaultConfig}
use iaa_s_exporter.Errorutil.Retry.Outcome.{try_upto, or_else}
use iaa_s_exporter.Vault.Login.Tries.{login_data, decided, by_tries}
use iaa_s_exporter.Vault.Login.{
  LoginApi, LoginSecret, LoginError, LoggingIn, VaultClient, with_secret, set_token, empty_token,
  write_once, log_in, after_file, after_address, after_client, new_vault_client,
  read_write_credentials_role, invalid_role,
}

module _ (api : LoginApi) where
  -- One of the first three writes of the login is answered without an error, by a token.
  abbrev pub IsLoggedIn : VaultConfig → String → String → Type 0
  IsLoggedIn conf client_token token =
      (c : ℕ) × (c < 3)
      × (api.write c conf.vault_login_path (login_data conf client_token)
          ≡ (some (record { auth = some token }), none))

  -- What a client that is returned rests on.
  abbrev pub IsEntitled : VaultConfig → VaultClient → Type 0
  IsEntitled conf client =
      ((conf.vault_token_from_env ≡ true) × (client.token ≡ none))
      ⊎ ((conf.vault_role ≡ read_write_credentials_role)
          × (client_token : String) × (api.token_file ≡ some client_token)
          × (client_token ≢ "")
          × (token : String) × (client.token ≡ some token)
          × IsLoggedIn conf client_token token)

  or_else-cases :
      (r : LoggingIn × Option LoginError) (next : LoggingIn → LoggingIn × Option LoginError)
      (l : LoggingIn)
      → or_else r next ≡ (l, none)
      → (r ≡ (l, none)) ⊎ (next r.0 ≡ (l, none))
  or_else-cases (s, none) next l h = inl h
  or_else-cases (s, some e) next l h = inr h

  module _ (path : String) (data' : Dict String) where
    once_answered :
        (l l' : LoggingIn)
        → write_once api path data' l ≡ (l', none)
        → api.write l.calls path data' ≡ (l'.secret, none)
    unfolding write_once
    once_answered l l' h = ap (λ r. (r.0.secret, r.1)) h

    write_once-calls : (l : LoggingIn) → (write_once api path data' l).0.calls ≡ suc l.calls
    unfolding write_once
    write_once-calls l = refl

    answered :
        (n : ℕ) (l l' : LoggingIn)
        → try_upto (write_once api path data') (suc n) l ≡ (l', none)
        → (c : ℕ) × (c < l.calls + suc n) × (api.write c path data' ≡ (l'.secret, none))
    unfolding try_upto
    answered zero l l' h = (l.calls, omega arith, once_answered l l' h)
    answered (suc n) l l' h = elim (or_else-cases (write_once api path data' l) _ l' h) [
      | inl p ↦ (l.calls, omega arith, once_answered l l' p)
      | inr p ↦
          let (c, b, q) = answered n (write_once api path data' l).0 l' p in
          (c, omega (arith, b, write_once-calls l), q)
    ]

  set_token-ok :
      (address : String) (auth : Option String) (client : VaultClient)
      → set_token address auth ≡ ok client
      → (token : String) × (auth ≡ some token)
        × (client.token ≡ some token)
        × (client.address ≡ address)
  set_token-ok address none client h = cc
  set_token-ok address (some token) client h =
      let e : client ≡ record { address = address; token = some token } = cc in
      (token, refl, ap (λ c. c.token) e, ap (λ c. c.address) e)

  with_secret-ok :
      (address : String) (secret : Option LoginSecret) (client : VaultClient)
      → with_secret address secret ≡ ok client
      → (token : String) × (secret ≡ some (record { auth = some token }))
        × (client.token ≡ some token)
        × (client.address ≡ address)
  with_secret-ok address none client h = cc
  with_secret-ok address (some secret) client h =
      let (token, a, t, e) = set_token-ok address secret.auth client h in
      (token, ap (λ auth. some (record { auth = auth })) a, t, e)

  decided-ok :
      (conf : VaultConfig) (client_token : String) (o : LoggingIn × Option LoginError)
      (client : VaultClient)
      → try_upto
          (write_once api conf.vault_login_path (login_data conf client_token))
          3
          (record { calls = 0; secret = none })
        ≡ o
      → decided api conf o ≡ ok client
      → (token : String) × (client.token ≡ some token) × IsLoggedIn conf client_token token
  decided-ok conf client_token (l, some e) client q h = cc
  decided-ok conf client_token (l, none) client q h =
      let (token, s, t, a) = with_secret-ok conf.vault_addr l.secret client h in
      let (c, b, w) =
        answered conf.vault_login_path (login_data conf client_token) 2
          (record { calls = 0; secret = none }) l q in
      (token, t, (c, omega (arith, b), w ∙ ap (λ v. (v, none)) s))

  log_in-ok :
      (conf : VaultConfig) (client_token : String) (client : VaultClient)
      → log_in api conf client_token ≡ ok client
      → (token : String) × (client.token ≡ some token) × IsLoggedIn conf client_token token
  log_in-ok conf client_token client h =
      decided-ok conf client_token _ client refl (sym (by_tries api conf client_token) ∙ h)

  nonempty : (s : String) → (s == "") ≡ false → s ≢ ""
  nonempty s p e = let q = (eq_iff s "").1 e in cc

  after_file-ok :
      (conf : VaultConfig) (file : Option String) (client : VaultClient)
      → after_file api conf file ≡ ok client
      → (client_token : String) × (file ≡ some client_token)
        × (client_token ≢ "")
        × (token : String) × (client.token ≡ some token)
        × IsLoggedIn conf client_token token
  unfolding after_file
  after_file-ok conf none client h = cc
  after_file-ok conf (some client_token) client h = by_emptiness (client_token == "") refl h
    where
      by_emptiness :
          (empty : Bool)
          → (client_token == "") ≡ empty
          → (if empty then err empty_token else log_in api conf client_token) ≡ ok client
          → (t : String) × (◌≡◌ {A = Option String} (some client_token) (some t))
            × (t ≢ "")
            × (token : String) × (client.token ≡ some token)
            × IsLoggedIn conf t token
      by_emptiness true p h = cc
      by_emptiness false p h =
          let (token, t, l) = log_in-ok conf client_token client h in
          (client_token, refl, nonempty client_token p, token, t, l)

  -- A client is returned only where the token comes from the environment, or where the role is
  -- "iaas-monitor", the service account has a token that is not empty, and one of the first three
  -- writes of the login, with that token and role, is answered by the client's token.
  pub new_vault_client-IsEntitled :
      (conf : Config) (vault : VaultConfig) (client : VaultClient)
      → conf.vault ≡ some vault
      → new_vault_client api conf ≡ ok client
      → IsEntitled vault client
  unfolding new_vault_client after_client after_address
  new_vault_client-IsEntitled conf vault client v h = by_client api.new_client (rw v at h)
    where
      by_role :
          (right : Bool)
          → (vault.vault_role == read_write_credentials_role) ≡ right
          → (if right
              then after_file api vault api.token_file
              else err (invalid_role vault.vault_role))
            ≡ ok client
          → IsEntitled vault client
      by_role false p h = cc
      by_role true p h =
          let (client_token, f, n, token, t, l) = after_file-ok vault api.token_file client h in
          inr (
            (eq_iff vault.vault_role read_write_credentials_role).0 p,
            client_token,
            f,
            n,
            token,
            t,
            l,
          )

      by_environment :
          (from_env : Bool)
          → vault.vault_token_from_env ≡ from_env
          → (if from_env
              then ok (record { address = vault.vault_addr; token = none })
              else if vault.vault_role == read_write_credentials_role
              then after_file api vault api.token_file
              else err (invalid_role vault.vault_role))
            ≡ ok client
          → IsEntitled vault client
      by_environment true p h =
          let e : client ≡ record { address = vault.vault_addr; token = none } = cc in
          inl (p, ap (λ c. c.token) e)
      by_environment false p h = by_role (vault.vault_role == read_write_credentials_role) refl h

      by_address :
          (e : Option LoginError) → after_address api vault e ≡ ok client → IsEntitled vault client
      by_address (some e) h = cc
      by_address none h = by_environment vault.vault_token_from_env refl h

      by_client :
          (e : Option LoginError)
          → after_client api (some vault) e ≡ ok client
          → IsEntitled vault client
      by_client (some e) h = cc
      by_client none h = by_address (api.set_address vault.vault_addr) h
