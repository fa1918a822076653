-- ===== src/Vault/Secrets.antt =====
-- What one read of a secret returns, by the answers of the Vault API.
use iaa_s_exporter.Prelude.{
  ℕ, zero, suc, ◌+◌, ◌≤◌, ◌≡◌, refl, ◌∙◌, ap, String, Option, none, some, arith, false, ◌==◌,
}
use iaa_s_exporter.Prelude.Dict.{Dict, lookup}
use iaa_s_exporter.Prelude.Result.{Result, err, panic}
use iaa_s_exporter.Errorutil.Retry.{Ended}
use iaa_s_exporter.Errorutil.Retry.Outcome.{try_upto, ending, retry_on_err_lem}
use iaa_s_exporter.Errorutil.Retry.Numbered.{or_else-some}
use iaa_s_exporter.Errorutil.Retry.Numbered as Numbered
use iaa_s_exporter.Vault.{
  Api, Reading, Value, other, VaultError, read_secret, value_of, read_once, after_retries,
  read_secret_v1, text_of,
}

module _ (api : Api) (path : String) where
  -- The call numbered c and the k calls after it: the first k fail, and the last one answers.
  abbrev pub Answers : ℕ → ℕ → Option (Dict Value) → Type 0
  Answers c k secret = Numbered.Answers (λ n. api.read n path) c k secret

  -- k calls in a row fail, from the call numbered c.
  abbrev pub Fails : ℕ → ℕ → Type 0
  Fails c zero = Unit
  Fails c (suc k) = ((e : VaultError) × ((api.read c path).1 ≡ some e)) × Fails (suc c) k

  abbrev decided : String → Reading × Option VaultError → ℕ × Result VaultError String
  decided key (r, none) = (r.calls, value_of api path key r.secret)
  decided key (r, some e) = (r.calls, err (read_secret path))

  abbrev finish : String → Reading × Ended VaultError → ℕ × Result VaultError String
  finish key (r, e) = (r.calls, after_retries api path key r e)

  finish-ending :
      (key : String) (o : Reading × Option VaultError) → finish key (ending o) ≡ decided key o
  unfolding after_retries
  finish-ending key (r, none) = refl
  finish-ending key (r, some e) = refl

  by_attempts :
      (key : String) (c : ℕ)
      → read_secret_v1 api path key c
        ≡ decided key (try_upto (read_once api path) 3 (record { calls = c; secret = none }))
  unfolding read_secret_v1
  by_attempts key c =
      ap (finish key) (
        retry_on_err_lem (read_once api path) (api.draws c) 3 5000000000
          (record { calls = c; secret = none }) (omega arith) (omega arith) (omega arith))
      ∙ finish-ending key _

  first_answer :
      (n k c : ℕ) (secret s : Option (Dict Value))
      → k ≤ n
      → Answers c k secret
      → try_upto (read_once api path) (suc n) (record { calls = c; secret = s })
        ≡ (record { calls = suc (c + k); secret = secret }, none)
  unfolding read_once
  first_answer n k c secret s h a =
      Numbered.try_upto-Answers (λ n. api.read n path) (read_once api path)
        (λ n last. record { calls = n; secret = last }) (λ n last. refl) n k c s secret h a

  all_fail :
      (n c : ℕ) (s : Option (Dict Value))
      → Fails c (suc n)
      → (r : Reading) × (e : VaultError) × (try_upto
            (read_once api path)
            (suc n)
            (record { calls = c; secret = s })
          ≡ (r, some e))
        × (r.calls ≡ suc (c + n))
  unfolding try_upto read_once
  all_fail zero c s f =
      ((read_once api path (record { calls = c; secret = s })).0, f.0.0, rw f.0.1 refl, omega arith)
  all_fail (suc n) c s f =
      let (r, e, q, count) = all_fail n (suc c) (api.read c path).0 f.1 in
      (
        r,
        e,
        rw (or_else-some (read_once api path (record { calls = c; secret = s })) _ f.0.1) q,
        omega arith,
      )

  -- If at most two calls fail before one answers, the failures do not show: the result is made of
  -- the secret in the first answer, and no further call is made.
  pub read_secret_v1-Answers :
      (key : String) (c k : ℕ) (secret : Option (Dict Value))
      → k ≤ 2
      → Answers c k secret
      → read_secret_v1 api path key c ≡ (suc (c + k), value_of api path key secret)
  read_secret_v1-Answers key c k secret h a =
      by_attempts key c ∙ ap (decided key) (first_answer 2 k c secret none h a)

  -- If three calls in a row fail, there are no more calls and the read fails as `ErrVaultReadSecret`.
  pub read_secret_v1-Fails :
      (key : String) (c : ℕ)
      → Fails c 3
      → read_secret_v1 api path key c ≡ (c + 3, err (read_secret path))
  read_secret_v1-Fails key c f =
      let (r, e, q, count) = all_fail 2 c none f in
      by_attempts key c ∙ ap (decided key) q ∙ ap (λ n. (n, err (read_secret path))) last
    where
      last : (all_fail 2 c none f).0.calls ≡ c + 3
      last = omega (arith, (all_fail 2 c none f).3)

  -- A secret that holds something else than a string under the key that is asked for makes the
  -- read panic, in place of returning an error.
  pub read_secret_v1-panics :
      (key : String) (c k : ℕ) (secret : Dict Value)
      → k ≤ 2
      → Answers c k (some secret)
      → (key == "gcp_service_account") ≡ false
      → lookup key secret ≡ some other
      → (read_secret_v1 api path key c).1 ≡ panic
  read_secret_v1-panics key c k secret h a g o =
      rw (read_secret_v1-Answers key c k (some secret) h a)
        (unfold value_of text_of in rw (g, o) refl)
