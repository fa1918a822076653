-- ===== src/Main/Started.antt =====
-- That main.go never calls a method of an exporter that is nil.
use iaa_s_exporter.Prelude.{
  ℕ, zero, suc, ◌≡◌, ◌≢◌, refl, ap, String, Bool, true, false, Option, none, some, List, [], ◌∷◌,
  ◌==◌, if◌then◌else◌, eq_iff,
}
use iaa_s_exporter.Factory as Factory
use iaa_s_exporter.Prelude.Int.{pos, ltb_ℤ}
use iaa_s_exporter.Prelude.Result.{Result, ok, err, panic, fatal as exits}
use iaa_s_exporter.Constant.{provider_aws, provider_azure, provider_ali_cloud, provider_gcp}
use iaa_s_exporter.Config.{Config, read_conf}
use iaa_s_exporter.Vault.{
  Api, CloudCredentials, VaultError, unknown_provider, credentials_from_path, VaultError,
}
use iaa_s_exporter.Vault.Provider.{credentials_from_path-unknown}
use iaa_s_exporter.Vault.Login.{LoginError, VaultClient, new_vault_client}
use iaa_s_exporter.Factory.{Exporter, Collector, new_exporter, start_exporter, scrape}
use iaa_s_exporter.Main.{
  World, Ending, fatal, panicked, nil_exporter, running, Trace, stop, minutes, vault_path, ticks,
  new_ticker, first_scrape, start_all, start, after_credentials, after_client, after_conf, main,
}

none_of-new_exporter :
    (p : String)
    → new_exporter p ≡ none
    → ((p == provider_aws) ≡ false)
      × ((p == provider_azure) ≡ false)
      × ((p == provider_gcp) ≡ false)
      × ((p == provider_ali_cloud) ≡ false)
unfolding new_exporter
none_of-new_exporter p h =
    by_tests (p == provider_aws) (p == provider_azure) (p == provider_gcp) (p == provider_ali_cloud)
      h
  where
    by_tests :
        (a b g l : Bool)
        → (if a
            then some Factory.aws_exporter
            else if b
            then some Factory.azure_exporter
            else if g
            then some Factory.gcp_exporter
            else if l
            then some Factory.ali_exporter
            else none)
          ≡ none
        → (a ≡ false) × (b ≡ false) × (g ≡ false) × (l ≡ false)
    by_tests true b g l h = cc
    by_tests false true g l h = cc
    by_tests false false true l h = cc
    by_tests false false false true h = cc
    by_tests false false false false h = (refl, refl, refl, refl)

-- A provider without an exporter has no credentials.
pub no_credentials :
    (api : Api) (path p : String)
    → new_exporter p ≡ none
    → (credentials_from_path api path p 0).1 ≡ err (unknown_provider p)
no_credentials api path p h =
    let (a, b, g, l) = none_of-new_exporter p h in
    ap (λ r. r.1)
      (credentials_from_path-unknown api path p 0 (differs p provider_aws a)
        (differs p provider_azure b) (differs p provider_ali_cloud l) (differs p provider_gcp g))
  where
    differs : (s t : String) → (s == t) ≡ false → s ≢ t
    differs s t h e = let q = (eq_iff s t).1 e in cc

abbrev IsSafe : Trace → Type 0
IsSafe t = t.ending ≢ nil_exporter

if-IsSafe : (b : Bool) (t u : Trace) → IsSafe t → IsSafe u → IsSafe (if b then t else u)
if-IsSafe true t u p q = p
if-IsSafe false t u p q = q

stop-IsSafe : (how : Ending) → how ≢ nil_exporter → IsSafe (stop how)
stop-IsSafe how h = h

fatal_safe : fatal ≢ nil_exporter
fatal_safe h = cc

panicked_safe : panicked ≢ nil_exporter
panicked_safe h = cc

running_safe : running ≢ nil_exporter
running_safe h = cc

module _ (w : World) where
  ticks-IsSafe : (e : Exporter) (i n : ℕ) → IsSafe (ticks w e i n)
  unfolding ticks
  ticks-IsSafe e i zero = running_safe
  ticks-IsSafe e i (suc n) =
      if-IsSafe (w.scrapes i (scrape e)) _ _ (ticks-IsSafe e (suc i) n) panicked_safe

  first_scrape-IsSafe : (e : Exporter) (conf : Config) (n : ℕ) → IsSafe (first_scrape w e conf n)
  unfolding first_scrape new_ticker
  first_scrape-IsSafe e conf n =
      if-IsSafe (w.scrapes 0 (scrape e)) _ _
        (if-IsSafe (ltb_ℤ (pos 0) (minutes conf.scraping_duration)) _ _ (ticks-IsSafe e 1 n)
          panicked_safe)
        panicked_safe

  start_all-IsSafe :
      (cs : List Collector) (conf : Config) (credential : CloudCredentials) (next : Trace)
      → IsSafe next
      → IsSafe (start_all w cs conf credential next)
  unfolding start_all
  start_all-IsSafe [] conf credential next h = h
  start_all-IsSafe (c ∷ cs) conf credential next h =
      if-IsSafe (w.constructs c conf credential) _ _ (start_all-IsSafe cs conf credential next h)
        panicked_safe

  after_credentials-IsSafe :
      (exporter : Option Exporter) (conf : Config) (n : ℕ) (r : Result VaultError CloudCredentials)
      (e : VaultError)
      → (exporter ≡ none → r ≡ err e)
      → IsSafe (after_credentials w exporter conf n r)
  unfolding after_credentials start
  after_credentials-IsSafe exporter conf n (err e) u h = fatal_safe
  after_credentials-IsSafe exporter conf n panic u h = panicked_safe
  after_credentials-IsSafe exporter conf n exits u h = fatal_safe
  after_credentials-IsSafe none conf n (ok credential) u h = let q = h refl in cc
  after_credentials-IsSafe (some e) conf n (ok credential) u h =
      start_all-IsSafe (start_exporter e) conf credential _ (first_scrape-IsSafe e conf n)

  after_client-IsSafe :
      (conf : Config) (n : ℕ) (r : Result LoginError VaultClient) → IsSafe (after_client w conf n r)
  unfolding after_client
  after_client-IsSafe conf n (err e) = fatal_safe
  after_client-IsSafe conf n panic = panicked_safe
  after_client-IsSafe conf n exits = fatal_safe
  after_client-IsSafe conf n (ok client) =
      after_credentials-IsSafe (new_exporter conf.provider) conf n _
        (unknown_provider conf.provider)
        (no_credentials (w.vault client) (vault_path conf) conf.provider)

  after_conf-IsSafe : (n : ℕ) (r : Result String Config) → IsSafe (after_conf w n r)
  unfolding after_conf
  after_conf-IsSafe n (err e) = fatal_safe
  after_conf-IsSafe n panic = panicked_safe
  after_conf-IsSafe n exits = fatal_safe
  after_conf-IsSafe n (ok conf) = after_client-IsSafe conf n (new_vault_client w.login conf)

  -- Although `NewExporter` returns nil for an unknown provider and `main` does not test for it, no
  -- method is ever called on nil: the credentials of such a provider are an error before that.
  pub main-never_nil : (n : ℕ) → (main w n).ending ≢ nil_exporter
  unfolding main
  main-never_nil n = after_conf-IsSafe n (read_conf w.stat w.read_file w.unmarshal "./config.yaml")
