-- ===== src/Main/Planned.antt =====
-- What the process of main.go does for each provider, step by step.
use iaa_s_exporter.Prelude.{
  ℕ, zero, suc, ◌≡◌, refl, ap, String, Bool, true, false, none, some, List, [], ◌∷◌, ◌++◌, ◌==◌,
  if◌then◌else◌, ◌≢◌,
}
use iaa_s_exporter.Prelude.Int.{pos, times, ltb_ℤ}
use iaa_s_exporter.Prelude.Word.{wrap64}
use iaa_s_exporter.Prelude.Result.{ok}
use iaa_s_exporter.Config.{Config, read_conf}
use iaa_s_exporter.Vault.{CloudCredentials, credentials_from_path}
use iaa_s_exporter.Vault.Login.{VaultClient, new_vault_client}
use iaa_s_exporter.Factory.{
  Exporter, Collector, aws_quota, azure_quota, gcp_quota, ali_quota, ali_health, aws_exporter,
  azure_exporter, gcp_exporter, ali_exporter, new_exporter, start_exporter, scrape,
}
use iaa_s_exporter.Main.{
  World, Step, new_cache, registered, scraped, listening, panicked, running, Trace, stop, first,
  vault_path, ticks, new_ticker, first_scrape, start_all, start, after_credentials, after_client,
  after_conf, main,
}
use iaa_s_exporter.Main.Started.{no_credentials}

-- A step that shows, or a call that panics unless the condition holds.
pub data Act : Type 0 where
  does : Step → Act
  returns : Bool → Act

-- The acts in order, up to the first call that panics.
unfoldable pub perform : List Act → Trace
perform [] = stop running
perform (does step ∷ acts) = first (step ∷ []) (perform acts)
perform (returns b ∷ acts) = let rest = perform acts in if b then rest else stop panicked

module _ (w : World) (conf : Config) (credential : CloudCredentials) where
  -- n scrapes by the collector, from the one numbered i.
  abbrev pub scrapes_from : Collector → ℕ → ℕ → List Act
  scrapes_from c i zero = []
  scrapes_from c i (suc n) = does (scraped c) ∷ returns (w.scrapes i c) ∷ scrapes_from c (suc i) n

  -- The first scrape, the server, the ticker, and a scrape at each of n ticks.
  abbrev pub serving : Collector → ℕ → List Act
  serving c n =
      does (scraped c)
      ∷ returns (w.scrapes 0 c)
      ∷ does listening
      ∷ returns (ltb_ℤ (pos 0) (wrap64 (times conf.scraping_duration 60000000000)))
      ∷ scrapes_from c 1 n

  -- The constructor of the collector, and its registration.
  abbrev pub set_up : Collector → List Act
  set_up c = returns (w.constructs c conf credential) ∷ does (registered c) ∷ []

  -- The constructor of GCP's quotas sets up a cache that expires after 6 minutes.
  abbrev pub gcp_set_up : List Act
  gcp_set_up =
      returns (w.constructs gcp_quota conf credential)
      ∷ does (new_cache (pos 360000000000) (pos 600000000000))
      ∷ does (registered gcp_quota)
      ∷ []

  abbrev pub provided : String → ℕ → List Act
  provided provider n =
      if provider == "aws"
      then set_up aws_quota ++ serving aws_quota n
      else if provider == "azure"
      then set_up azure_quota ++ serving azure_quota n
      else if provider == "gcp"
      then gcp_set_up ++ serving gcp_quota n
      else set_up ali_quota ++ (set_up ali_health ++ serving ali_quota n)

  -- The process from the cache on.
  abbrev pub planned : ℕ → List Act
  planned n =
      does (
        new_cache (wrap64 (times conf.cache_expiration 60000000000))
          (wrap64 (times conf.cache_cleanup_interval 60000000000)))
      ∷ provided conf.provider n

  ticks_lem : (e : Exporter) (i n : ℕ) → ticks w e i n ≡ perform (scrapes_from (scrape e) i n)
  unfolding ticks perform
  ticks_lem e i zero = refl
  ticks_lem e i (suc n) = rw (ticks_lem e (suc i) n) refl

  first_scrape_lem :
      (e : Exporter) (n : ℕ) → first_scrape w e conf n ≡ perform (serving (scrape e) n)
  unfolding first_scrape new_ticker perform
  first_scrape_lem e n = rw (ticks_lem e 1 n) refl

  aws_started :
      (n : ℕ)
      → start w (some aws_exporter) conf n credential
        ≡ perform (set_up aws_quota ++ serving aws_quota n)
  unfolding start start_all perform
  aws_started n =
      ap (start_all w (start_exporter aws_exporter) conf credential)
        (first_scrape_lem aws_exporter n)

  azure_started :
      (n : ℕ)
      → start w (some azure_exporter) conf n credential
        ≡ perform (set_up azure_quota ++ serving azure_quota n)
  unfolding start start_all perform
  azure_started n =
      ap (start_all w (start_exporter azure_exporter) conf credential)
        (first_scrape_lem azure_exporter n)

  gcp_started :
      (n : ℕ)
      → start w (some gcp_exporter) conf n credential ≡ perform (gcp_set_up ++ serving gcp_quota n)
  unfolding start start_all perform wrap64
  gcp_started n =
      ap (start_all w (start_exporter gcp_exporter) conf credential)
        (first_scrape_lem gcp_exporter n)

  ali_started :
      (n : ℕ)
      → start w (some ali_exporter) conf n credential
        ≡ perform (set_up ali_quota ++ (set_up ali_health ++ serving ali_quota n))
  unfolding start start_all perform
  ali_started n =
      ap (start_all w (start_exporter ali_exporter) conf credential)
        (first_scrape_lem ali_exporter n)

  provider_started :
      (n : ℕ)
      → new_exporter conf.provider ≢ none
      → start w (new_exporter conf.provider) conf n credential ≡ perform (provided conf.provider n)
  unfolding new_exporter
  provider_started n known =
      by_tests (conf.provider == "aws") (conf.provider == "azure") (conf.provider == "gcp")
        (conf.provider == "alicloud") known
    where
      by_tests :
          (a b g l : Bool)
          → (if a
              then some aws_exporter
              else if b
              then some azure_exporter
              else if g
              then some gcp_exporter
              else if l
              then some ali_exporter
              else none)
            ≢ none
          → start w
              (if a
                then some aws_exporter
                else if b
                then some azure_exporter
                else if g
                then some gcp_exporter
                else if l
                then some ali_exporter
                else none)
              conf
              n
              credential
            ≡ perform (
                if a
                then set_up aws_quota ++ serving aws_quota n
                else if b
                then set_up azure_quota ++ serving azure_quota n
                else if g
                then gcp_set_up ++ serving gcp_quota n
                else set_up ali_quota ++ (set_up ali_health ++ serving ali_quota n))
      by_tests true b g l h = aws_started n
      by_tests false true g l h = azure_started n
      by_tests false false true l h = gcp_started n
      by_tests false false false true h = ali_started n
      by_tests false false false false h = absurd (h refl)

-- Where the configuration is read, the Vault client is made and the credentials are found, the
-- process sets up the cache, builds and registers the collectors of the provider ("aws": the quotas
-- of AWS; "azure": those of Azure; "gcp": those of GCP, with a cache of its own that expires after 6
-- minutes; "alicloud": the quotas and the health events of AliCloud), scrapes the quotas, listens,
-- sets up the ticker, which panics for a duration that is not positive, and scrapes at each tick. It
-- panics at the first constructor or scrape that does, and else runs on.
pub main_lem :
    (w : World) (conf : Config) (client : VaultClient) (credential : CloudCredentials) (n : ℕ)
    → read_conf w.stat w.read_file w.unmarshal "./config.yaml" ≡ ok conf
    → new_vault_client w.login conf ≡ ok client
    → (credentials_from_path (w.vault client) (vault_path conf) conf.provider 0).1 ≡ ok credential
    → main w n ≡ perform (planned w conf credential n)
unfolding main after_conf after_client after_credentials perform
main_lem w conf client credential n r v c =
    rw (r, v, c) (ap (first (cache ∷ [])) (provider_started w conf credential n known))
  where
    cache : Step
    cache =
        new_cache (wrap64 (times conf.cache_expiration 60000000000))
          (wrap64 (times conf.cache_cleanup_interval 60000000000))

    known : new_exporter conf.provider ≢ none
    known h = let e = no_credentials (w.vault client) (vault_path conf) conf.provider h in cc
