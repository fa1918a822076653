-- ===== src/Main.antt =====
-- main.go, from the configuration to the loop of the ticker. The file system, yaml, Vault and the
-- clients of the collectors enter as `World`.
pub mod Started
pub mod Planned
mod Tests
use iaa_s_exporter.Prelude.{
  ℕ, zero, suc, String, Bool, true, false, Option, none, some, List, [], ◌∷◌, ◌++◌, if◌then◌else◌,
}
use iaa_s_exporter.Prelude.Int.{ℤ, pos, times, ltb_ℤ}
use iaa_s_exporter.Prelude.Word.{wrap64}
use iaa_s_exporter.Prelude.Result.{Result, ok, err, panic, fatal as exits}
use iaa_s_exporter.Config.{Config, Stat, read_conf}
use iaa_s_exporter.Vault.{Api, CloudCredentials, VaultError, credentials_from_path}
use iaa_s_exporter.Vault.Login.{LoginApi, LoginError, VaultClient, new_vault_client}
use iaa_s_exporter.Factory.{
  Exporter, Collector, aws_quota, azure_quota, gcp_quota, ali_quota, ali_health, new_exporter,
  start_exporter, scrape,
}
use Prim.Native.String.{◌++◌ as concat}

pub record World : Type 0 where
  pub stat : String → Stat
  pub read_file : String → Result String String
  pub unmarshal : String → Result String Config
  pub login : LoginApi
  pub vault : VaultClient → Api
  -- whether a collector's constructor and its registration return
  pub constructs : Collector → Config → CloudCredentials → Bool
  -- whether a collector's scrape with this number returns
  pub scrapes : ℕ → Collector → Bool

-- What the process does that shows outside `main`; a scrape of the loop is a goroutine that starts.
pub data Step : Type 0 where
  new_cache : ℤ → ℤ → Step
  registered scraped : Collector → Step
  listening : Step

-- `nil_exporter` is the panic of a method call on the nil that `NewExporter` returns.
pub data Ending : Type 0 where
  fatal panicked nil_exporter running : Ending

pub record Trace : Type 0 where
  pub steps : List Step
  pub ending : Ending

abbrev pub stop : Ending → Trace
stop how = record { steps = []; ending = how }

abbrev pub first : List Step → Trace → Trace
first steps t = record { steps = steps ++ t.steps; ending = t.ending }

-- time.Duration(n) * time.Minute
abbrev pub minutes : ℤ → ℤ
minutes n = wrap64 (times n 60000000000)

-- What a constructor does beside building its client: that of GCP's quotas replaces the cache.
abbrev pub constructed : Collector → List Step
constructed gcp_quota = new_cache (minutes (pos 6)) (minutes (pos 10)) ∷ registered gcp_quota ∷ []
constructed aws_quota = registered aws_quota ∷ []
constructed azure_quota = registered azure_quota ∷ []
constructed ali_quota = registered ali_quota ∷ []
constructed ali_health = registered ali_health ∷ []

abbrev pub vault_path : Config → String
vault_path conf = concat conf.project (
    concat "/static/" (
      concat conf.provider
        (concat "/" (concat conf.cloud_provider_account_vault_subpath "/deployment"))))

module _ (w : World) where
  -- This many ticks of the loop, from the scrape with a number.
  unfoldable pub ticks : Exporter → ℕ → ℕ → Trace
  ticks e number zero = stop running
  ticks e number (suc n) =
      let rest = ticks e (suc number) n in
      first (scraped (scrape e) ∷ []) (if w.scrapes number (scrape e) then rest else stop panicked)

  -- time.NewTicker panics unless its duration is positive.
  unfoldable pub new_ticker : Exporter → Config → ℕ → Trace
  unfolding ticks
  new_ticker e conf n =
      if ltb_ℤ (pos 0) (minutes conf.scraping_duration) then ticks e 1 n else stop panicked

  unfoldable pub first_scrape : Exporter → Config → ℕ → Trace
  unfolding new_ticker
  first_scrape e conf n = first (scraped (scrape e) ∷ []) (
      if w.scrapes 0 (scrape e)
      then first (listening ∷ []) (new_ticker e conf n)
      else stop panicked)

  unfoldable pub start_all : List Collector → Config → CloudCredentials → Trace → Trace
  start_all [] conf credential next = next
  start_all (c ∷ cs) conf credential next =
      let rest = start_all cs conf credential next in
      if w.constructs c conf credential then first (constructed c) rest else stop panicked

  unfoldable pub start : Option Exporter → Config → ℕ → CloudCredentials → Trace
  unfolding start_all first_scrape
  start none conf n credential = stop nil_exporter
  start (some e) conf n credential =
      start_all (start_exporter e) conf credential (first_scrape e conf n)

  unfoldable pub after_credentials :
      Option Exporter → Config → ℕ → Result VaultError CloudCredentials → Trace
  unfolding start
  after_credentials exporter conf n (err e) = stop fatal
  after_credentials exporter conf n panic = stop panicked
  after_credentials exporter conf n exits = stop fatal
  after_credentials exporter conf n (ok credential) =
      first (new_cache (minutes conf.cache_expiration) (minutes conf.cache_cleanup_interval) ∷ [])
        (start exporter conf n credential)

  unfoldable pub after_client : Config → ℕ → Result LoginError VaultClient → Trace
  unfolding after_credentials new_exporter
  after_client conf n (err e) = stop fatal
  after_client conf n panic = stop panicked
  after_client conf n exits = stop fatal
  after_client conf n (ok client) =
      after_credentials (new_exporter conf.provider) conf n
        (credentials_from_path (w.vault client) (vault_path conf) conf.provider 0).1

  unfoldable pub after_conf : ℕ → Result String Config → Trace
  unfolding after_client new_vault_client
  after_conf n (err e) = stop fatal
  after_conf n panic = stop panicked
  after_conf n exits = stop fatal
  after_conf n (ok conf) = after_client conf n (new_vault_client w.login conf)

  -- `main`, up to a number of ticks.
  unfoldable pub main : ℕ → Trace
  unfolding after_conf read_conf
  main n = after_conf n (read_conf w.stat w.read_file w.unmarshal "./config.yaml")
