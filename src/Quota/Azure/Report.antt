-- ===== src/Quota/Azure/Report.antt =====
-- From a scrape of pkg/cloud/azure/azure_quota.go to the gauges that `Collect` sets.
use iaa_s_exporter.Prelude.{◌≡◌, String, some, List, [], ◌∷◌, map, ap, ◌∙◌}
use iaa_s_exporter.Prelude.Dict.{lookup}
use iaa_s_exporter.Quota.{Float64, QuotaResult, Cache}
use iaa_s_exporter.Quota.Gauges.{IsShown, set_gauges-IsShown}
use iaa_s_exporter.Quota.Sets.{Op, apply, lookup-apply}
use iaa_s_exporter.Prelude.Dict.{or_else}
use iaa_s_exporter.Quota.Interleave.{SetByOne, Interleaves-last_set}
use iaa_s_exporter.Prelude.Interleave.{Interleaves}
use iaa_s_exporter.Quota.Azure.{F, Scrapes, labels_of, collect}
use iaa_s_exporter.Quota.Azure.Usages.{Named, usage_of, no_error, reports, collect_reports}

module _ (float : Float64) (region subscription_id subscription_name : String) where
  -- A result that only one of the three goroutines reports under its code is in the cache after the
  -- scrape, in whatever order the goroutines set theirs, and `Collect` then sets both of its gauges.
  pub azure_scrape-IsShown :
      (cache : Cache (QuotaResult (F float))) (c : cache.carrier)
      (network storage compute : List Named) (zs : List (Op (QuotaResult (F float))))
      → Scrapes float
          (map (λ u. no_error (usage_of u)) network)
          (some (some (map usage_of storage)))
          (map (λ u. no_error (usage_of u)) compute)
          zs
      → (j : String) (r : QuotaResult (F float))
      → SetByOne j
          (some r)
          (reports float network ∷ reports float storage ∷ reports float compute ∷ [])
      → (lookup j (cache.items (apply cache zs c)) ≡ some r)
        × IsShown
            (labels_of float region subscription_id subscription_name)
            (λ r. r)
            r
            (collect float region subscription_id subscription_name
              (cache.items (apply cache zs c)))
  unfolding collect
  azure_scrape-IsShown cache c network storage compute zs i j r o = (
    cached,
    set_gauges-IsShown (labels_of float region subscription_id subscription_name) (λ r. r)
        (cache.items (apply cache zs c)) j r cached,
  )
    where
      interleaved :
          Interleaves
            (reports float network ∷ reports float storage ∷ reports float compute ∷ [])
            zs
      interleaved =
          rw
            (
              ap (λ g. g.ops) (collect_reports float network).1,
              ap (λ g. g.ops) (collect_reports float storage).2,
              ap (λ g. g.ops) (collect_reports float compute).0,
            )
            at i

      cached : lookup j (cache.items (apply cache zs c)) ≡ some r
      cached =
          lookup-apply cache j zs c
          ∙ ap (λ l. or_else l (lookup j (cache.items c)))
              (Interleaves-last_set j (some r)
                (reports float network ∷ reports float storage ∷ reports float compute ∷ []) zs
                interleaved o)
