-- ===== src/Quota/Aws/Scrape/Panics.antt =====
-- When a scrape of pkg/cloud/aws/quota/aws_quota.go panics.
use iaa_s_exporter.Prelude.{
  ◌≡◌, refl, String, true, Option, none, some, List, [], ◌∷◌, ◌==◌, eq_iff, Bool-cases, inl, inr,
  ◌⊎◌,
}
use iaa_s_exporter.Prelude.Dict.{lookup}
use iaa_s_exporter.Quota.{Float64}
use iaa_s_exporter.Quota.Aws.{quota_code_list, contains, Globals, Directory, initial_quota_list}
use iaa_s_exporter.Quota.Aws.Usage.{Clients, F, current_value, on_demand_instances}
use iaa_s_exporter.Quota.Aws.Scrape.{set_current, goroutine, both, goroutines, scrape}

module _ (float : Float64) (dir : Directory (F float)) (clients : Clients (F float)) where
  goroutines-panics :
      (g : Globals (F float)) (code : String) (codes : List String)
      → contains codes code ≡ true
      → goroutine float clients g code ≡ none
      → goroutines float clients g codes ≡ none
  unfolding contains goroutines
  goroutines-panics g code [] k h = cc
  goroutines-panics g code (c ∷ codes) k h = elim (Bool-cases (c == code)) [
    | inl p ↦ let same : c ≡ code = (eq_iff c code).0 p in rw (same, h) refl
    | inr p ↦
        rw (goroutines-panics g code codes (rw p at k) h) (none_right (goroutine float clients g c))
  ]
    where
      none_right : {A : Type 0} (o : Option A) → both o none ≡ none
      none_right none = refl
      none_right (some a) = refl

  -- When the quotas are set up, but lack one of the three that count on-demand instances, the scrape
  -- panics: the goroutine dereferences the nil `UsageMetric` of a missing quota.
  pub aws_scrape-panics :
      (g g' : Globals (F float)) (code : String)
      → initial_quota_list dir g ≡ some g'
      → (code ≡ "L-43DA4232") ⊎ (code ≡ "L-7295265B") ⊎ (code ≡ "L-1216C47A")
      → lookup code g'.service_quota_map ≡ none
      → scrape float dir clients g ≡ none
  unfolding scrape contains goroutine current_value on_demand_instances set_current
  aws_scrape-panics g g' code s k l =
      let (listed, crash) = crashes k in
      rw (s, goroutines-panics g' code quota_code_list listed crash) refl
    where
      crashes :
          (code ≡ "L-43DA4232") ⊎ (code ≡ "L-7295265B") ⊎ (code ≡ "L-1216C47A")
          → (contains quota_code_list code ≡ true) × (goroutine float clients g' code ≡ none)
      crashes (inl e) = rw e (refl, rw (rw e at l) refl)
      crashes (inr (inl e)) = rw e (refl, rw (rw e at l) refl)
      crashes (inr (inr e)) = rw e (refl, rw (rw e at l) refl)
