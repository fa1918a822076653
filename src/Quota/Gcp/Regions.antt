-- ===== src/Quota/Gcp/Regions.antt =====
-- What is left of the quotas of several regions in pkg/cloud/gcp/gcp_quota.go: the cache has one
-- entry for each metric, whatever the region.
use iaa_s_exporter.Prelude.{
  ◌≡◌, refl, String, Bool, true, false, some, List, [], ◌∷◌, ◌++◌, ap, sym, ◌∙◌, All, All-append,
  Bool-cases, inl, inr, Option, not, ◌&&◌, ◌==◌,
}
use mathlib.Core.List.{append-nil, append_assoc, Memᴰ}
use iaa_s_exporter.Prelude.Dict.{lookup}
use iaa_s_exporter.Quota.{Float64, Cache}
use iaa_s_exporter.Quota.Gauges.{quota_current, quota_limit, IsShown, set_gauges-IsShown}
use iaa_s_exporter.Quota.Sets.{
  Op, last_set, last_set-append, apply, lookup-apply, last_where, set_where, last_set-set_where,
}
use iaa_s_exporter.Prelude.Dict.{or_else}
use iaa_s_exporter.Quota.Gcp.{
  F, Quota, Project, Region, Result, set_used, set_regions, scrape, labels_of, collect, result_of,
  underscores_to_spaces, decimal,
}

module _ (float : Float64) (region : String) (project : Project (F float)) where
  set_regions-snoc :
      (rs : List (Region (F float))) (r : Region (F float))
      → set_regions float region project (rs ++ r ∷ [])
        ≡ set_regions float region project rs ++ set_used float region project true r.quotas
  unfolding set_regions
  set_regions-snoc [] r = append-nil _
  set_regions-snoc (x ∷ rs) r =
      ap (λ l. set_used float region project true x.quotas ++ l) (set_regions-snoc rs r)
      ∙ sym (append_assoc (set_used float region project true x.quotas) _ _)

  set_used-region :
      (regional : Bool) (qs : List (Quota (F float)))
      → All
          (λ (op : Op (Result (F float))). op.1.region ≡ region)
          (set_used float region project regional qs)
  unfolding set_used
  set_used-region regional [] = tt
  set_used-region regional (q ∷ qs) = elim (Bool-cases (float.is_zero q.usage)) [
    | inl p ↦ rw p (set_used-region regional qs)
    | inr p ↦ rw p (refl, set_used-region regional qs)
  ]

  set_regions-region :
      (rs : List (Region (F float)))
      → All
          (λ (op : Op (Result (F float))). op.1.region ≡ region)
          (set_regions float region project rs)
  unfolding set_regions
  set_regions-region [] = tt
  set_regions-region (r ∷ rs) =
      All-append _ (set_used float region project true r.quotas)
        (set_regions float region project rs) (set_used-region true r.quotas)
        (set_regions-region rs)

  -- Every result carries the configured region, also those of the quotas of other regions.
  pub scrape-region :
      (rs : List (Region (F float)))
      → All
          (λ (op : Op (Result (F float))). op.1.region ≡ region)
          (scrape float region (some project) (some rs)).ops
  unfolding scrape
  scrape-region rs =
      All-append _ (set_used float region project false project.quotas)
        (set_regions float region project rs) (set_used-region false project.quotas)
        (set_regions-region rs)

  abbrev is_used : Quota (F float) → Bool
  is_used q = not (float.is_zero q.usage)

  -- The last quota in the list that is in use and has the metric.
  abbrev pub last_used : String → List (Quota (F float)) → Option (Quota (F float))
  last_used metric = last_where (λ q. is_used q && (q.metric == metric))

  -- What the cache holds for a quota.
  abbrev pub entry_of : Bool → Quota (F float) → Result (F float)
  entry_of regional q = record {
    quota_result = record {
      quota_name = underscores_to_spaces q.metric;
      quota_code = q.metric;
      limit_value = q.limit;
      current_value = q.usage;
      unit = "";
    };
    region = region;
    project = project;
    regional = regional;
  }

  set_used-set_where :
      (regional : Bool) (qs : List (Quota (F float)))
      → set_used float region project regional qs
        ≡ set_where is_used (λ q. q.metric) (entry_of regional) qs
  unfolding set_used set_where result_of
  set_used-set_where regional [] = refl
  set_used-set_where regional (q ∷ qs) = elim (Bool-cases (float.is_zero q.usage)) [
    | inl p ↦ rw (p, set_used-set_where regional qs) refl
    | inr p ↦ rw (p, set_used-set_where regional qs) refl
  ]

  abbrev pub shown_labels : Quota (F float) → List String
  shown_labels q =
      "true"
      ∷ region
      ∷ q.metric
      ∷ underscores_to_spaces q.metric
      ∷ decimal project.id
      ∷ project.name
      ∷ []

  -- If a quota of the last region of the list is the last there that is in use and has its metric,
  -- then the cache has that quota under the metric, whatever the project and the other regions report
  -- for it, and `Collect` sets its usage and its limit. The result names the configured region and
  -- not the one that was read.
  pub scrape-last_region :
      (cache : Cache (Result (F float))) (c : cache.carrier) (rs : List (Region (F float)))
      (r : Region (F float)) (metric : String) (q : Quota (F float))
      → last_used metric r.quotas ≡ some q
      → let s = scrape float region (some project) (some (rs ++ r ∷ [])) in
        (s.crashed ≡ false)
        × (lookup metric (cache.items (apply cache s.ops c)) ≡ some (entry_of true q))
        × Memᴰ
            (record { vector = quota_current; labels = shown_labels q; value = q.usage })
            (collect float (cache.items (apply cache s.ops c)))
        × Memᴰ
            (record { vector = quota_limit; labels = shown_labels q; value = q.limit })
            (collect float (cache.items (apply cache s.ops c)))
  unfolding scrape collect labels_of
  scrape-last_region cache c rs r metric q u = (refl, cached, shown.0, shown.1)
    where
      h : last_set metric (set_used float region project true r.quotas) ≡ some (entry_of true q)
      h =
          ap (last_set metric) (set_used-set_where true r.quotas)
          ∙ last_set-set_where is_used (λ x. x.metric) (entry_of true) metric r.quotas
          ∙ rw u refl

      own : List (Op (Result (F float)))
      own = set_used float region project false project.quotas

      all : List (Op (Result (F float)))
      all = own ++ set_regions float region project (rs ++ r ∷ [])

      last : last_set metric all ≡ some (entry_of true q)
      last =
          last_set-append metric own (set_regions float region project (rs ++ r ∷ []))
          ∙ ap (λ l. or_else (last_set metric l) (last_set metric own)) (set_regions-snoc rs r)
          ∙ ap (λ o. or_else o (last_set metric own))
              (last_set-append metric (set_regions float region project rs)
                (set_used float region project true r.quotas))
          ∙ rw h refl

      cached : lookup metric (cache.items (apply cache all c)) ≡ some (entry_of true q)
      cached =
          lookup-apply cache metric all c ∙ ap (λ l. or_else l (lookup metric (cache.items c))) last

      shown :
          IsShown
            (labels_of float)
            (λ y. y.quota_result)
            (entry_of true q)
            (collect float (cache.items (apply cache all c)))
      shown =
          set_gauges-IsShown (labels_of float) (λ y. y.quota_result) _ metric (entry_of true q)
            cached
