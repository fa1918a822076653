-- ===== src/Monitor/Requests/Kept.antt =====
-- What a predicate on ids says of the data that CloudWatch's results end up in.
use mathlib.Core.Path.{subst}
use iaa_s_exporter.Prelude.{
  ℕ, ◌≡◌, String, Bool, true, false, Option, none, some, List, [], ◌∷◌, ◌++◌, map, flatten, All,
  All-append, ◌==◌, if◌then◌else◌,
}
use iaa_s_exporter.Prelude.Interleave.{All-Interleaves}
use iaa_s_exporter.Monitor.{CloudwatchData}
use iaa_s_exporter.Monitor.Batches.{batches, batches_lem}
use iaa_s_exporter.Monitor.Discovery.{find_get_metric_data_by_id}
use iaa_s_exporter.Monitor.Tagged.{Gathered, fatal, panicked, gathered}
use iaa_s_exporter.Monitor.Requests.{
  MetricDataResult, first_point, pointed, of_result, join, collect_results, add_output,
  scrape_slice, scrape_slices, scrape_discovery_job_using_metric_data, AppendsAll,
}
use iaa_s_exporter.Health.Aws.{all_pages}
use native.Mathlib.Omega.{arith}

module _ {F : Type 0} (Q : String → Type 0) where
  abbrev AllQ : List (CloudwatchData F) → Type 0
  AllQ ds = All (λ d. Q d.id) ds

  abbrev AllIn : Option (List (CloudwatchData F)) → Type 0
  AllIn none = Unit
  AllIn (some ds) = AllQ ds

  abbrev MaybeQ : Option (CloudwatchData F) → Type 0
  MaybeQ none = Unit
  MaybeQ (some d) = Q d.id

  if-MaybeQ :
      (b : Bool) (d d' : Option (CloudwatchData F))
      → MaybeQ d
      → MaybeQ d'
      → MaybeQ (if b then d else d')
  if-MaybeQ true d d' q q' = q
  if-MaybeQ false d d' q q' = q'

  find-MaybeQ :
      (input : List (CloudwatchData F)) (value : String)
      → AllQ input
      → MaybeQ (find_get_metric_data_by_id input value)
  unfolding find_get_metric_data_by_id
  find-MaybeQ [] value q = tt
  find-MaybeQ (c ∷ cs) value (q, qs) =
      if-MaybeQ (c.metric_id == value) (some c) _ q (find-MaybeQ cs value qs)

  pointed-AllIn :
      (c : CloudwatchData F) (p : Option (Option (F × ℕ))) → Q c.id → AllIn (pointed c p)
  pointed-AllIn c none q = tt
  pointed-AllIn c (some none) q = (q, tt)
  pointed-AllIn c (some (some p)) q = (q, tt)

  of_result-AllIn :
      (c : Option (CloudwatchData F)) (r : MetricDataResult F) → MaybeQ c → AllIn (of_result c r)
  of_result-AllIn none r q = tt
  of_result-AllIn (some c) r q = pointed-AllIn c (first_point r.values r.timestamps) q

  join-AllIn : (a b : Option (List (CloudwatchData F))) → AllIn a → AllIn b → AllIn (join a b)
  join-AllIn none b p q = tt
  join-AllIn (some xs) none p q = tt
  join-AllIn (some xs) (some ys) p q = All-append (λ d. Q d.id) xs ys p q

  collect_results-AllIn :
      (input : List (CloudwatchData F)) (rs : List (MetricDataResult F))
      → AllQ input
      → AllIn (collect_results input rs)
  unfolding collect_results
  collect_results-AllIn input [] q = tt
  collect_results-AllIn input (r ∷ rs) q =
      join-AllIn _ _ (of_result-AllIn _ r (find-MaybeQ input r.id q))
        (collect_results-AllIn input rs q)

  abbrev GatheredQ : Gathered (CloudwatchData F) → Type 0
  GatheredQ fatal = Unit
  GatheredQ panicked = Unit
  GatheredQ (gathered outputs) = All AllQ outputs

  add_output-GatheredQ :
      (o : Option (List (CloudwatchData F))) (rest : Gathered (CloudwatchData F))
      → AllIn o
      → GatheredQ rest
      → GatheredQ (add_output o rest)
  add_output-GatheredQ none rest q h = tt
  add_output-GatheredQ (some output) fatal q h = tt
  add_output-GatheredQ (some output) panicked q h = tt
  add_output-GatheredQ (some output) (gathered outputs) q h = (q, h)

  scrape_slice-GatheredQ :
      (input : List (CloudwatchData F)) (rs : Option (List (MetricDataResult F)))
      (rest : Gathered (CloudwatchData F))
      → AllQ input
      → GatheredQ rest
      → GatheredQ (scrape_slice input rs rest)
  unfolding scrape_slice
  scrape_slice-GatheredQ input none rest q h = tt
  scrape_slice-GatheredQ input (some rs) rest q h =
      add_output-GatheredQ _ rest (collect_results-AllIn input rs q) h

  left_all : (xs ys : List (CloudwatchData F)) → AllQ (xs ++ ys) → AllQ xs × AllQ ys
  left_all [] ys q = (tt, q)
  left_all (x ∷ xs) ys (q, qs) = let (l, r) = left_all xs ys qs in ((q, l), r)

  flatten-AllQ : (ds : List (List (CloudwatchData F))) → All AllQ ds → AllQ (flatten ds)
  flatten-AllQ [] q = tt
  flatten-AllQ (d ∷ ds) (q, qs) = All-append (λ x. Q x.id) d (flatten ds) q (flatten-AllQ ds qs)

  one_each :
      (outputs : List (List (CloudwatchData F)))
      → All AllQ outputs
      → All (All AllQ) (map (λ o. o ∷ []) outputs)
  one_each [] q = tt
  one_each (o ∷ os) (q, qs) = ((q, tt), one_each os qs)

  -- Appended in any order, the data keeps what holds of all outputs.
  pub appended-AllQ :
      (outputs : List (List (CloudwatchData F))) (result : List (CloudwatchData F))
      → All AllQ outputs
      → AppendsAll outputs result
      → AllQ result
  appended-AllQ outputs result q (order, i, f) = rw f (
      flatten-AllQ order
        (All-Interleaves AllQ (map (λ o. o ∷ []) outputs) order i (one_each outputs q)))

  module _
      (get_metric_data : List (CloudwatchData F) → List (Option (List (MetricDataResult F)))) where
    scrape_slices-GatheredQ :
        (slices : List (List (CloudwatchData F)))
        → AllQ (flatten slices)
        → GatheredQ (scrape_slices get_metric_data slices)
    unfolding scrape_slices
    scrape_slices-GatheredQ [] q = tt
    scrape_slices-GatheredQ (s ∷ ss) q =
        let (here, there) = left_all s (flatten ss) q in
        scrape_slice-GatheredQ s (all_pages (get_metric_data s)) _ here
          (scrape_slices-GatheredQ ss there)

    -- Whatever CloudWatch answers, and in whichever order the outputs are appended, the data that
    -- is appended has ids of the data that was asked for.
    pub scraped-AllQ :
        (data' metrics_data : List (CloudwatchData F)) (outputs : List (List (CloudwatchData F)))
        → AllQ data'
        → scrape_discovery_job_using_metric_data get_metric_data data' ≡ gathered outputs
        → AppendsAll outputs metrics_data
        → AllQ metrics_data
    unfolding scrape_discovery_job_using_metric_data
    scraped-AllQ data' metrics_data outputs q e a =
        let kept =
          scrape_slices-GatheredQ (batches 20 data')
            (rw (batches_lem 20 data' (omega arith)).0 q) in
        appended-AllQ outputs metrics_data (subst GatheredQ e kept) a
