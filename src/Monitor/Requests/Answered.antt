-- ===== src/Monitor/Requests/Answered.antt =====
-- Whose data a result of CloudWatch ends up in.
use mathlib.Core.List.{Memᴰ}
use iaa_s_exporter.Prelude.{
  ℕ, ◌≡◌, ◌≢◌, refl, sym, Bool, true, false, Option, some, List, [], ◌∷◌, ◌++◌, map, flatten, All,
  ◌==◌, eq_iff, eq_refl, arith, All-Memᴰ,
}
use iaa_s_exporter.Health.Aws.Counted.{all_pages-served}
use iaa_s_exporter.Monitor.{CloudwatchData}
use iaa_s_exporter.Monitor.Batches.{batches, batches_lem}
use iaa_s_exporter.Monitor.Discovery.{find_get_metric_data_by_id}
use iaa_s_exporter.Monitor.Tagged.{gathered}
use iaa_s_exporter.Monitor.Requests.{
  MetricDataResult, collect_results, scrape_slices, scrape_discovery_job_using_metric_data,
}

-- Data with the points that CloudWatch has for it, the newest first.
abbrev pub Answer : Type 0 → Type 0
Answer F = CloudwatchData F × List (F × ℕ)

module _ {F : Type 0} where
  -- Each id is that of one of the data.
  abbrev pub IdsDiffer : List (CloudwatchData F) → Type 0
  IdsDiffer [] = Unit
  IdsDiffer (c ∷ cs) = All (λ d. d.metric_id ≢ c.metric_id) cs × IdsDiffer cs

  abbrev pub result_of : Answer F → MetricDataResult F
  result_of (c, ps) = record {
    id = c.metric_id;
    values = map (λ p. p.0) ps;
    timestamps = map (λ p. p.1) ps;
  }

  -- The data with its newest point, if there is one.
  abbrev pub answered : Answer F → CloudwatchData F
  answered (c, []) = c
  answered (c, p ∷ ps) = record c { datapoint = some p }

  find_own :
      (input : List (CloudwatchData F)) (c : CloudwatchData F)
      → IdsDiffer input
      → Memᴰ c input
      → find_get_metric_data_by_id input c.metric_id ≡ some c
  unfolding find_get_metric_data_by_id
  find_own [] c d i = elim i [ ]
  find_own (x ∷ xs) c d (Memᴰ.head e) = rw (e, eq_refl x.metric_id) refl
  find_own (x ∷ xs) c (n, d) (Memᴰ.tail i) =
      rw (other (x.metric_id == c.metric_id) refl) (find_own xs c d i)
    where
      other :
          (same : Bool) → (x.metric_id == c.metric_id) ≡ same → (x.metric_id == c.metric_id) ≡ false
      other false p = p
      other true p = absurd (
          All-Memᴰ (λ u. u.metric_id ≢ x.metric_id) xs c n i
            (sym ((eq_iff x.metric_id c.metric_id).0 p)))

  collect_results-answered :
      (input : List (CloudwatchData F)) (answers : List (Answer F))
      → IdsDiffer input
      → All (λ a. Memᴰ a.0 input) answers
      → collect_results input (map result_of answers) ≡ some (map answered answers)
  unfolding collect_results
  collect_results-answered input [] d i = refl
  collect_results-answered input ((c, []) ∷ answers) d (i, is) =
      rw (find_own input c d i, collect_results-answered input answers d is) refl
  collect_results-answered input ((c, p ∷ ps) ∷ answers) d (i, is) =
      rw (find_own input c d i, collect_results-answered input answers d is) refl

  append-IdsDiffer :
      (xs ys : List (CloudwatchData F)) → IdsDiffer (xs ++ ys) → IdsDiffer xs × IdsDiffer ys
  append-IdsDiffer [] ys d = (tt, d)
  append-IdsDiffer (x ∷ xs) ys (n, d) =
      let (l, r) = append-IdsDiffer xs ys d in ((All-left xs ys n, l), r)
    where
      All-left :
          (us vs : List (CloudwatchData F))
          → All (λ u. u.metric_id ≢ x.metric_id) (us ++ vs)
          → All (λ u. u.metric_id ≢ x.metric_id) us
      All-left [] vs h = tt
      All-left (u ∷ us) vs (h, hs) = (h, All-left us vs hs)

  module _ (get_metric_data : List (CloudwatchData F) → List (Option (List (MetricDataResult F))))
      (answers : List (CloudwatchData F) → List (Answer F))
      (pages : List (CloudwatchData F) → List (List (MetricDataResult F))) where
    -- For a request, the client serves pages with the results of some of its data, in any order.
    abbrev pub Serves : Type 0
    Serves =
        (input : List (CloudwatchData F))
        → (get_metric_data input ≡ map some (pages input))
          × (flatten (pages input) ≡ map result_of (answers input))
          × All (λ a. Memᴰ a.0 input) (answers input)

    scrape_slices-answered :
        (slices : List (List (CloudwatchData F)))
        → Serves
        → IdsDiffer (flatten slices)
        → scrape_slices get_metric_data slices
          ≡ gathered (map (λ s. map answered (answers s)) slices)
    unfolding scrape_slices
    scrape_slices-answered [] serves d = refl
    scrape_slices-answered (s ∷ ss) serves d =
        let (g, f, i) = serves s in
        let (here, there) = append-IdsDiffer s (flatten ss) d in
        rw
          (
            g,
            all_pages-served (pages s),
            f,
            collect_results-answered s (answers s) here i,
            scrape_slices-answered ss serves there,
          )
          refl

    -- With ids that differ, and a client that serves results of the data it is asked for, in any
    -- order and on any pages, each result ends up in the data that has its id, which takes the
    -- newest of its points; data without points is kept as it was. One output is gathered for each
    -- request, of at most 20.
    pub scrape_discovery_job_lem :
        (cw_data : List (CloudwatchData F))
        → Serves
        → IdsDiffer cw_data
        → scrape_discovery_job_using_metric_data get_metric_data cw_data
          ≡ gathered (map (λ s. map answered (answers s)) (batches 20 cw_data))
    unfolding scrape_discovery_job_using_metric_data
    scrape_discovery_job_lem cw_data serves d =
        scrape_slices-answered (batches 20 cw_data) serves
          (rw (batches_lem 20 cw_data (omega arith)).0 d)
