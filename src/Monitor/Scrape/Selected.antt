-- ===== src/Monitor/Scrape/Selected.antt =====
-- Which resources the metrics of a scrape are about.
use mathlib.Core.List.{Memᴰ}
use iaa_s_exporter.Prelude.{
  ◌≡◌, refl, String, List, [], ◌∷◌, map, flatten, All, All-append, All-imp,
}
use iaa_s_exporter.Config.{Job, CloudWatchMetricsConf}
use iaa_s_exporter.Monitor.{CloudwatchData}
use iaa_s_exporter.Monitor.Labels.{PrometheusMetric}
use iaa_s_exporter.Monitor.Collect.{Clients}
use iaa_s_exporter.Monitor.Collect.Selected.{IsSelectedArn, CollectsJob-selected}
use iaa_s_exporter.Monitor.Requests.Kept.{appended-AllQ}
use iaa_s_exporter.Monitor.Scrape.{CollectsJobs, CollectsData, describe, collect}

module _ {F : Type 0} (clients : Clients F) (cfg : CloudWatchMetricsConf)
    (region account_id : String) where
  -- It is the ARN of a resource that the tags of one of the jobs select.
  abbrev pub IsOfJobs : List Job → String → Type 0
  IsOfJobs jobs id =
      (job : Job) × Memᴰ job jobs × IsSelectedArn clients cfg region account_id job id

  abbrev AllOf : List Job → List (CloudwatchData F) → Type 0
  AllOf jobs ds = All (λ d. IsOfJobs jobs d.id) ds

  CollectsJobs-AllOf :
      (jobs : List Job) (per_job : List (List (List (CloudwatchData F))))
      → CollectsJobs clients cfg region account_id jobs per_job
      → All (AllOf jobs) (flatten per_job)
  unfolding CollectsJobs
  CollectsJobs-AllOf [] [] c = tt
  CollectsJobs-AllOf [] (d ∷ ds) c = elim c [ ]
  CollectsJobs-AllOf (job ∷ jobs) [] c = elim c [ ]
  CollectsJobs-AllOf (job ∷ jobs) (d ∷ ds) (c, cs) =
      All-append (AllOf (job ∷ jobs)) d (flatten ds)
        (All-imp d (λ x h. All-imp x (λ y s. (job, Memᴰ.head refl, s)) h)
          (CollectsJob-selected clients cfg region account_id job d c))
        (All-imp (flatten ds) (λ x h. All-imp x (λ y (j, i, s). (j, Memᴰ.tail i, s)) h)
          (CollectsJobs-AllOf jobs ds cs))

  -- However the goroutines interleave, and whatever CloudWatch answers, all data that is collected
  -- has the ARN of a resource that the tagging client returned, in a page for the service of a
  -- configured job, with tags that the search tags of that job select.
  pub CollectsData-selected :
      (result : List (CloudwatchData F))
      → CollectsData clients cfg region account_id result
      → All (λ d. IsOfJobs cfg.jobs d.id) result
  unfolding CollectsData
  CollectsData-selected result (per_job, c, a) =
      appended-AllQ (IsOfJobs cfg.jobs) (flatten per_job) result
        (CollectsJobs-AllOf cfg.jobs per_job c) a

-- What `Collect` sends has the descriptors that `Describe` sends, in the same order.
pub collect-describe :
    {F : Type 0} (metrics : List (PrometheusMetric F))
    → map (λ g. g.desc) (collect metrics) ≡ describe metrics
unfolding collect describe
collect-describe [] = refl
collect-describe (m ∷ ms) = rw (collect-describe ms) refl
