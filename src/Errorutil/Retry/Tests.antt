-- ===== src/Errorutil/Retry/Tests.antt =====
-- Runs of pkg/errorutil/retry.go, and its theorems at concrete inputs.
use iaa_s_exporter.Prelude.{
  ℕ, suc, ◌≤◌, ◌≡◌, ◌≢◌, refl, [], ◌∷◌, Option, none, some, arith, ltb, length, if◌then◌else◌,
}
use iaa_s_exporter.Prelude.Int.{pos, ◌+ℤ◌}
use iaa_s_exporter.Prelude.Word.{wrap64}
use iaa_s_exporter.Errorutil.Retry.{
  returned, panicked, out_of_fuel, stop, retry_on_err, retry_on_err_with_log,
}
use iaa_s_exporter.Errorutil.Retry.Outcome.{outcome, try_upto, retry_on_err_lem}
use iaa_s_exporter.Errorutil.Retry.Pauses.{IsBackoff, retry_on_err-backs_off, retry_on_err-panics}
use iaa_s_exporter.Errorutil.Retry.Terminates.{retry_on_err-ends}
use iaa_s_exporter.Errorutil.Retry.Logged.{report, retry_on_err_with_log_lem}

-- It counts its calls, fails at the first two and then succeeds.
abbrev flaky : ℕ → ℕ × Option ℕ
flaky n = (suc n, if ltb n 2 then some n else none)

abbrev broken : ℕ → ℕ × Option ℕ
broken n = (suc n, some n)

abbrev draws : ℕ → ℕ
draws n = 7

two_pauses : (retry_on_err flaky draws 3 (pos 100) 0).slept ≡ pos 103 ∷ pos 209 ∷ []
unfolding retry_on_err wrap64 ◌+ℤ◌
two_pauses = refl

no_attempts : retry_on_err broken draws 0 (pos 100) 0 ≡ stop 0 (returned none)
unfolding retry_on_err
no_attempts = refl

retry_on_err_lem_example : outcome (retry_on_err flaky draws 3 (pos 100) 0) ≡ (3, returned none)
unfolding try_upto
retry_on_err_lem_example =
    retry_on_err_lem flaky draws 3 100 0 (omega arith) (omega arith) (omega arith)

retry_on_err-backs_off_example :
    IsBackoff 100 (retry_on_err broken draws 3 (pos 100) 0).slept
    × (length (retry_on_err broken draws 3 (pos 100) 0).slept ≤ 2)
retry_on_err-backs_off_example =
    retry_on_err-backs_off broken draws 2 100 0 (omega arith) (omega arith) (omega arith)

retry_on_err-panics_example : retry_on_err broken draws 3 (pos 0) 0 ≡ stop 1 panicked
retry_on_err-panics_example =
    retry_on_err-panics broken draws 3 (pos 0) 0 1 0 (omega arith) (omega arith) refl

retry_on_err_with_log_lem_example :
    ((retry_on_err_with_log broken draws 2 (pos 100) 0).run
      ≡ retry_on_err broken draws 2 (pos 100) 0)
    × ((retry_on_err_with_log broken draws 2 (pos 100) 0).log
        ≡ report 2 (retry_on_err broken draws 2 (pos 100) 0).ended)
retry_on_err_with_log_lem_example = retry_on_err_with_log_lem broken draws 2 (pos 100) 0

retry_on_err-ends_example :
    ((retry_on_err broken draws 255 (pos 100) 0).ended ≢ out_of_fuel)
    × ((retry_on_err_with_log broken draws 255 (pos 100) 0).run.ended ≢ out_of_fuel)
retry_on_err-ends_example = retry_on_err-ends broken draws 255 (pos 100) 0 (omega arith)
