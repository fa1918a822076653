-- ===== src/Monitor/Window.antt =====
-- The time window of a request in pkg/cloud/aws/monitor/aws_monitor.go. An instant is the number of
-- nanoseconds since Go's zero time, and a duration an int64 of nanoseconds.
pub mod Floor
pub mod Length
use iaa_s_exporter.Prelude.{
  ℕ, suc, zero, ◌+◌, ◌-◌, ◌*◌, Option, none, some, List, [], ◌∷◌, ltb, if◌then◌else◌,
}
use iaa_s_exporter.Prelude.Int.{ℤ, pos, negsuc, sub_ℕ, times, ◌+ℤ◌, ◌-ℤ◌, quot_ℤ, ltb_ℤ}
use iaa_s_exporter.Prelude.Word.{wrap64, to_bits}
use iaa_s_exporter.Config.{Job, Metric}
use iaa_s_exporter.Monitor.{CloudwatchData}

-- Time.Round: to the nearest multiple of the duration since the zero time, and up from the middle.
unfoldable pub round : ℤ → ℤ → ℤ
round now (pos zero) = now
round now (negsuc d) = now
round now (pos (suc d)) =
    let past = to_bits (suc d) now in
    if ltb (past + past) (suc d) then now -ℤ pos past else now +ℤ pos (suc d - past)

abbrev pub opposite : ℤ → ℤ
opposite d = wrap64 (pos 0 -ℤ d)

unfoldable pub rounded_down : ℤ → ℤ → ℤ
unfolding round
rounded_down now rounding_period =
    if ltb_ℤ (pos 0) rounding_period
    then round (now +ℤ quot_ℤ (opposite rounding_period) 2) rounding_period
    else now

-- The start and the end of the window.
unfoldable pub determine_get_metric_data_window : ℤ → ℤ → ℤ → ℤ → ℤ × ℤ
unfolding rounded_down
determine_get_metric_data_window now rounding_period length delay =
    let now' = rounded_down now rounding_period in
    (now' +ℤ opposite (wrap64 (length +ℤ delay)), now' +ℤ opposite delay)

abbrev pub default_length_seconds : ℤ
default_length_seconds = pos 300

abbrev pub default_period_seconds : ℤ
default_period_seconds = pos 300

abbrev pub longest : ℤ → List Metric → ℤ
longest length [] = length
longest length (metric ∷ metrics) =
    longest (if ltb_ℤ length metric.length then metric.length else length) metrics

unfoldable pub get_metric_data_input_length : Job → ℤ
get_metric_data_input_length job =
    longest (if ltb_ℤ (pos 0) job.length then job.length else default_length_seconds) job.metrics

unfoldable pub shortest_period : {F : Type 0} → ℤ → List (CloudwatchData F) → ℤ
shortest_period period [] = period
shortest_period period (c ∷ cs) =
    shortest_period (if ltb_ℤ c.period period then c.period else period) cs

abbrev pub configured_or : Option ℤ → ℤ → ℤ
configured_or none period = period
configured_or (some configured) period = configured

-- time.Duration(n) * time.Second
abbrev pub seconds : ℤ → ℤ
seconds n = wrap64 (times n 1000000000)

-- The window of `createGetMetricDataInput`, at a time.
unfoldable pub input_window : {F : Type 0} → List (CloudwatchData F) → ℤ → ℤ → Option ℤ → ℤ → ℤ × ℤ
unfolding determine_get_metric_data_window shortest_period
input_window inputs length delay configured now =
    determine_get_metric_data_window now
      (seconds (configured_or configured (shortest_period default_period_seconds inputs)))
      (seconds length) (seconds delay)
