-- ===== src/Monitor/Window/Length.antt =====
-- How long a request of pkg/cloud/aws/monitor/aws_monitor.go looks back.
use mathlib.Core.List.{Memᴰ}
use iaa_s_exporter.Prelude.{
  ◌≡◌, refl, ◌∙◌, List, [], ◌∷◌, arith, if◌then◌else◌, Bool-cases, inl, inr, ◌⊎◌, true, false, All,
  map,
}
use iaa_s_exporter.Prelude.Int.{ℤ, pos, ltb_ℤ, ◌≤ℤ◌}
use iaa_s_exporter.Config.{Job, Metric}
use iaa_s_exporter.Monitor.Window.{longest, get_metric_data_input_length, default_length_seconds}

-- The length that a job asks for, or the default.
abbrev pub base_length : Job → ℤ
base_length job = if ltb_ℤ (pos 0) job.length then job.length else default_length_seconds

longest-bounds :
    (length : ℤ) (ms : List Metric)
    → (length ≤ℤ longest length ms) × All (λ m. m.length ≤ℤ longest length ms) ms
longest-bounds length [] = (omega arith, tt)
longest-bounds length (m ∷ ms) =
    let next = if ltb_ℤ length m.length then m.length else length in
    let (b, all) = longest-bounds next ms in
    let (c, d) = at_least length m.length in
    (
      le_trans length next (longest next ms) c b,
      (le_trans m.length next (longest next ms) d b, all),
    )
  where
    at_least : (a b : ℤ) → (a ≤ℤ (if ltb_ℤ a b then b else a)) × (b ≤ℤ (if ltb_ℤ a b then b else a))
    at_least a b = ground arith

    le_trans : (a b c : ℤ) → a ≤ℤ b → b ≤ℤ c → a ≤ℤ c
    le_trans a b c h k = omega arith

longest-attained :
    (length : ℤ) (ms : List Metric)
    → (longest length ms ≡ length) ⊎ Memᴰ (longest length ms) (map (λ m. m.length) ms)
longest-attained length [] = inl refl
longest-attained length (m ∷ ms) =
    split (Bool-cases (ltb_ℤ length m.length))
      (longest-attained (if ltb_ℤ length m.length then m.length else length) ms)
  where
    split :
        (ltb_ℤ length m.length ≡ true) ⊎ (ltb_ℤ length m.length ≡ false)
        → (longest (if ltb_ℤ length m.length then m.length else length) ms
            ≡ (if ltb_ℤ length m.length then m.length else length))
          ⊎ Memᴰ
              (longest (if ltb_ℤ length m.length then m.length else length) ms)
              (map (λ x. x.length) ms)
        → (longest (if ltb_ℤ length m.length then m.length else length) ms ≡ length)
          ⊎ Memᴰ
              (longest (if ltb_ℤ length m.length then m.length else length) ms)
              (m.length ∷ map (λ x. x.length) ms)
    split b (inr i) = inr (Memᴰ.tail i)
    split (inl p) (inl e) =
        let same : (if ltb_ℤ length m.length then m.length else length) ≡ m.length = rw p refl in
        inr (Memᴰ.head (e ∙ same))
    split (inr p) (inl e) =
        let same : (if ltb_ℤ length m.length then m.length else length) ≡ length = rw p refl in
        inl (e ∙ same)

-- The length is at least the base and that of every metric of the job, and it is one of these.
pub get_metric_data_input_length_lem :
    (job : Job)
    → let length = get_metric_data_input_length job in
      (base_length job ≤ℤ length)
      × All (λ m. m.length ≤ℤ length) job.metrics
      × ((length ≡ base_length job) ⊎ Memᴰ length (map (λ m. m.length) job.metrics))
unfolding get_metric_data_input_length
get_metric_data_input_length_lem job =
    let (b, all) = longest-bounds (base_length job) job.metrics in
    (b, all, longest-attained (base_length job) job.metrics)
