-- ===== src/Health.antt =====
-- The collectors of health events: the counter vectors of pkg/cloud/common/common.go that they
-- raise. A counter stands under its label values.
pub mod Occurrences
pub mod Json
pub mod Reports
pub mod Aws
pub mod Azure
pub mod Gcp
pub mod AliCloud
mod Tests
use iaa_s_exporter.Prelude.{
  ℕ, ◌+◌, ◌≡◌, String, Bool, true, false, ◌&&◌, List, [], ◌∷◌, if◌then◌else◌, ◌==◌,
}

abbrev pub Labels : Type 0
Labels = List String

unfoldable pub eq_labels : Labels → Labels → Bool
eq_labels [] [] = true
eq_labels [] (k ∷ ks) = false
eq_labels (j ∷ js) [] = false
eq_labels (j ∷ js) (k ∷ ks) = j == k && eq_labels js ks

-- prometheus.CounterVec, as the collectors use it: `WithLabelValues(labels...).Inc()` and `Reset`,
-- with what its counter under some labels is then.
pub record CounterVec : Type 1 where
  pub carrier : Type 0
  pub reset : carrier → carrier
  pub inc : Labels → carrier → carrier
  pub count_of : Labels → carrier → ℕ
  pub count_of-reset : (labels : Labels) (c : carrier) → count_of labels (reset c) ≡ 0
  pub count_of-inc :
      (labels other : Labels) (c : carrier)
      → count_of labels (inc other c)
        ≡ (if eq_labels other labels then 1 else 0) + count_of labels c

pub record Counters (C : Type 0) : Type 0 where
  pub health_event : C
  pub affected_entity : C
  pub health_opened_total : C
  pub health_closed_total : C

-- The four calls of `Reset`.
abbrev pub reset_all : (vec : CounterVec) → Counters vec.carrier → Counters vec.carrier
reset_all vec c = record {
  health_event = vec.reset c.health_event;
  affected_entity = vec.reset c.affected_entity;
  health_opened_total = vec.reset c.health_opened_total;
  health_closed_total = vec.reset c.health_closed_total;
}

-- How a collection ends, and the counters then: it sends them, or returns before it does, or exits
-- by `log.Fatal`, or by a run-time panic.
pub data Collected (C : Type 0) : Type 0 where
  sent unsent : Counters C → Collected C
  fatal panicked : Collected C
