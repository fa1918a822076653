-- ===== src/Health/Occurrences.antt =====
-- How often labels stand in a list, against what a counter vector comes to.
use iaa_s_exporter.Prelude.{ℕ, ◌+◌, List, [], ◌∷◌, if◌then◌else◌}
use iaa_s_exporter.Health.{Labels, eq_labels}

abbrev pub occurrences : Labels → List Labels → ℕ
occurrences labels [] = 0
occurrences labels (at ∷ rest) = (if eq_labels at labels then 1 else 0) + occurrences labels rest
