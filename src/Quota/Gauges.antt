-- ===== src/Quota/Gauges.antt =====
-- The gauges that the four `Collect` functions set, and when both gauges of a result are shown.
use mathlib.Core.List.{Memᴰ}
use iaa_s_exporter.Prelude.{◌≡◌, String, true, some, List, [], ◌∷◌, ap, ◌==◌, Bool-cases, inl, inr}
use iaa_s_exporter.Prelude.Dict.{Dict, lookup}
use iaa_s_exporter.Quota.{QuotaResult}

-- A gauge of one of the two vectors is set under its label values.
pub data Vector : Type 0 where
  quota_current quota_limit : Vector

pub record GaugeSet (F : Type 0) : Type 0 where
  pub vector : Vector
  pub labels : List String
  pub value : F

module _ {X F : Type 0} (labels_of : X → List String) (result_of : X → QuotaResult F) where
  abbrev pub current_of : X → GaugeSet F
  current_of x = record {
    vector = quota_current;
    labels = labels_of x;
    value = (result_of x).current_value;
  }

  abbrev pub limit_of : X → GaugeSet F
  limit_of x = record {
    vector = quota_limit;
    labels = labels_of x;
    value = (result_of x).limit_value;
  }

  -- The loop of each `Collect` over the cache's items.
  unfoldable pub set_gauges : Dict X → List (GaugeSet F)
  set_gauges [] = []
  set_gauges ((k, x) ∷ items) = current_of x ∷ limit_of x ∷ set_gauges items

  -- Both gauges of the result are set.
  abbrev pub IsShown : X → List (GaugeSet F) → Type 0
  IsShown x gauges = Memᴰ (current_of x) gauges × Memᴰ (limit_of x) gauges

  pub set_gauges-IsShown :
      (items : Dict X) (j : String) (x : X) → lookup j items ≡ some x → IsShown x (set_gauges items)
  unfolding set_gauges lookup
  set_gauges-IsShown [] j x h = cc
  set_gauges-IsShown ((k, y) ∷ items) j x h = elim (Bool-cases (k == j)) [
    | inl p ↦
        let same : x ≡ y = found p in
        (Memᴰ.head (ap current_of same), Memᴰ.tail (Memᴰ.head (ap limit_of same)))
    | inr p ↦
        let (a, b) = set_gauges-IsShown items j x (rw p at h) in
        (Memᴰ.tail (Memᴰ.tail a), Memᴰ.tail (Memᴰ.tail b))
  ]
    where
      found : (k == j) ≡ true → x ≡ y
      found p = let e : some y ≡ some x = rw p at h in cc
