-- ===== src/Quota.antt =====
-- The quota collectors: pkg/cloud/common/common.go's cache of quota results, and what the four
-- providers share. A scrape sets results in the cache under their codes; `Collect` reads it.
pub mod Sets
pub mod Interleave
pub mod Gauges
pub mod Azure
pub mod Gcp
pub mod AliCloud
pub mod Aws
mod Tests
use iaa_s_exporter.Prelude.{ℕ, ◌<◌, ◌≡◌, String, Bool, Option, some, List, if◌then◌else◌, ◌==◌}
use iaa_s_exporter.Prelude.Int.{ℤ, pos, leb_ℤ, ltb_ℤ}
use iaa_s_exporter.Prelude.Dict.{Dict, lookup}

-- float64, as far as the program uses it. The laws are IEEE 754's: integers up to 2 ^ 53 are
-- exact, and rounding is monotonic, so the conversion of an integer keeps its order against those
-- that are smaller (2 ^ 53 + 1 itself rounds to 2 ^ 53).
pub record Float64 : Type 1 where
  pub carrier : Type 0
  pub of_int : ℤ → carrier
  pub is_zero : carrier → Bool
  pub ge : carrier → carrier → Bool
  pub gt : carrier → carrier → Bool
  pub ge-of_int :
      (a : ℤ) (n : ℕ) → n < 9007199254740992 → ge (of_int a) (of_int (pos n)) ≡ leb_ℤ (pos n) a
  pub gt-of_int :
      (a : ℤ) (n : ℕ) → n < 9007199254740992 → gt (of_int a) (of_int (pos n)) ≡ ltb_ℤ (pos n) a

pub record QuotaResult (F : Type 0) : Type 0 where
  pub quota_name : String
  pub quota_code : String
  pub limit_value : F
  pub current_value : F
  pub unit : String

-- `ICache` over results of a type: what was set last under a key is what `Items` has there, until
-- it expires; no time passes here.
pub record Cache (X : Type 0) : Type 1 where
  pub carrier : Type 0
  pub set : String → X → carrier → carrier
  pub items : carrier → Dict X
  pub items-set :
      (k j : String) (x : X) (c : carrier)
      → lookup j (items (set k x c)) ≡ (if k == j then some x else lookup j (items c))
