-- ===== src/Bucket.antt =====
-- The collectors of vault backup buckets: what the four of them share. Each lists the objects of a
-- bucket page by page and sends six metrics.
--
-- An object's size and the sums are int64. A time is the number of nanoseconds since Go's zero
-- time, so `After` is the order of numbers. A metric's value is the integer whose float64 is sent;
-- the count of objects, a float64 in the source, is exact below 2 ^ 53 and is a number here.
pub mod Totals
pub mod Aws
pub mod Azure
pub mod Gcp
pub mod AliCloud
mod Tests
use iaa_s_exporter.Prelude.{
  ℕ, ◌+◌, ◌*◌, ◌<◌, String, Option, none, some, List, [], ◌∷◌, ltb, if◌then◌else◌,
}
use iaa_s_exporter.Prelude.Int.{ℤ, pos, ◌+ℤ◌, ◌-ℤ◌, quot_ℤ, ltb_ℤ}
use iaa_s_exporter.Prelude.Word.{wrap64}

pub record Object : Type 0 where
  pub size : ℤ
  pub modified : ℕ

-- The local variables of `Collect`.
pub record Stats : Type 0 where
  pub last_modified : ℕ
  pub number_of_objects : ℕ
  pub total_size : ℤ
  pub biggest_object_size : ℤ
  pub last_object_size : ℤ

abbrev pub no_objects : Stats
no_objects = record {
  last_modified = 0;
  number_of_objects = 0;
  total_size = pos 0;
  biggest_object_size = pos 0;
  last_object_size = pos 0;
}

pub data Desc : Type 0 where
  list_success last_modified_object_date last_modified_object_size : Desc
  object_total biggest_size sum_size : Desc

pub record ConstMetric : Type 0 where
  pub desc : Desc
  pub value : ℤ
  pub bucket : String
  pub prefix : String

-- How a collection ends: it returns, or the process exits or panics. What was sent on the channel
-- before that stays sent.
pub data Exit : Type 0 where
  returned fatal panicked out_of_fuel : Exit

pub record Collected : Type 0 where
  pub sent : List ConstMetric
  pub exit : Exit

-- The seconds between the zero time and the Unix epoch, in nanoseconds.
abbrev pub unix_epoch : ℕ
unix_epoch = 62135596800000000000

-- time.Time.UnixNano() / 1e9
unfoldable pub unix_seconds : ℕ → ℤ
unix_seconds t = quot_ℤ (wrap64 (pos t -ℤ pos unix_epoch)) 1000000000

module _ (bucket prefix : String) where
  abbrev pub metric : Desc → ℤ → ConstMetric
  metric d v = record { desc = d; value = v; bucket = bucket; prefix = prefix }

  abbrev pub listing_failed : Collected
  listing_failed = record { sent = metric list_success (pos 0) ∷ []; exit = returned }

  abbrev pub died : Exit → Collected
  died how = record { sent = []; exit = how }

  -- The six metrics of a listing that succeeded, by the date that is sent.
  abbrev pub sent_all : ℕ → Stats → List ConstMetric
  sent_all date s =
      metric list_success (pos 1)
      ∷ metric last_modified_object_date (unix_seconds date)
      ∷ metric last_modified_object_size s.last_object_size
      ∷ metric object_total (pos s.number_of_objects)
      ∷ metric biggest_size s.biggest_object_size
      ∷ metric sum_size s.total_size
      ∷ []
