-- ===== src/Monitor.antt =====
-- pkg/cloud/aws/monitor: CloudWatch metrics of tagged resources. The types that its parts share.
--
-- CloudWatch's dimensions and results have required members, which are never nil, as plain fields.
-- A datapoint stands with its time, since the source sets and reads the two pointers together.
pub mod Labels
pub mod Window
pub mod Batches
pub mod Discovery
pub mod Services
pub mod Tagged
pub mod Requests
pub mod Collect
pub mod Scrape
mod Tests
use iaa_s_exporter.Prelude.{ℕ, String, Bool, Option, List}
use iaa_s_exporter.Prelude.Int.{ℤ}
use iaa_s_exporter.Config.{Tag}

pub record CwDimension : Type 0 where
  pub name : String
  pub value : String

pub record CwMetric : Type 0 where
  pub dimensions : List CwDimension

pub record TaggedResource : Type 0 where
  pub arn : String
  pub namespace : String
  pub region : String
  pub tags : List Tag

pub record CloudwatchData (F : Type 0) : Type 0 where
  pub id : String
  pub metric_id : String
  pub metric : String
  pub namespace : String
  pub statistics : List String
  pub datapoint : Option (F × ℕ)
  pub nil_to_zero : Option Bool
  pub add_cloudwatch_timestamp : Option Bool
  pub custom_tags : List Tag
  pub tags : List Tag
  pub dimensions : List CwDimension
  pub region : String
  pub account_id : String
  pub period : ℤ
