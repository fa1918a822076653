-- ===== src/Bucket/Tests.antt =====
-- The theorems about the bucket collectors at small buckets.
use iaa_s_exporter.Prelude.{zero, suc, ◌≡◌, refl, Bool, true, false, none, some, [], ◌∷◌, arith}
use iaa_s_exporter.Prelude.Int.{pos, negsuc, ◌-ℤ◌}
use iaa_s_exporter.Prelude.Word.{wrap64}
use iaa_s_exporter.Config.{VaultBackupBucketConfig}
use iaa_s_exporter.Bucket.{Object, fatal, listing_failed, no_objects, unix_seconds}
use iaa_s_exporter.Bucket.Totals.{Reports, ReportsDated, IsSummary, observe_all, observe_all_lem}
use iaa_s_exporter.Bucket.Aws
use iaa_s_exporter.Bucket.Azure
use iaa_s_exporter.Bucket.Gcp
use iaa_s_exporter.Bucket.AliCloud

abbrev conf : VaultBackupBucketConfig
conf = record { bucket = "backups"; prefix = "vault/" }

abbrev old : Object
old = record { size = pos 7; modified = 10 }

abbrev new : Object
new = record { size = pos 5; modified = 20 }

zero_time : unix_seconds 0 ≡ negsuc 6795364577
unfolding unix_seconds wrap64 ◌-ℤ◌
zero_time = refl

observe_all_lem_example : IsSummary (observe_all no_objects (old ∷ new ∷ [])) (old ∷ new ∷ [])
observe_all_lem_example = observe_all_lem (old ∷ new ∷ [])

abbrev s3_page : Object → Bool → Aws.ListObjectsV2Output
s3_page o more = record {
  contents = Aws.item_of o ∷ [];
  is_truncated = more;
  next_continuation_token = some "next";
}

abbrev s3 : Aws.S3Client
s3 zero token = some (s3_page old true)
s3 (suc n) token = some (s3_page new false)

abbrev s3_failing : Aws.S3Client
s3_failing zero token = some (s3_page old true)
s3_failing (suc n) token = none

s3_collect-Reports_example : Reports conf (old ∷ new ∷ []) (Aws.collect conf 2 s3)
s3_collect-Reports_example =
    Aws.s3_collect-Reports conf s3 2 (s3_page old true ∷ s3_page new false ∷ [])
      ((old ∷ []) ∷ (new ∷ []) ∷ []) (omega arith) (refl, refl, (refl, refl)) (refl, (refl, tt))

abbrev objects : Gcp.Next → Gcp.Iter
objects end zero = Gcp.attrs old
objects end (suc zero) = Gcp.attrs new
objects end (suc (suc n)) = end

gcs_collect-Reports_example : Reports conf (old ∷ new ∷ []) (Gcp.collect conf 3 (objects Gcp.done))
gcs_collect-Reports_example =
    Gcp.gcs_collect-Reports conf (objects Gcp.done) 3 (old ∷ new ∷ []) (omega arith)
      (refl, (refl, refl))

gcs_collect-fails_example :
    Gcp.collect conf 3 (objects Gcp.failed) ≡ listing_failed conf.bucket conf.prefix
gcs_collect-fails_example =
    Gcp.gcs_collect-fails conf (objects Gcp.failed) 3 (old ∷ new ∷ []) (omega arith)
      (refl, (refl, refl))

abbrev oss_page : Object → Bool → AliCloud.ListObjectsResult
oss_page o more = record { objects = o ∷ []; is_truncated = more; next_marker = "next" }

abbrev oss : AliCloud.OssBucket
oss zero marker = some (oss_page old true)
oss (suc n) marker = some (oss_page new false)

abbrev oss_failing : AliCloud.OssBucket
oss_failing zero marker = some (oss_page old true)
oss_failing (suc n) marker = none

oss_collect-Reports_example : Reports conf (old ∷ new ∷ []) (AliCloud.collect conf 2 (some oss))
oss_collect-Reports_example =
    AliCloud.oss_collect-Reports conf oss 2 (oss_page old true ∷ oss_page new false ∷ [])
      (omega arith) (refl, refl, (refl, refl))

-- A marker is done where it is `true`; the only segment ends with such a marker.
abbrev not_done : Bool → Bool
not_done true = false
not_done false = true

abbrev segment : Azure.Segment Bool
segment = record { blob_items = Azure.blob_of old ∷ Azure.blob_of new ∷ []; next_marker = true }

abbrev container : Azure.Container Bool
container n marker = some segment

abbrev container_failing : Azure.Container Bool
container_failing n marker = none

blob_collect-ReportsDated_example :
    ReportsDated
      (λ s. 0)
      conf
      (old ∷ new ∷ [])
      (Azure.collect conf not_done 2 false (some container))
blob_collect-ReportsDated_example =
    Azure.blob_collect-ReportsDated conf not_done container 2 false ((old ∷ new ∷ []) ∷ [])
      (omega arith) (segment, refl, refl, refl, refl)

blob_collect-fatal_example :
    Azure.collect conf not_done 1 false (some container_failing)
    ≡ record { sent = []; exit = fatal }
blob_collect-fatal_example =
    Azure.blob_collect-fatal conf not_done container_failing 1 false [] (omega arith) (refl, refl)
