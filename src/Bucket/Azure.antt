-- ===== src/Bucket/Azure.antt =====
-- pkg/cloud/azure/vault_backup_bucket.go: `Collect` over blob segments. A marker and its test
-- `NotDone` are azblob's, and enter as a type and an argument; the container answers the call
-- numbered n, with a marker, with a segment or an error.
use iaa_s_exporter.Prelude.{
  ℕ, zero, suc, ◌<◌, ◌≡◌, refl, Bool, true, false, Option, none, some, List, [], ◌∷◌, map, arith,
  if◌then◌else◌, length, flatten,
}
use iaa_s_exporter.Prelude.Int.{ℤ}
use iaa_s_exporter.Config.{VaultBackupBucketConfig}
use iaa_s_exporter.Bucket.{
  Object, Stats, no_objects, Collected, returned, fatal, panicked, out_of_fuel, died, sent_all,
}
use iaa_s_exporter.Bucket.Totals.{
  observe, observe_all, observe_all-append, ReportsDated, observe_all_lem,
}

pub record BlobItem : Type 0 where
  pub content_length : Option ℤ
  pub last_modified : ℕ

pub record Segment (Marker : Type 0) : Type 0 where
  pub blob_items : List BlobItem
  pub next_marker : Marker

abbrev pub Container : Type 0 → Type 0
Container Marker = ℕ → Marker → Option (Segment Marker)

-- `*blobInfo.Properties.ContentLength` panics where the pointer is nil.
visit_blob : Stats → Option ℤ → ℕ → Option Stats
visit_blob s none t = none
visit_blob s (some size) t = some (observe s (record { size = size; modified = t }))

visit_blobs : Stats → List BlobItem → Option Stats
unfolding visit_blob
visit_blobs s [] = some s
visit_blobs s (b ∷ bs) = elim (visit_blob s b.content_length b.last_modified) [
  | none ↦ none
  | some s' ↦ visit_blobs s' bs
]

-- `createdTime`, which the source declares and never assigns.
abbrev created_time : ℕ
created_time = 0

module _ {Marker : Type 0} (conf : VaultBackupBucketConfig) (not_done : Marker → Bool) where
  after_blobs : Option Stats → (Stats → Collected) → Collected
  after_blobs none next = died conf.bucket conf.prefix panicked
  after_blobs (some s) next = next s

  -- `log.Fatalf` exits before the metric of the failed listing is sent.
  after_segment : Option (Segment Marker) → Stats → (Marker → Stats → Collected) → Collected
  unfolding after_blobs visit_blobs
  after_segment none s next = died conf.bucket conf.prefix fatal
  after_segment (some seg) s next =
      after_blobs (visit_blobs s seg.blob_items) (next seg.next_marker)

  list_segments : ℕ → Container Marker → ℕ → Marker → Stats → Collected
  unfolding after_segment
  list_segments zero container call marker s = died conf.bucket conf.prefix out_of_fuel
  list_segments (suc fuel) container call marker s =
      if not_done marker
      then after_segment (container call marker) s
          (λ marker' s'. list_segments fuel container (suc call) marker' s')
      else record { sent = sent_all conf.bucket conf.prefix created_time s; exit = returned }

  -- `m.client.ContainerService` returns an error, or a container.
  unfoldable pub collect : ℕ → Marker → Option (Container Marker) → Collected
  unfolding list_segments
  collect fuel first none = died conf.bucket conf.prefix fatal
  collect fuel first (some container) = list_segments fuel container 0 first no_objects

abbrev pub blob_of : Object → BlobItem
blob_of o = record { content_length = some o.size; last_modified = o.modified }

module _ {Marker : Type 0} (conf : VaultBackupBucketConfig) (not_done : Marker → Bool)
    (container : Container Marker) where
  -- From a call and a marker on, the container serves the objects of these segments, and ends so:
  -- by a marker that is done (`true`), or by an error (`false`).
  abbrev pub Serves : Bool → ℕ → Marker → List (List Object) → Type 0
  Serves true call marker [] = not_done marker ≡ false
  Serves false call marker [] = (not_done marker ≡ true) × (container call marker ≡ none)
  Serves ends call marker (os ∷ oss) =
      (seg : Segment Marker) × (not_done marker ≡ true)
      × (container call marker ≡ some seg)
      × (seg.blob_items ≡ map blob_of os)
      × Serves ends (suc call) seg.next_marker oss

  visit_blobs-sized :
      (s : Stats) (os : List Object) → visit_blobs s (map blob_of os) ≡ some (observe_all s os)
  unfolding visit_blobs observe_all
  visit_blobs-sized s [] = refl
  visit_blobs-sized s (o ∷ os) = visit_blobs-sized (observe s o) os

  abbrev conclusion : Bool → Stats → Collected
  conclusion true s = record {
    sent = sent_all conf.bucket conf.prefix created_time s;
    exit = returned;
  }
  conclusion false s = died conf.bucket conf.prefix fatal

  list_segments-Serves :
      (ends : Bool) (fuel call : ℕ) (marker : Marker) (s : Stats) (oss : List (List Object))
      → length oss < fuel
      → Serves ends call marker oss
      → list_segments conf not_done fuel container call marker s
        ≡ conclusion ends (observe_all s (flatten oss))
  unfolding list_segments after_segment observe_all
  list_segments-Serves ends zero call marker s oss h v = absurd (omega arith)
  list_segments-Serves true (suc fuel) call marker s [] h v = rw v refl
  list_segments-Serves false (suc fuel) call marker s [] h v = rw (v.0, v.1) refl
  list_segments-Serves true (suc fuel) call marker s (os ∷ oss) h (seg, n, c, b, v) =
      rw (n, c, b, visit_blobs-sized s os, observe_all-append)
        (list_segments-Serves true fuel (suc call) seg.next_marker (observe_all s os) oss
          (omega arith) v)
  list_segments-Serves false (suc fuel) call marker s (os ∷ oss) h (seg, n, c, b, v) =
      rw (n, c, b, visit_blobs-sized s os)
        (list_segments-Serves false fuel (suc call) seg.next_marker (observe_all s os) oss
          (omega arith) v)

  -- When the container serves all segments, with a length on every blob, and the fuel exceeds their
  -- number, the metrics report the figures of all the blobs together, but for the date: that is the
  -- zero time's, whatever the blobs' dates are.
  pub blob_collect-ReportsDated :
      (fuel : ℕ) (first : Marker) (oss : List (List Object))
      → length oss < fuel
      → Serves true 0 first oss
      → ReportsDated (λ s. 0) conf (flatten oss) (collect conf not_done fuel first (some container))
  unfolding collect
  blob_collect-ReportsDated fuel first oss h v = (
    observe_all no_objects (flatten oss),
    observe_all_lem (flatten oss),
    list_segments-Serves true fuel 0 first no_objects oss h v,
  )

  -- When a request fails after any number of segments, the process exits and nothing has been sent,
  -- not even the metric of a failed listing.
  pub blob_collect-fatal :
      (fuel : ℕ) (first : Marker) (oss : List (List Object))
      → length oss < fuel
      → Serves false 0 first oss
      → collect conf not_done fuel first (some container) ≡ record { sent = []; exit = fatal }
  unfolding collect
  blob_collect-fatal fuel first oss h v = list_segments-Serves false fuel 0 first no_objects oss h v
