-- ===== src/Bucket/AliCloud.antt =====
-- pkg/cloud/alicloud/vault_backup_bucket.go: `Collect` over OSS's ListObjects. The bucket answers
-- the call numbered n, with a marker, with a page or an error.
use mathlib.Core.List.{append-nil}
use iaa_s_exporter.Prelude.{
  ℕ, zero, suc, ◌≤◌, ◌<◌, ◌≡◌, refl, String, Bool, true, false, Option, none, some, List, [], ◌∷◌,
  map, arith, if◌then◌else◌, length, flatten,
}
use iaa_s_exporter.Config.{VaultBackupBucketConfig}
use iaa_s_exporter.Bucket.{
  Object, Stats, no_objects, Collected, returned, out_of_fuel, listing_failed, died, sent_all,
}
use iaa_s_exporter.Bucket.Totals.{observe_all, observe_all-append, Reports, observe_all_lem}

pub record ListObjectsResult : Type 0 where
  pub objects : List Object
  pub is_truncated : Bool
  pub next_marker : String

abbrev pub OssBucket : Type 0
OssBucket = ℕ → String → Option ListObjectsResult

module _ (conf : VaultBackupBucketConfig) where
  after_list : Option ListObjectsResult → Stats → (String → Stats → Collected) → Collected
  after_list none s next = listing_failed conf.bucket conf.prefix
  after_list (some res) s next =
      let s' = observe_all s res.objects in
      if res.is_truncated
      then next res.next_marker s'
      else record { sent = sent_all conf.bucket conf.prefix s'.last_modified s'; exit = returned }

  list_all : ℕ → OssBucket → ℕ → String → Stats → Collected
  unfolding after_list
  list_all zero bucket call marker s = died conf.bucket conf.prefix out_of_fuel
  list_all (suc fuel) bucket call marker s =
      after_list (bucket call marker) s (λ marker' s'. list_all fuel bucket (suc call) marker' s')

  -- `m.client.Bucket` returns an error, or a bucket.
  unfoldable pub collect : ℕ → Option OssBucket → Collected
  unfolding list_all
  collect fuel none = listing_failed conf.bucket conf.prefix
  collect fuel (some bucket) = list_all fuel bucket 0 "" no_objects

-- From a call on, the bucket serves these pages, and the last one is not truncated.
abbrev pub Serves : OssBucket → ℕ → String → List ListObjectsResult → Type 0
Serves bucket call marker [] = ⊥
Serves bucket call marker (p ∷ []) = (bucket call marker ≡ some p) × (p.is_truncated ≡ false)
Serves bucket call marker (p ∷ q ∷ ps) =
    (bucket call marker ≡ some p)
    × (p.is_truncated ≡ true)
    × Serves bucket (suc call) p.next_marker (q ∷ ps)

-- From a call on, the bucket serves these truncated pages, and then fails.
abbrev pub Breaks : OssBucket → ℕ → String → List ListObjectsResult → Type 0
Breaks bucket call marker [] = bucket call marker ≡ none
Breaks bucket call marker (p ∷ ps) =
    (bucket call marker ≡ some p)
    × (p.is_truncated ≡ true)
    × Breaks bucket (suc call) p.next_marker ps

abbrev pub objects_of : List ListObjectsResult → List Object
objects_of ps = flatten (map (λ p. p.objects) ps)

module _ (conf : VaultBackupBucketConfig) (bucket : OssBucket) where
  list_all-Serves :
      (fuel call : ℕ) (marker : String) (s : Stats) (ps : List ListObjectsResult)
      → length ps ≤ fuel
      → Serves bucket call marker ps
      → list_all conf fuel bucket call marker s ≡ (
          let s' = observe_all s (objects_of ps) in
          record { sent = sent_all conf.bucket conf.prefix s'.last_modified s'; exit = returned })
  unfolding list_all after_list
  list_all-Serves fuel call marker s [] h v = absurd v
  list_all-Serves zero call marker s (p ∷ ps) h v = absurd (omega arith)
  list_all-Serves (suc fuel) call marker s (p ∷ []) h v = rw (v.0, v.1) (rw append-nil refl)
  list_all-Serves (suc fuel) call marker s (p ∷ q ∷ ps) h v =
      rw (v.0, v.1, observe_all-append)
        (list_all-Serves fuel (suc call) p.next_marker (observe_all s p.objects) (q ∷ ps)
          (omega arith) v.2)

  list_all-Breaks :
      (fuel call : ℕ) (marker : String) (s : Stats) (ps : List ListObjectsResult)
      → length ps < fuel
      → Breaks bucket call marker ps
      → list_all conf fuel bucket call marker s ≡ listing_failed conf.bucket conf.prefix
  unfolding list_all after_list
  list_all-Breaks zero call marker s ps h v = absurd (omega arith)
  list_all-Breaks (suc fuel) call marker s [] h v = rw v refl
  list_all-Breaks (suc fuel) call marker s (p ∷ ps) h v =
      rw (v.0, v.1)
        (list_all-Breaks fuel (suc call) p.next_marker (observe_all s p.objects) ps (omega arith)
          v.2)

  -- When the bucket serves all pages, and the fuel is at least their number, the six metrics report
  -- the figures of the objects of all the pages together.
  pub oss_collect-Reports :
      (fuel : ℕ) (ps : List ListObjectsResult)
      → length ps ≤ fuel
      → Serves bucket 0 "" ps
      → Reports conf (objects_of ps) (collect conf fuel (some bucket))
  unfolding collect
  oss_collect-Reports fuel ps h v = (
    observe_all no_objects (objects_of ps),
    observe_all_lem (objects_of ps),
    list_all-Serves fuel 0 "" no_objects ps h v,
  )

  -- When a request fails after any number of pages, nothing is sent but the metric of the failed
  -- listing, and the collection returns.
  pub oss_collect-Breaks :
      (fuel : ℕ) (ps : List ListObjectsResult)
      → length ps < fuel
      → Breaks bucket 0 "" ps
      → collect conf fuel (some bucket) ≡ listing_failed conf.bucket conf.prefix
  unfolding collect
  oss_collect-Breaks fuel ps h v = list_all-Breaks fuel 0 "" no_objects ps h v
