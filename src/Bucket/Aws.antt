-- ===== src/Bucket/Aws.antt =====
-- pkg/cloud/aws/vault_bucket/vault_backup_bucket.go: `Collect` over S3's ListObjectsV2. The client
-- answers the call numbered n, with a continuation token, with a page or an error.
use mathlib.Core.List.{append-nil}
use iaa_s_exporter.Prelude.{
  ℕ, zero, suc, ◌≤◌, ◌<◌, ◌≡◌, refl, String, Bool, true, false, Option, none, some, List, [], ◌∷◌,
  map, arith, if◌then◌else◌, length, flatten,
}
use iaa_s_exporter.Prelude.Int.{ℤ}
use iaa_s_exporter.Config.{VaultBackupBucketConfig}
use iaa_s_exporter.Bucket.{
  Object, Stats, no_objects, Collected, returned, panicked, out_of_fuel, listing_failed, died,
  sent_all,
}
use iaa_s_exporter.Bucket.Totals.{
  observe, observe_all, observe_all-append, Reports, observe_all_lem,
}

pub record Item : Type 0 where
  pub size : ℤ
  pub last_modified : Option ℕ

pub record ListObjectsV2Output : Type 0 where
  pub contents : List Item
  pub is_truncated : Bool
  pub next_continuation_token : Option String

abbrev pub S3Client : Type 0
S3Client = ℕ → Option String → Option ListObjectsV2Output

-- The loop's body for one item: `item.LastModified.After` panics where the pointer is nil.
visit_item : Stats → ℤ → Option ℕ → Option Stats
visit_item s size none = none
visit_item s size (some t) = some (observe s (record { size = size; modified = t }))

visit_items : Stats → List Item → Option Stats
unfolding visit_item
visit_items s [] = some s
visit_items s (item ∷ items) = elim (visit_item s item.size item.last_modified) [
  | none ↦ none
  | some s' ↦ visit_items s' items
]

module _ (conf : VaultBackupBucketConfig) where
  after_page : ListObjectsV2Output → Option Stats → (Stats → Collected) → Collected
  after_page resp none next = died conf.bucket conf.prefix panicked
  after_page resp (some s) next =
      if resp.is_truncated
      then next s
      else record { sent = sent_all conf.bucket conf.prefix s.last_modified s; exit = returned }

  after_response :
      Option ListObjectsV2Output → Stats → (Option String → Stats → Collected) → Collected
  unfolding after_page visit_items
  after_response none s next = listing_failed conf.bucket conf.prefix
  after_response (some resp) s next =
      after_page resp (visit_items s resp.contents) (next resp.next_continuation_token)

  -- `for truncated`
  list_pages : ℕ → S3Client → ℕ → Option String → Stats → Collected
  unfolding after_response
  list_pages zero client call token s = died conf.bucket conf.prefix out_of_fuel
  list_pages (suc fuel) client call token s =
      after_response (client call token) s
        (λ token' s'. list_pages fuel client (suc call) token' s')

  unfoldable pub collect : ℕ → S3Client → Collected
  unfolding list_pages
  collect fuel client = list_pages fuel client 0 none no_objects

-- The client serves these pages from a call on, and the last one is not truncated.
abbrev pub Serves : S3Client → ℕ → Option String → List ListObjectsV2Output → Type 0
Serves client call token [] = ⊥
Serves client call token (p ∷ []) = (client call token ≡ some p) × (p.is_truncated ≡ false)
Serves client call token (p ∷ q ∷ ps) =
    (client call token ≡ some p)
    × (p.is_truncated ≡ true)
    × Serves client (suc call) p.next_continuation_token (q ∷ ps)

-- The client serves these truncated pages from a call on, and then fails.
abbrev pub Breaks : S3Client → ℕ → Option String → List ListObjectsV2Output → Type 0
Breaks client call token [] = client call token ≡ none
Breaks client call token (p ∷ ps) =
    (client call token ≡ some p)
    × (p.is_truncated ≡ true)
    × Breaks client (suc call) p.next_continuation_token ps

-- These are the objects of the pages: every item has a date.
abbrev pub item_of : Object → Item
item_of o = record { size = o.size; last_modified = some o.modified }

abbrev pub Holds : List ListObjectsV2Output → List (List Object) → Type 0
Holds [] [] = Unit
Holds (p ∷ ps) (os ∷ oss) = (p.contents ≡ map item_of os) × Holds ps oss
Holds _ _ = ⊥

visit_items-dated :
    (s : Stats) (os : List Object) → visit_items s (map item_of os) ≡ some (observe_all s os)
unfolding visit_items observe_all
visit_items-dated s [] = refl
visit_items-dated s (o ∷ os) = visit_items-dated (observe s o) os

module _ (conf : VaultBackupBucketConfig) (client : S3Client) where
  abbrev complete : Stats → Collected
  complete s = record { sent = sent_all conf.bucket conf.prefix s.last_modified s; exit = returned }

  list_pages-Serves :
      (fuel call : ℕ) (token : Option String) (s : Stats) (ps : List ListObjectsV2Output)
      (oss : List (List Object))
      → length ps ≤ fuel
      → Serves client call token ps
      → Holds ps oss
      → list_pages conf fuel client call token s ≡ complete (observe_all s (flatten oss))
  unfolding list_pages after_response after_page
  list_pages-Serves fuel call token s [] oss h v k = absurd v
  list_pages-Serves zero call token s (p ∷ ps) oss h v k = absurd (omega arith)
  list_pages-Serves fuel call token s (p ∷ ps) [] h v k = absurd k
  list_pages-Serves (suc fuel) call token s (p ∷ []) (os ∷ []) h v k =
      rw (v.0, k.0, visit_items-dated s os, v.1) (rw append-nil refl)
  list_pages-Serves (suc fuel) call token s (p ∷ []) (os ∷ os' ∷ oss) h v k = absurd k.1
  list_pages-Serves (suc fuel) call token s (p ∷ q ∷ ps) (os ∷ oss) h v k =
      rw (v.0, k.0, visit_items-dated s os, v.1, observe_all-append)
        (list_pages-Serves fuel (suc call) p.next_continuation_token (observe_all s os) (q ∷ ps) oss
          (omega arith) v.2 k.1)

  list_pages-Breaks :
      (fuel call : ℕ) (token : Option String) (s : Stats) (ps : List ListObjectsV2Output)
      (oss : List (List Object))
      → length ps < fuel
      → Breaks client call token ps
      → Holds ps oss
      → list_pages conf fuel client call token s ≡ listing_failed conf.bucket conf.prefix
  unfolding list_pages after_response after_page
  list_pages-Breaks zero call token s ps oss h v k = absurd (omega arith)
  list_pages-Breaks (suc fuel) call token s [] oss h v k = rw v refl
  list_pages-Breaks (suc fuel) call token s (p ∷ ps) [] h v k = absurd k
  list_pages-Breaks (suc fuel) call token s (p ∷ ps) (os ∷ oss) h v k =
      rw (v.0, k.0, visit_items-dated s os, v.1)
        (list_pages-Breaks fuel (suc call) p.next_continuation_token (observe_all s os) ps oss
          (omega arith) v.2 k.1)

  -- When the client serves all pages, with a date on every object, and the fuel is at least their
  -- number, the six metrics report the figures of the objects of all the pages together.
  pub s3_collect-Reports :
      (fuel : ℕ) (ps : List ListObjectsV2Output) (oss : List (List Object))
      → length ps ≤ fuel
      → Serves client 0 none ps
      → Holds ps oss
      → Reports conf (flatten oss) (collect conf fuel client)
  unfolding collect
  s3_collect-Reports fuel ps oss h v k = (
    observe_all no_objects (flatten oss),
    observe_all_lem (flatten oss),
    list_pages-Serves fuel 0 none no_objects ps oss h v k,
  )

  -- When a request fails after any number of pages, nothing is sent but the metric of the failed
  -- listing, and the collection returns.
  pub s3_collect-Breaks :
      (fuel : ℕ) (ps : List ListObjectsV2Output) (oss : List (List Object))
      → length ps < fuel
      → Breaks client 0 none ps
      → Holds ps oss
      → collect conf fuel client ≡ listing_failed conf.bucket conf.prefix
  unfolding collect
  s3_collect-Breaks fuel ps oss h v k = list_pages-Breaks fuel 0 none no_objects ps oss h v k
