-- ===== src/Bucket/Gcp.antt =====
-- pkg/cloud/gcp/vault_backup_bucket.go: `Collect` over an iterator of objects. What `it.Next()`
-- returns at the call numbered n is `client n`.
use iaa_s_exporter.Prelude.{ℕ, zero, suc, ◌+◌, ◌-◌, ◌<◌, ◌≡◌, refl, List, [], ◌∷◌, arith, length}
use iaa_s_exporter.Config.{VaultBackupBucketConfig}
use iaa_s_exporter.Bucket.{
  Object, Stats, no_objects, Collected, returned, out_of_fuel, listing_failed, died, sent_all,
}
use iaa_s_exporter.Bucket.Totals.{observe, observe_all, Reports, observe_all_lem}

-- The `modified` of an object is its `Created` here.
pub data Next : Type 0 where
  done failed : Next
  attrs : Object → Next

abbrev pub Iter : Type 0
Iter = ℕ → Next

module _ (conf : VaultBackupBucketConfig) where
  after_next : Next → Stats → (Stats → Collected) → Collected
  after_next done s next = record {
    sent = sent_all conf.bucket conf.prefix s.last_modified s;
    exit = returned;
  }
  after_next failed s next = listing_failed conf.bucket conf.prefix
  after_next (attrs o) s next = next (observe s o)

  iterate : ℕ → Iter → ℕ → Stats → Collected
  unfolding after_next
  iterate zero it call s = died conf.bucket conf.prefix out_of_fuel
  iterate (suc fuel) it call s = after_next (it call) s (λ s'. iterate fuel it (suc call) s')

  unfoldable pub collect : ℕ → Iter → Collected
  unfolding iterate
  collect fuel it = iterate fuel it 0 no_objects

-- From a call on, the iterator yields these objects and then ends so.
abbrev pub Yields : Iter → ℕ → List Object → Next → Type 0
Yields it call [] end = it call ≡ end
Yields it call (o ∷ os) end = (it call ≡ attrs o) × Yields it (suc call) os end

module _ (conf : VaultBackupBucketConfig) (it : Iter) where
  iterate-Yields :
      (fuel call : ℕ) (s : Stats) (os : List Object) (end : Next)
      → length os < fuel
      → Yields it call os end
      → iterate conf fuel it call s
        ≡ after_next conf end
            (observe_all s os)
            (λ s'. iterate conf (fuel - suc (length os)) it (suc (call + length os)) s')
  unfolding iterate observe_all after_next
  iterate-Yields zero call s os end h y = absurd (omega arith)
  iterate-Yields (suc fuel) call s [] end h y =
      let e : suc fuel - 1 ≡ fuel = omega arith in
      let e' : call + 0 ≡ call = omega arith in rw (y, e, e') refl
  iterate-Yields (suc fuel) call s (o ∷ os) end h y =
      let e : suc fuel - suc (suc (length os)) ≡ fuel - suc (length os) = omega arith in
      let e' : call + suc (length os) ≡ suc call + length os = omega arith in
      rw (y.0, e, e') (iterate-Yields fuel (suc call) (observe s o) os end (omega arith) y.1)

  -- When the iterator yields all the objects and is done, and the fuel exceeds their number, the six
  -- metrics report their figures, the date being that of creation.
  pub gcs_collect-Reports :
      (fuel : ℕ) (os : List Object)
      → length os < fuel
      → Yields it 0 os done
      → Reports conf os (collect conf fuel it)
  unfolding collect after_next
  gcs_collect-Reports fuel os h y =
      (observe_all no_objects os, observe_all_lem os, iterate-Yields fuel 0 no_objects os done h y)

  -- When the iterator fails after any number of objects, nothing is sent but the metric of the
  -- failed listing, and the collection returns.
  pub gcs_collect-fails :
      (fuel : ℕ) (os : List Object)
      → length os < fuel
      → Yields it 0 os failed
      → collect conf fuel it ≡ listing_failed conf.bucket conf.prefix
  unfolding collect after_next
  gcs_collect-fails fuel os h y = iterate-Yields fuel 0 no_objects os failed h y
