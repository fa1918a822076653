-- ===== src/Errorutil/Retry/Terminates.antt =====
-- The loops of pkg/errorutil/retry.go end: the rounds that the model allows are enough.
use iaa_s_exporter.Prelude.{
  ℕ, zero, suc, ◌+◌, ◌≤◌, ◌<◌, ◌≡◌, ◌≢◌, true, false, Bool-cases, inl, inr, Option, none, some,
  arith, leb, nat_eq,
}
use iaa_s_exporter.Prelude.Int.{ℤ}
use iaa_s_exporter.Errorutil.Retry.{
  Run, Ended, returned, panicked, out_of_fuel, pause, after_call, attempt_from, retry_on_err,
  retry_on_err_with_log, int63n,
}
use iaa_s_exporter.Errorutil.Retry.Outcome.{no_wrap}
use iaa_s_exporter.Errorutil.Retry.Logged.{retry_on_err_with_log_lem}

module _ {E : Type 0} where
  returned-ends : (e : Option E) → returned e ≢ out_of_fuel
  returned-ends e h = cc

  panicked-ends : ◌≢◌ {A = Ended E} panicked out_of_fuel
  panicked-ends h = cc

module _ {S E : Type 0} where
  pause-ends :
      (sleep : ℤ) (s : S) (jitter : Option ℤ) (next : ℤ → Run S E)
      → ((sleep' : ℤ) → (next sleep').ended ≢ out_of_fuel)
      → (pause sleep s jitter next).ended ≢ out_of_fuel
  unfolding pause
  pause-ends sleep s none next h = panicked-ends
  pause-ends sleep s (some jitter) next h = h _

  after_call-ends :
      (max attempt draw : ℕ) (sleep : ℤ) (r : S × Option E) (next : S → ℤ → Run S E)
      → ((nat_eq attempt max ≡ false) → (s : S) (sleep' : ℤ) → (next s sleep').ended ≢ out_of_fuel)
      → (after_call max attempt sleep draw r next).ended ≢ out_of_fuel
  unfolding after_call
  after_call-ends max attempt draw sleep (s, none) next h = returned-ends none
  after_call-ends max attempt draw sleep (s, some e) next h =
      elim (Bool-cases (nat_eq attempt max)) [
        | inl p ↦ rw p (returned-ends (some e))
        | inr p ↦ rw p (pause-ends sleep s (int63n draw sleep) (next s) (h p s))
      ]

  attempt_from-ends :
      (fuel : ℕ) (f : S → S × Option E) (draws : ℕ → ℕ) (max attempt : ℕ) (sleep : ℤ) (s : S)
      → max < 256
      → 256 ≤ attempt + fuel
      → attempt < 256
      → (attempt_from fuel f draws max attempt sleep s).ended ≢ out_of_fuel
  unfolding attempt_from
  attempt_from-ends zero f draws max attempt sleep s m h a = absurd (omega arith)
  attempt_from-ends (suc fuel) f draws max attempt sleep s m h a =
      elim (Bool-cases (leb attempt max)) [
        | inl p ↦ rw p (
            after_call-ends max attempt (draws attempt) sleep (f s) _ (λ q s' sleep'.
              rw (no_wrap attempt (below p q)) (
                attempt_from-ends fuel f draws max (attempt + 1) sleep' s' m (omega arith)
                  (omega (arith, below p q)))))
        | inr p ↦ rw p (returned-ends none)
      ]
    where
      below : leb attempt max ≡ true → nat_eq attempt max ≡ false → attempt < 255
      below p q = ground arith

  -- Whatever the function, the random numbers, the sleep and the number of attempts that a uint8
  -- holds, 255 included, both loops end within the rounds that are allowed: they return or panic.
  pub retry_on_err-ends :
      (f : S → S × Option E) (draws : ℕ → ℕ) (max : ℕ) (sleep : ℤ) (s : S)
      → max < 256
      → ((retry_on_err f draws max sleep s).ended ≢ out_of_fuel)
        × ((retry_on_err_with_log f draws max sleep s).run.ended ≢ out_of_fuel)
  retry_on_err-ends f draws max sleep s m =
      let ends : (retry_on_err f draws max sleep s).ended ≢ out_of_fuel =
        unfold retry_on_err in
        attempt_from-ends 256 f draws max 1 sleep s m (omega arith) (omega arith) in
      (ends, rw (retry_on_err_with_log_lem f draws max sleep s).0 ends)
