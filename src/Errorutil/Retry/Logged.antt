-- ===== src/Errorutil/Retry/Logged.antt =====
-- `RetryOnErrWithLog` against `RetryOnErr`, of pkg/errorutil/retry.go.
use iaa_s_exporter.Prelude.{
  ℕ, zero, suc, ◌+◌, ◌%◌, ◌≡◌, refl, List, [], ◌∷◌, Option, none, some, nat_eq, leb, Bool-cases,
  inl, inr,
}
use iaa_s_exporter.Prelude.Int.{ℤ}
use iaa_s_exporter.Errorutil.Retry.{
  Run, LoggedRun, Ended, returned, panicked, out_of_fuel, int63n, pause, after_call, attempt_from,
  retry_on_err, pause_logged, after_call_logged, attempt_from_logged, retry_on_err_with_log,
}

-- What is logged when a run ends so: an error that is returned, and nothing else.
abbrev pub report : {E : Type 0} → ℕ → Ended E → List (E × ℕ)
report max (returned (some e)) = (e, max) ∷ []
report max (returned none) = []
report max panicked = []
report max out_of_fuel = []

module _ {S E : Type 0} where
  -- `l` does what `r` does, and logs the error that it returns.
  abbrev Reports : ℕ → LoggedRun S E → Run S E → Type 0
  Reports max l r = (l.run ≡ r) × (l.log ≡ report max r.ended)

  pause-Reports :
      (max : ℕ) (sleep : ℤ) (s : S) (o : Option ℤ) (l : ℤ → LoggedRun S E) (r : ℤ → Run S E)
      → ((d : ℤ) → Reports max (l d) (r d))
      → Reports max (pause_logged sleep s o l) (pause sleep s o r)
  unfolding pause pause_logged
  pause-Reports max sleep s none l r h = (refl, refl)
  pause-Reports max sleep s (some j) l r h = (rw (h _).0 refl, (h _).1)

  after_call-Reports :
      (max attempt : ℕ) (sleep : ℤ) (draw : ℕ) (c : S × Option E) (l : S → ℤ → LoggedRun S E)
      (r : S → ℤ → Run S E)
      → ((s : S) (d : ℤ) → Reports max (l s d) (r s d))
      → Reports max
          (after_call_logged max attempt sleep draw c l)
          (after_call max attempt sleep draw c r)
  unfolding after_call after_call_logged
  after_call-Reports max attempt sleep draw (s, none) l r h = (refl, refl)
  after_call-Reports max attempt sleep draw (s, some e) l r h =
      elim (Bool-cases (nat_eq attempt max)) [
        | inl p ↦ rw p (refl, refl)
        | inr p ↦ rw p (pause-Reports max sleep s (int63n draw sleep) (l s) (r s) (h s))
      ]

  attempt_from-Reports :
      (fuel : ℕ) (f : S → S × Option E) (draws : ℕ → ℕ) (max attempt : ℕ) (sleep : ℤ) (s : S)
      → Reports max
          (attempt_from_logged fuel f draws max attempt sleep s)
          (attempt_from fuel f draws max attempt sleep s)
  unfolding attempt_from attempt_from_logged
  attempt_from-Reports zero f draws max attempt sleep s = (refl, refl)
  attempt_from-Reports (suc fuel) f draws max attempt sleep s =
      elim (Bool-cases (leb attempt max)) [
        | inl p ↦ rw p (
            after_call-Reports max attempt sleep (draws attempt) (f s) _ _
              (λ s' d. attempt_from-Reports fuel f draws max ((attempt + 1) % 256) d s'))
        | inr p ↦ rw p (refl, refl)
      ]

  -- `RetryOnErrWithLog` ends in the same state, with the same pauses and the same result as
  -- `RetryOnErr`, whatever the function, the draws and the arguments are; it logs one line, with the
  -- error and the number of attempts, exactly when an error is returned.
  pub retry_on_err_with_log_lem :
      (f : S → S × Option E) (draws : ℕ → ℕ) (max : ℕ) (sleep : ℤ) (s : S)
      → ((retry_on_err_with_log f draws max sleep s).run ≡ retry_on_err f draws max sleep s)
        × ((retry_on_err_with_log f draws max sleep s).log
            ≡ report max (retry_on_err f draws max sleep s).ended)
  unfolding retry_on_err retry_on_err_with_log
  retry_on_err_with_log_lem f draws max sleep s = attempt_from-Reports 256 f draws max 1 sleep s
