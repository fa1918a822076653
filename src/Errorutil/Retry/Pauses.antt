-- ===== src/Errorutil/Retry/Pauses.antt =====
-- The pauses of a whole run of pkg/errorutil/retry.go: how long and how many, and the panic of a
-- duration that is not positive.
use Prim.Native.Nat.{◌*◌}
use iaa_s_exporter.Prelude.{
  ℕ, zero, suc, ◌+◌, ◌^◌, ◌≤◌, ◌<◌, ◌≡◌, refl, List, [], ◌∷◌, Option, none, some, arith, nat_eq,
  length, true, false,
}
use iaa_s_exporter.Prelude.Int.{ℤ, pos, negsuc, ◌≤ℤ◌}
use iaa_s_exporter.Prelude.Word.{two63}
use iaa_s_exporter.Errorutil.Retry.{
  Run, panicked, int63n, stop, pause, after_call, attempt_from, retry_on_err,
}
use iaa_s_exporter.Errorutil.Retry.Backoff.{nap_of, nap_of_bounds, pause_lem}
use iaa_s_exporter.Errorutil.Retry.Outcome.{within, no_wrap, budget, tripled}

-- Each pause lasts at least the duration reached so far and less than half as long again, and the
-- duration is then twice the pause.
abbrev pub IsBackoff : ℕ → List ℤ → Type 0
IsBackoff d [] = Unit
IsBackoff d (nap ∷ naps) =
    (n : ℕ) × (nap ≡ pos n) × (d ≤ n) × (2 * n < 3 * d) × IsBackoff (n + n) naps

-- At most k pauses, and they back off from d.
abbrev Pauses : ℕ → ℕ → List ℤ → Type 0
Pauses d k naps = IsBackoff d naps × (length naps ≤ k)

no_draw : (sleep : ℤ) (draw : ℕ) → sleep ≤ℤ pos 0 → int63n draw sleep ≡ none
unfolding int63n
no_draw (pos zero) draw h = refl
no_draw (pos (suc n)) draw h = absurd (omega arith)
no_draw (negsuc n) draw h = refl

module _ {S E : Type 0} where
  last_call-Pauses :
      (max draw d : ℕ) (sleep : ℤ) (r : S × Option E) (next : S → ℤ → Run S E)
      → Pauses d 0 (after_call max max sleep draw r next).slept
  unfolding after_call
  last_call-Pauses max draw d sleep (s, none) next = (tt, omega arith)
  last_call-Pauses max draw d sleep (s, some e) next = rw same (tt, omega arith)
    where
      same : nat_eq max max ≡ true
      same = ground arith

  early_call-Pauses :
      (max attempt d draw k : ℕ) (r : S × Option E) (next : S → ℤ → Run S E)
      → attempt < max
      → 0 < d
      → 3 * d < two63
      → ((s : S)
          → Pauses
              (nap_of d draw + nap_of d draw)
              k
              (next s (pos (nap_of d draw + nap_of d draw))).slept)
      → Pauses d (suc k) (after_call max attempt (pos d) draw r next).slept
  unfolding after_call
  early_call-Pauses max attempt d draw k (s, none) next h p b ih = (tt, omega arith)
  early_call-Pauses max attempt d draw k (s, some e) next h p b ih =
      rw (differ, pause_lem d draw s (next s) p b)
        (
          (
            nap_of d draw,
            refl,
            (nap_of_bounds d draw p).0,
            omega (arith, nap_of_bounds d draw p),
            (ih s).0,
          ),
          omega (arith, ih s),
        )
    where
      differ : nat_eq attempt max ≡ false
      differ = ground arith

  attempt_from-Pauses :
      (fuel : ℕ) (f : S → S × Option E) (draws : ℕ → ℕ) (max attempt n d : ℕ) (s : S)
      → n < fuel
      → attempt + suc n ≡ max + 1
      → max < 256
      → 0 < d
      → d * 3 ^ suc n < two63
      → Pauses d n (attempt_from fuel f draws max attempt (pos d) s).slept
  unfolding attempt_from
  attempt_from-Pauses zero f draws max attempt n d s h e m p k = absurd (omega arith)
  attempt_from-Pauses (suc fuel) f draws max attempt zero d s h e m p k =
      let same : attempt ≡ max = omega arith in
      rw (within attempt max (omega arith), same)
        (last_call-Pauses max (draws max) d (pos d) (f s) _)
  attempt_from-Pauses (suc fuel) f draws max attempt (suc n) d s h e m p k =
      let nap = nap_of d (draws attempt) in
      rw (within attempt max (omega arith)) (
        early_call-Pauses max attempt d (draws attempt) n (f s) _ (omega arith) p (tripled d n k)
          (λ s'. rw (no_wrap attempt (omega arith)) (
            attempt_from-Pauses fuel f draws max (attempt + 1) n (nap + nap) s' (omega arith)
              (omega arith) m (omega (arith, nap_of_bounds d (draws attempt) p))
              (budget d (nap + nap) (suc n) (nap_of_bounds d (draws attempt) p).1 k))))

  -- With n + 1 attempts allowed there are at most n pauses, the first of at least the given
  -- duration d and below 3d/2, and each next one likewise for twice the pause before it.
  pub retry_on_err-backs_off :
      (f : S → S × Option E) (draws : ℕ → ℕ) (n d : ℕ) (s : S)
      → n < 255
      → 0 < d
      → d * 3 ^ suc n < two63
      → IsBackoff d (retry_on_err f draws (suc n) (pos d) s).slept
        × (length (retry_on_err f draws (suc n) (pos d) s).slept ≤ n)
  unfolding retry_on_err
  retry_on_err-backs_off f draws n d s m p k =
      attempt_from-Pauses 256 f draws (suc n) 1 n d s (omega arith) (omega arith) (omega arith) p k

  attempt_from-panics :
      (fuel : ℕ) (f : S → S × Option E) (draws : ℕ → ℕ) (max attempt : ℕ) (sleep : ℤ) (s s' : S)
      (e : E)
      → attempt < max
      → sleep ≤ℤ pos 0
      → f s ≡ (s', some e)
      → attempt_from (suc fuel) f draws max attempt sleep s ≡ stop s' panicked
  unfolding attempt_from after_call pause
  attempt_from-panics fuel f draws max attempt sleep s s' e m h q =
      rw (within attempt max (omega arith), q, differ, no_draw sleep (draws attempt) h) refl
    where
      differ : nat_eq attempt max ≡ false
      differ = ground arith

  -- With a duration of zero or less and a second attempt allowed, a failing first attempt panics:
  -- the jitter's `rand.Int63n` has no number to return.
  pub retry_on_err-panics :
      (f : S → S × Option E) (draws : ℕ → ℕ) (max : ℕ) (sleep : ℤ) (s s' : S) (e : E)
      → 2 ≤ max
      → sleep ≤ℤ pos 0
      → f s ≡ (s', some e)
      → retry_on_err f draws max sleep s ≡ stop s' panicked
  unfolding retry_on_err
  retry_on_err-panics f draws max sleep s s' e m h q =
      attempt_from-panics 255 f draws max 1 sleep s s' e m h q
