-- ===== src/Errorutil/Retry/Outcome.antt =====
-- Which attempt decides the outcome of pkg/errorutil/retry.go.
use Prim.Native.Nat.{◌*◌}
use iaa_s_exporter.Prelude.{
  ℕ, zero, suc, ◌+◌, ◌^◌, ◌%◌, ◌≤◌, ◌<◌, ◌≡◌, refl, true, false, Option, none, some, arith, leb,
  nat_eq,
}
use native.Mathlib.Nat.{pow-suc, one-le-pow, mul-le-mul_left, mul-le-mul_right}
use iaa_s_exporter.Prelude.Int.{ℤ, pos}
use iaa_s_exporter.Prelude.Word.{two63}
use iaa_s_exporter.Errorutil.Retry.{Run, Ended, returned, after_call, attempt_from, retry_on_err}
use iaa_s_exporter.Errorutil.Retry.Backoff.{nap_of, nap_of_bounds, pause_lem}

pub within : (a b : ℕ) → a ≤ b → leb a b ≡ true
within a b h = ground arith

pub beyond : (a b : ℕ) → b < a → leb a b ≡ false
beyond a b h = ground arith

pub no_wrap : (a : ℕ) → a < 255 → (a + 1) % 256 ≡ a + 1
no_wrap a h = omega arith

-- One pause takes less than a factor of three from what the duration may still grow by.
pub budget : (d d' n : ℕ) → d' < 3 * d → d * 3 ^ suc n < two63 → d' * 3 ^ n < two63
budget d d' n h k =
    let grown : d * 3 ^ suc n ≡ 3 * d * 3 ^ n = rw pow-suc (omega arith) in
    let below : d' * 3 ^ n ≤ 3 * d * 3 ^ n = mul-le-mul_right (3 ^ n) (omega arith) in omega arith

pub tripled : (d n : ℕ) → d * 3 ^ suc (suc n) < two63 → 3 * d < two63
tripled d n k =
    let grown : d * 3 ^ suc (suc n) ≡ 3 * d * 3 ^ suc n = rw pow-suc (omega arith) in
    let below : 3 * d * 1 ≤ 3 * d * 3 ^ suc n =
      mul-le-mul_left (3 * d) (one-le-pow (suc n) 3 (omega arith)) in
    omega arith

module _ {S E : Type 0} where
  -- How a run ended, without its pauses.
  abbrev pub outcome : Run S E → S × Ended E
  outcome r = (r.state, r.ended)

  abbrev pub or_else : S × Option E → (S → S × Option E) → S × Option E
  or_else (s, none) next = (s, none)
  or_else (s, some e) next = next s

  -- At most n tries in a row: the first success ends them, and else the last error stands.
  unfoldable pub try_upto : (S → S × Option E) → ℕ → S → S × Option E
  try_upto f zero s = (s, none)
  try_upto f (suc zero) s = f s
  try_upto f (suc (suc n)) s = or_else (f s) (try_upto f (suc n))

  abbrev pub ending : S × Option E → S × Ended E
  ending (s, e) = (s, returned e)

  -- The last attempt returns what `f` returned.
  last_call :
      (max draw : ℕ) (sleep : ℤ) (r : S × Option E) (next : S → ℤ → Run S E)
      → outcome (after_call max max sleep draw r next) ≡ ending r
  unfolding after_call
  last_call max draw sleep (s, none) next = refl
  last_call max draw sleep (s, some e) next = ground arith

  -- An earlier attempt that fails leaves the outcome to the rest of the loop.
  early_call :
      (max attempt d draw : ℕ) (r : S × Option E) (next : S → ℤ → Run S E) (rest : S → S × Option E)
      → attempt < max
      → 0 < d
      → 3 * d < two63
      → ((s : S) → outcome (next s (pos (nap_of d draw + nap_of d draw))) ≡ ending (rest s))
      → outcome (after_call max attempt (pos d) draw r next) ≡ ending (or_else r rest)
  unfolding after_call
  early_call max attempt d draw (s, none) next rest h p k ih = refl
  early_call max attempt d draw (s, some e) next rest h p k ih =
      rw (differ, pause_lem d draw s (next s) p k) (ih s)
    where
      differ : nat_eq attempt max ≡ false
      differ = ground arith

  attempt_from_lem :
      (fuel : ℕ) (f : S → S × Option E) (draws : ℕ → ℕ) (max attempt n d : ℕ) (s : S)
      → n < fuel
      → attempt + n ≡ max + 1
      → max < 256
      → 0 < d
      → d * 3 ^ n < two63
      → outcome (attempt_from fuel f draws max attempt (pos d) s) ≡ ending (try_upto f n s)
  unfolding attempt_from try_upto
  attempt_from_lem zero f draws max attempt n d s h e m p k = absurd (omega arith)
  attempt_from_lem (suc fuel) f draws max attempt zero d s h e m p k =
      rw (beyond attempt max (omega arith)) refl
  attempt_from_lem (suc fuel) f draws max attempt (suc zero) d s h e m p k =
      let same : attempt ≡ max = omega arith in
      rw (within attempt max (omega arith), same) (last_call max (draws max) (pos d) (f s) _)
  attempt_from_lem (suc fuel) f draws max attempt (suc (suc n)) d s h e m p k =
      let nap = nap_of d (draws attempt) in
      rw (within attempt max (omega arith)) (
        early_call max attempt d (draws attempt) (f s) _ (try_upto f (suc n)) (omega arith) p
          (tripled d n k)
          (λ s'. rw (no_wrap attempt (omega arith)) (
            attempt_from_lem fuel f draws max (attempt + 1) (suc n) (nap + nap) s' (omega arith)
              (omega arith) m (omega (arith, nap_of_bounds d (draws attempt) p))
              (budget d (nap + nap) (suc n) (nap_of_bounds d (draws attempt) p).1 k))))

  -- With at most 255 attempts, and a duration that the backoff does not push out of int64, the run
  -- ends as the attempts in a row do: the first success gives nil, and if every attempt fails, the
  -- error of the last one is returned. With no attempt allowed, nil is returned and `f` not called.
  pub retry_on_err_lem :
      (f : S → S × Option E) (draws : ℕ → ℕ) (max d : ℕ) (s : S)
      → max < 256
      → 0 < d
      → d * 3 ^ max < two63
      → outcome (retry_on_err f draws max (pos d) s) ≡ ending (try_upto f max s)
  unfolding retry_on_err
  retry_on_err_lem f draws max d s m p k =
      attempt_from_lem 256 f draws max 1 max d s m (omega arith) m p k
