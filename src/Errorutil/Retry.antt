-- ===== src/Errorutil/Retry.antt =====
-- pkg/errorutil/retry.go. The function that is retried is a Go closure: it takes the state that it
-- captures and returns the new state with its error. `draws` are the numbers of math/rand: the one
-- taken after attempt number n is `draws n`, reduced as `rand.Int63n` does. A run records the
-- durations that were slept, in order, and how it ended.
pub mod Outcome
pub mod Backoff
pub mod Pauses
pub mod Logged
pub mod Terminates
pub mod Numbered
mod Tests
use iaa_s_exporter.Prelude.{
  ℕ, zero, suc, ◌+◌, ◌%◌, Option, none, some, List, [], ◌∷◌, leb, nat_eq, if◌then◌else◌,
}
use iaa_s_exporter.Prelude.Int.{ℤ, pos, negsuc, ◌+ℤ◌, quot_ℤ}
use iaa_s_exporter.Prelude.Word.{wrap64}

pub data Ended (E : Type 0) : Type 0 where
  returned : Option E → Ended E
  panicked out_of_fuel : Ended E

pub record Run (S E : Type 0) : Type 0 where
  pub state : S
  pub slept : List ℤ
  pub ended : Ended E

-- An error with the function that failed and the number of attempts, as the log line has them.
pub record LoggedRun (S E : Type 0) : Type 0 where
  pub run : Run S E
  pub log : List (E × ℕ)

-- rand.Int63n(n) panics unless 0 < n, and else returns a number below n.
unfoldable pub int63n : ℕ → ℤ → Option ℤ
int63n draw (pos zero) = none
int63n draw (pos (suc n)) = some (pos (draw % suc n))
int63n draw (negsuc n) = none

module _ {S E : Type 0} where
  abbrev pub stop : S → Ended E → Run S E
  stop s how = record { state = s; slept = []; ended = how }

  abbrev pub nap_first : ℤ → Run S E → Run S E
  nap_first nap r = record r { slept = nap ∷ r.slept }

  -- The rest of the loop's body after the jitter: sleep, then go on with twice the duration.
  pub pause : ℤ → S → Option ℤ → (ℤ → Run S E) → Run S E
  pause sleep s none next = stop s panicked
  pause sleep s (some jitter) next =
      let nap = wrap64 (sleep +ℤ quot_ℤ jitter 2) in nap_first nap (next (wrap64 (nap +ℤ nap)))

  -- The body of the loop once `f` has returned.
  pub after_call : ℕ → ℕ → ℤ → ℕ → S × Option E → (S → ℤ → Run S E) → Run S E
  unfolding pause
  after_call max_attempts attempt sleep draw (s, none) next = stop s (returned none)
  after_call max_attempts attempt sleep draw (s, some e) next =
      if nat_eq attempt max_attempts
      then stop s (returned (some e))
      else pause sleep s (int63n draw sleep) (next s)

  -- The loop; `attempt` is a uint8 and wraps.
  pub attempt_from : ℕ → (S → S × Option E) → (ℕ → ℕ) → ℕ → ℕ → ℤ → S → Run S E
  unfolding after_call
  attempt_from zero f draws max_attempts attempt sleep s = stop s out_of_fuel
  attempt_from (suc fuel) f draws max_attempts attempt sleep s =
      if leb attempt max_attempts
      then after_call max_attempts attempt sleep (draws attempt) (f s)
          (λ s' sleep'. attempt_from fuel f draws max_attempts ((attempt + 1) % 256) sleep' s')
      else stop s (returned none)

  -- A uint8 counter takes 256 values, so 256 rounds are enough.
  unfoldable pub retry_on_err : (S → S × Option E) → (ℕ → ℕ) → ℕ → ℤ → S → Run S E
  unfolding attempt_from int63n
  retry_on_err f draws max_attempts sleep s = attempt_from 256 f draws max_attempts 1 sleep s

  abbrev pub nap_first_logged : ℤ → LoggedRun S E → LoggedRun S E
  nap_first_logged nap r = record r { run = nap_first nap r.run }

  pub pause_logged : ℤ → S → Option ℤ → (ℤ → LoggedRun S E) → LoggedRun S E
  pause_logged sleep s none next = record { run = stop s panicked; log = [] }
  pause_logged sleep s (some jitter) next =
      let nap = wrap64 (sleep +ℤ quot_ℤ jitter 2) in
      nap_first_logged nap (next (wrap64 (nap +ℤ nap)))

  pub after_call_logged : ℕ → ℕ → ℤ → ℕ → S × Option E → (S → ℤ → LoggedRun S E) → LoggedRun S E
  unfolding pause_logged
  after_call_logged max_attempts attempt sleep draw (s, none) next = record {
    run = stop s (returned none);
    log = [];
  }
  after_call_logged max_attempts attempt sleep draw (s, some e) next =
      if nat_eq attempt max_attempts
      then record { run = stop s (returned (some e)); log = (e, max_attempts) ∷ [] }
      else pause_logged sleep s (int63n draw sleep) (next s)

  pub attempt_from_logged : ℕ → (S → S × Option E) → (ℕ → ℕ) → ℕ → ℕ → ℤ → S → LoggedRun S E
  unfolding after_call_logged
  attempt_from_logged zero f draws max_attempts attempt sleep s = record {
    run = stop s out_of_fuel;
    log = [];
  }
  attempt_from_logged (suc fuel) f draws max_attempts attempt sleep s =
      if leb attempt max_attempts
      then after_call_logged max_attempts attempt sleep (draws attempt) (f s) (λ s' sleep'.
        attempt_from_logged fuel f draws max_attempts ((attempt + 1) % 256) sleep' s')
      else record { run = stop s (returned none); log = [] }

  unfoldable pub retry_on_err_with_log : (S → S × Option E) → (ℕ → ℕ) → ℕ → ℤ → S → LoggedRun S E
  unfolding attempt_from_logged int63n
  retry_on_err_with_log f draws max_attempts sleep s =
      attempt_from_logged 256 f draws max_attempts 1 sleep s
