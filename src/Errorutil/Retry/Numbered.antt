-- ===== src/Errorutil/Retry/Numbered.antt =====
-- Tries of a call that answers each time it is made: the state is the number of calls made so far,
-- with what the last of them gave.
use iaa_s_exporter.Prelude.{ℕ, zero, suc, ◌+◌, ◌≤◌, ◌≡◌, refl, ap, Option, none, some, arith}
use iaa_s_exporter.Errorutil.Retry.Outcome.{try_upto, or_else}

-- After a failure the next try decides.
pub or_else-some :
    {S E : Type 0}
    → (r : S × Option E) (next : S → S × Option E) {e : E} → r.1 ≡ some e
    → or_else r next ≡ next r.0
or_else-some (r, none) next h = cc
or_else-some (r, some e) next h = refl

module _ {A E : Type 0} (call : ℕ → A × Option E) where
  -- The call numbered c and the k calls after it: the first k fail, and the last one answers.
  abbrev pub Answers : ℕ → ℕ → A → Type 0
  Answers c zero a = call c ≡ (a, none)
  Answers c (suc k) a = ((e : E) × ((call c).1 ≡ some e)) × Answers (suc c) k a

  module _ {S : Type 0} (f : S → S × Option E) (at : ℕ → A → S)
      (step : (c : ℕ) (a : A) → f (at c a) ≡ (at (suc c) (call c).0, (call c).1)) where
    -- If there are more tries than calls that fail, the first answer is the result.
    pub try_upto-Answers :
        (n k c : ℕ) (a b : A)
        → k ≤ n
        → Answers c k b
        → try_upto f (suc n) (at c a) ≡ (at (suc (c + k)) b, none)
    unfolding try_upto
    try_upto-Answers zero zero c a b h w =
        let e : c + 0 ≡ c = omega arith in rw (e, step c a) (ap (λ r. (at (suc c) r.0, r.1)) w)
    try_upto-Answers (suc n) zero c a b h w =
        let e : c + 0 ≡ c = omega arith in
        rw (e, step c a) (ap (λ r. or_else (at (suc c) r.0, r.1) (try_upto f (suc n))) w)
    try_upto-Answers (suc n) (suc k) c a b h w =
        let e : c + suc k ≡ suc c + k = omega arith in
        rw
          (e, step c a, or_else-some (at (suc c) (call c).0, (call c).1) (try_upto f (suc n)) w.0.1)
          (try_upto-Answers n k (suc c) (call c).0 b (omega arith) w.1)
    try_upto-Answers zero (suc k) c a b h w = absurd (omega arith)
