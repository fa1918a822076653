-- ===== src/Errorutil/Retry/Backoff.antt =====
-- The pauses between the attempts of pkg/errorutil/retry.go: one round, and all of them.
use Prim.Native.Nat.{◌*◌}
use native.Mathlib.Nat.{mod-lt}
use iaa_s_exporter.Prelude.{ℕ, zero, suc, ◌+◌, ◌/◌, ◌%◌, ◌≤◌, ◌<◌, ◌≡◌, refl, arith}
use iaa_s_exporter.Prelude.Int.{ℤ, pos}
use iaa_s_exporter.Prelude.Word.{wrap64-add_pos, two63}
use iaa_s_exporter.Errorutil.Retry.{Run, int63n, nap_first, pause}

-- What is slept when the duration has reached d, and the jitter's draw is `draw`.
abbrev pub nap_of : ℕ → ℕ → ℕ
nap_of d draw = d + draw % d / 2

pub nap_of_bounds :
    (d draw : ℕ) → 0 < d → (d ≤ nap_of d draw) × (nap_of d draw + nap_of d draw < 3 * d)
nap_of_bounds d draw h = (omega arith, omega (arith, mod-lt draw h))

-- One pause, where nothing overflows.
pub pause_lem :
    {S E : Type 0} (d draw : ℕ) (s : S) (next : ℤ → Run S E)
    → 0 < d
    → 3 * d < two63
    → pause (pos d) s (int63n draw (pos d)) next
      ≡ nap_first (pos (nap_of d draw)) (next (pos (nap_of d draw + nap_of d draw)))
unfolding pause int63n
pause_lem zero draw s next h k = absurd (omega arith)
pause_lem (suc d) draw s next h k =
    rw (wrap64-add_pos (suc d) (draw % suc d / 2) (omega (arith, nap_of_bounds (suc d) draw h))) (
      rw
        (wrap64-add_pos (nap_of (suc d) draw) (nap_of (suc d) draw)
          (omega (arith, nap_of_bounds (suc d) draw h)))
        refl)
