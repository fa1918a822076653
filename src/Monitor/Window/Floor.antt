-- ===== src/Monitor/Window/Floor.antt =====
-- Where the window of pkg/cloud/aws/monitor/aws_monitor.go lies: AWS recommends that it ends at a
-- multiple of the period, and that is where it ends.
use native.Mathlib.Nat.{mod-eq_of_lt, mod-eq-sub-mod, mod-add-mod, mod-lt, mod-le}
use mathlib.Core.Path.{subst}
use iaa_s_exporter.Prelude.{
  ℕ, suc, ◌+◌, ◌-◌, ◌/◌, ◌%◌, ◌<◌, ◌≤◌, ◌≡◌, refl, sym, ◌∙◌, arith, ltb, if◌then◌else◌, Bool-cases,
  inl, inr, ◌⊎◌, true, ltb→lt,
}
use iaa_s_exporter.Prelude.Int.{pos, sub_ℕ, ◌+ℤ◌, ◌-ℤ◌, quot_ℤ, ltb_ℤ}
use iaa_s_exporter.Prelude.Word.{wrap64, two63, wrap64-add_pos}
use iaa_s_exporter.Monitor.Window.{round, opposite, rounded_down, determine_get_metric_data_window}

-- How far a time m is past a multiple of p, against the time h later.
past_half :
    (m h p : ℕ)
    → m % p < p
    → h ≤ p
    → ((m % p + h < p) × ((m + h) % p ≡ m % p + h))
      ⊎ ((p ≤ m % p + h) × ((m + h) % p ≡ m % p + h - p))
past_half m h p b k = elim (Bool-cases (ltb (m % p + h) p)) [
  | inl e ↦
      let l : m % p + h < p = ltb→lt (m % p + h) p e in
      inl (l, sym (mod-add-mod m p h) ∙ mod-eq_of_lt l)
  | inr e ↦
      let l : p ≤ m % p + h = ground arith in
      inr (
        l,
        sym (mod-add-mod m p h)
            ∙ mod-eq-sub-mod l
            ∙ mod-eq_of_lt (let below : m % p + h - p < p = omega arith in below),
      )
]

nearest :
    (m r p h n s : ℕ)
    → r < p
    → r ≤ m
    → h + h ≤ p
    → p ≤ h + h + 1
    → m + h ≡ n
    → ((r + h < p) × (s ≡ r + h)) ⊎ ((p ≤ r + h) × (s ≡ r + h - p))
    → (if ltb (r + r) p then pos m -ℤ pos r else pos m +ℤ pos (p - r)) ≡ pos (n - s)
unfolding ◌+ℤ◌ ◌-ℤ◌
nearest m r p h n s a b c d e (inl (l, f)) = ground arith
nearest m r p h n s a b c d e (inr (l, f)) = ground arith

-- Half a period before n, the nearest multiple is the last one up to n.
round-half :
    (n d : ℕ) → suc d / 2 ≤ n → round (pos (n - suc d / 2)) (pos (suc d)) ≡ pos (n - n % suc d)
unfolding round
round-half n d h =
    nearest m (m % p) p (p / 2) n (n % p) b (mod-le m p) (omega arith) (omega arith) whole (
      subst
        (λ x.
          ((m % p + p / 2 < p) × (x % p ≡ m % p + p / 2))
          ⊎ ((p ≤ m % p + p / 2) × (x % p ≡ m % p + p / 2 - p)))
        whole (past_half m (p / 2) p b (omega arith)))
  where
    p : ℕ
    p = suc d

    m : ℕ
    m = n - suc d / 2

    b : m % p < p
    b = mod-lt m (omega arith)

    whole : m + p / 2 ≡ n
    whole = omega arith

opposite_pos : (d : ℕ) → d < two63 → opposite (pos d) ≡ sub_ℕ 0 d
unfolding wrap64 ◌-ℤ◌
opposite_pos d h = ground arith

half_back : (d : ℕ) → suc d < two63 → quot_ℤ (opposite (pos (suc d))) 2 ≡ sub_ℕ 0 (suc d / 2)
half_back d h = rw (opposite_pos (suc d) h) (ground arith)

back : (n h : ℕ) → h ≤ n → pos n +ℤ sub_ℕ 0 h ≡ pos (n - h)
unfolding ◌+ℤ◌
back n h l = ground arith

rounded_down-floor :
    (n d : ℕ)
    → suc d < two63
    → suc d / 2 ≤ n
    → rounded_down (pos n) (pos (suc d)) ≡ pos (n - n % suc d)
unfolding rounded_down
rounded_down-floor n d b h = rw (positive, half_back d b, back n (suc d / 2) h) (round-half n d h)
  where
    positive : ltb_ℤ (pos 0) (pos (suc d)) ≡ true
    positive = ground arith

-- With a period of at least one nanosecond, durations that fit int64, a time that is half a period
-- or more past the zero time, and a window that does not begin before it, the window ends the delay
-- before the last multiple of the period that has come, and is as long as it was asked to be.
pub determine_get_metric_data_window_lem :
    (n d length delay : ℕ)
    → suc d < two63
    → suc d / 2 ≤ n
    → length + delay < two63
    → length + delay ≤ n - n % suc d
    → let last = n - n % suc d in
      determine_get_metric_data_window (pos n) (pos (suc d)) (pos length) (pos delay)
      ≡ (pos (last - (length + delay)), pos (last - delay))
unfolding determine_get_metric_data_window
determine_get_metric_data_window_lem n d length delay b h s l =
    rw
      (
        rounded_down-floor n d b h,
        wrap64-add_pos length delay s,
        opposite_pos (length + delay) s,
        opposite_pos delay (omega arith),
        back (n - n % suc d) (length + delay) l,
        back (n - n % suc d) delay (omega arith),
      )
      refl
