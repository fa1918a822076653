-- ===== src/Prelude/Word.antt =====
-- The machine integers int32 and int64 as integers kept in range by two's complement wrap-around.
use Prim.Native.Nat.{ℕ, ◌+◌, ◌-◌, ◌%◌, ◌<◌}
use mathlib.Core.Path.{◌≡◌, ap, ◌∙◌, sym}
use native.Mathlib.Omega.{arith}
use iaa_s_exporter.Prelude.Tests.{ltb, if◌then◌else◌}
use iaa_s_exporter.Prelude.Int.{ℤ, pos, negsuc, ◌+ℤ◌}

abbrev pub two32 : ℕ
two32 = 4294967296

abbrev pub two31 : ℕ
two31 = 2147483648

abbrev pub two64 : ℕ
two64 = 18446744073709551616

abbrev pub two63 : ℕ
two63 = 9223372036854775808

-- The value mod m, as a number below m, and back to the signed range.
abbrev pub to_bits : ℕ → ℤ → ℕ
to_bits m (pos n) = n % m
to_bits m (negsuc n) = m - 1 - n % m

abbrev pub of_bits : ℕ → ℕ → ℕ → ℤ
of_bits m half b = if ltb b half then pos b else negsuc (m - 1 - b)

-- Conversion of an exact result to int64 and to int32.
unfoldable pub wrap64 : ℤ → ℤ
wrap64 a = of_bits two64 two63 (to_bits two64 a)

unfoldable pub wrap32 : ℤ → ℤ
wrap32 a = of_bits two32 two31 (to_bits two32 a)

to_bits64-wrap64 : (a : ℤ) → to_bits two64 (wrap64 a) ≡ to_bits two64 a
unfolding wrap64
to_bits64-wrap64 a = ground arith

to_bits32-wrap32 : (a : ℤ) → to_bits two32 (wrap32 a) ≡ to_bits two32 a
unfolding wrap32
to_bits32-wrap32 a = ground arith

to_bits64-add : (a b : ℤ) → to_bits two64 (a +ℤ b) ≡ (to_bits two64 a + to_bits two64 b) % two64
unfolding ◌+ℤ◌
to_bits64-add a b = ground arith

to_bits32-add : (a b : ℤ) → to_bits two32 (a +ℤ b) ≡ (to_bits two32 a + to_bits two32 b) % two32
unfolding ◌+ℤ◌
to_bits32-add a b = ground arith

-- A sum that wraps at each step is the exact sum wrapped once.
pub wrap64-add_wrap64 : (a b : ℤ) → wrap64 (wrap64 a +ℤ b) ≡ wrap64 (a +ℤ b)
unfolding wrap64
wrap64-add_wrap64 a b = ap (of_bits two64 two63) (
    to_bits64-add (wrap64 a) b
    ∙ ap (λ x. (x + to_bits two64 b) % two64) (to_bits64-wrap64 a)
    ∙ sym (to_bits64-add a b))

pub wrap32-add_wrap32 : (a b : ℤ) → wrap32 (wrap32 a +ℤ b) ≡ wrap32 (a +ℤ b)
unfolding wrap32
wrap32-add_wrap32 a b = ap (of_bits two32 two31) (
    to_bits32-add (wrap32 a) b
    ∙ ap (λ x. (x + to_bits two32 b) % two32) (to_bits32-wrap32 a)
    ∙ sym (to_bits32-add a b))

-- Inside the range nothing is lost.
pub wrap64_pos : (n : ℕ) → n < two63 → wrap64 (pos n) ≡ pos n
unfolding wrap64
wrap64_pos n h = ground arith

pub wrap32_pos : (n : ℕ) → n < two31 → wrap32 (pos n) ≡ pos n
unfolding wrap32
wrap32_pos n h = ground arith

pub wrap64-add_pos : (a b : ℕ) → a + b < two63 → wrap64 (pos a +ℤ pos b) ≡ pos (a + b)
unfolding ◌+ℤ◌ wrap64
wrap64-add_pos a b h = ground arith

pub wrap32-add_pos : (a b : ℕ) → a + b < two31 → wrap32 (pos a +ℤ pos b) ≡ pos (a + b)
unfolding ◌+ℤ◌ wrap32
wrap32-add_pos a b h = ground arith
