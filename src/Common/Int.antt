-- ===== src/Common/Int.antt =====
-- Signed integers over the native numbers, under the library's names (its ℤ stands on the unary ℕ),
-- and the conversions of `std::chrono` between units.
use parlo_plus_plus.Common.Tests.{leb, ltb, ◌==◌, if◌then◌else◌}
use Prim.Native.Nat.{ℕ, suc, ◌+◌, ◌-◌, ◌*◌, ◌/◌, ◌%◌, ◌^◌, ◌<◌}
use mathlib.Core.Path.{◌≡◌, ap}
use mathlib.Core.Bool.{Bool}
use native.Mathlib.Nat.{div-le_self, mul-div_cancel}
use native.Mathlib.Omega.{arith}

-- `negsuc n` is -(n + 1).
pub data ℤ : Type 0 where
  pos : ℕ → ℤ
  negsuc : ℕ → ℤ

-- The values of an `int64_t`.
abbrev pub IsInt64 : ℤ → Type 0
IsInt64 (pos n) = n < 2 ^ 63
IsInt64 (negsuc n) = n < 2 ^ 63

abbrev pub pos_part : ℤ → ℕ
pos_part (pos n) = n
pos_part (negsuc n) = 0

abbrev pub neg_part : ℤ → ℕ
neg_part (pos n) = 0
neg_part (negsuc n) = suc n

-- a - b, as an integer.
abbrev pub sub_ℕ : ℕ → ℕ → ℤ
sub_ℕ a b = if leb b a then pos (a - b) else negsuc (b - a - 1)

infixl 65 ◌+ℤ◌ ◌-ℤ◌
unfoldable pub ◌+ℤ◌ : ℤ → ℤ → ℤ
a +ℤ b = sub_ℕ (pos_part a + pos_part b) (neg_part a + neg_part b)

unfoldable pub ◌-ℤ◌ : ℤ → ℤ → ℤ
a -ℤ b = sub_ℕ (pos_part a + neg_part b) (neg_part a + pos_part b)

abbrev pub ltb_ℤ : ℤ → ℤ → Bool
ltb_ℤ a b = ltb (pos_part a + neg_part b) (pos_part b + neg_part a)

-- `duration_cast` to a unit of `k` ticks: division that rounds towards zero.
unfoldable pub to_coarse : ℕ → ℤ → ℤ
to_coarse k (pos n) = pos (n / k)
to_coarse k (negsuc n) = let q = suc n / k in if q == 0 then pos 0 else negsuc (q - 1)

-- The conversion from a unit of `k` ticks to ticks.
unfoldable pub to_fine : ℕ → ℤ → ℤ
to_fine k (pos n) = pos (n * k)
to_fine k (negsuc n) = negsuc (suc n * k - 1)

-- `static_cast<int>` of a 64-bit value: the low 32 bits, read as two's complement.
unfoldable pub to_int32 : ℤ → ℤ
to_int32 a =
    let w = sub_ℕ_mod (pos_part a) (neg_part a) in
    if ltb w (2 ^ 31) then pos w else negsuc (2 ^ 32 - 1 - w)
  where
    sub_ℕ_mod : ℕ → ℕ → ℕ
    sub_ℕ_mod p n = (p + (2 ^ 32 - n % 2 ^ 32)) % 2 ^ 32

-- A value that fits is kept.
pub to_int32_small : (n : ℕ) → n < 2 ^ 31 → to_int32 (pos n) ≡ pos n
unfolding to_int32
to_int32_small n h = ground arith

-- A coarser unit gives no larger number.
pub to_coarse-IsInt64 : (k : ℕ) (a : ℤ) → IsInt64 a → IsInt64 (to_coarse k a)
unfolding to_coarse
to_coarse-IsInt64 k (pos n) f = omega (arith, div-le_self n k)
to_coarse-IsInt64 k (negsuc n) f = ground (arith, div-le_self (suc n) k)

-- What has been cut to the coarser unit is kept by the way there and back.
pub to_coarse-to_fine : (k : ℕ) (a : ℤ) → 0 < k → to_coarse k (to_fine k a) ≡ a
unfolding to_coarse to_fine
to_coarse-to_fine k (pos n) h = ap pos (mul-div_cancel n h)
to_coarse-to_fine k (negsuc n) h =
    let whole : suc (suc n * k - 1) ≡ suc n * k = grind arith in
    rw whole (rw (mul-div_cancel (suc n) h) (ground arith))
