-- ===== src/Common/Bits.antt =====
-- The bit operations by which two bytes are cut from a 16-bit length and joined again.
use Prim.Native.Nat.{
  ℕ, zero, suc, ◌+◌, ◌*◌, ◌/◌, ◌%◌, ◌≤◌, ◌<◌, min, max, bit_and, bit_or, digits, bit_and-bitwise,
  bit_or-bitwise,
}
use mathlib.Core.Path.{◌≡◌, refl, sym, ap, ◌∙◌}
use native.Mathlib.Omega.{arith}

-- Any operation that goes over the binary digits of its first argument: `past` gives the result where
-- that argument has no more of them, `pair` puts two digits together.
module _ (past : ℕ → ℕ) (pair : ℕ → ℕ → ℕ) where
  out_of_digits : (n b : ℕ) → digits past pair n 0 b ≡ past b
  out_of_digits zero b = refl
  out_of_digits (suc n) b = refl

  digits_same : (a b n m : ℕ) → a ≤ n → a ≤ m → digits past pair n a b ≡ digits past pair m a b
  digits_same zero b n m h k = out_of_digits n b ∙ sym (out_of_digits m b)
  digits_same (suc a) b (suc n) (suc m) h k =
      ap (λ d. d * 2 + pair (suc a % 2) (b % 2))
        (digits_same (suc a / 2) (b / 2) n m (omega arith) (omega arith))
  digits_same (suc a) b zero m h k = absurd (omega arith)
  digits_same (suc a) b (suc n) zero h k = absurd (omega arith)

  -- The law of the last digit, where `past` keeps to it too.
  last_digit :
      (a b : ℕ)
      → past b ≡ past (b / 2) * 2 + pair 0 (b % 2)
      → digits past pair a a b ≡ digits past pair (a / 2) (a / 2) (b / 2) * 2 + pair (a % 2) (b % 2)
  last_digit zero b h = h
  last_digit (suc a) b h =
      ap (λ d. d * 2 + pair (suc a % 2) (b % 2))
        (digits_same (suc a / 2) (b / 2) a (suc a / 2) (omega arith) (omega arith))

and_last : (a b : ℕ) → bit_and a b ≡ bit_and (a / 2) (b / 2) * 2 + min (a % 2) (b % 2)
and_last a b =
    bit_and-bitwise a b
    ∙ last_digit (λ _. 0) min a b (omega arith)
    ∙ sym (ap (λ d. d * 2 + min (a % 2) (b % 2)) (bit_and-bitwise (a / 2) (b / 2)))

or_last : (a b : ℕ) → bit_or a b ≡ bit_or (a / 2) (b / 2) * 2 + max (a % 2) (b % 2)
or_last a b =
    bit_or-bitwise a b
    ∙ last_digit (λ c. c) max a b (omega arith)
    ∙ sym (ap (λ d. d * 2 + max (a % 2) (b % 2)) (bit_or-bitwise (a / 2) (b / 2)))

-- With zero as the second argument, for all numbers up to a bound.
nothing_in_common : (bound a : ℕ) → a ≤ bound → bit_and a 0 ≡ 0
nothing_in_common bound zero h = refl
nothing_in_common (suc bound) (suc a) h =
    let rest = nothing_in_common bound (suc a / 2) (omega arith) in
    and_last (suc a) 0 ∙ omega (arith, rest)
nothing_in_common zero (suc a) h = absurd (omega arith)

nothing_added : (bound a : ℕ) → a ≤ bound → bit_or a 0 ≡ a
nothing_added bound zero h = refl
nothing_added (suc bound) (suc a) h =
    let rest = nothing_added bound (suc a / 2) (omega arith) in
    or_last (suc a) 0 ∙ omega (arith, rest)
nothing_added zero (suc a) h = absurd (omega arith)

-- One digit, with both halves named.
and_half :
    (a b : ℕ) {a' b' : ℕ}
    → a / 2 ≡ a'
    → b / 2 ≡ b'
    → bit_and a b ≡ bit_and a' b' * 2 + min (a % 2) (b % 2)
and_half a b p q = rw (← p, ← q) (and_last a b)

or_half :
    (a b : ℕ) {a' b' : ℕ}
    → a / 2 ≡ a'
    → b / 2 ≡ b'
    → bit_or a b ≡ bit_or a' b' * 2 + max (a % 2) (b % 2)
or_half a b p q = rw (← p, ← q) (or_last a b)

-- Four ones of a mask.
and_nibble : (a m : ℕ) → bit_and a (m * 16 + 15) ≡ bit_and (a / 16) m * 16 + a % 16
and_nibble a m = omega (
  arith,
  and_half a (m * 16 + 15) {a' = a / 2} {b' = m * 8 + 7} refl (omega arith),
  and_half (a / 2) (m * 8 + 7) {a' = a / 4} {b' = m * 4 + 3} (omega arith) (omega arith),
  and_half (a / 4) (m * 4 + 3) {a' = a / 8} {b' = m * 2 + 1} (omega arith) (omega arith),
  and_half (a / 8) (m * 2 + 1) {a' = a / 16} {b' = m} (omega arith) (omega arith),
)

-- `a & 0xFF` keeps the low byte.
pub low_byte : (a : ℕ) → bit_and a 0xff ≡ a % 256
low_byte a = omega (
  arith,
  and_nibble a 15,
  and_nibble (a / 16) 0,
  nothing_in_common (a / 16 / 16) (a / 16 / 16) (omega arith),
)

or_nibble : (a l : ℕ) → bit_or (a * 16) l ≡ bit_or a (l / 16) * 16 + l % 16
or_nibble a l = omega (
  arith,
  or_half (a * 16) l {a' = a * 8} {b' = l / 2} (omega arith) refl,
  or_half (a * 8) (l / 2) {a' = a * 4} {b' = l / 4} (omega arith) (omega arith),
  or_half (a * 4) (l / 4) {a' = a * 2} {b' = l / 8} (omega arith) (omega arith),
  or_half (a * 2) (l / 8) {a' = a} {b' = l / 16} (omega arith) (omega arith),
)

-- `high << 8 | low` is a sum where `low` is a byte.
pub join_bytes : (h l : ℕ) → l < 256 → bit_or (h * 256) l ≡ h * 256 + l
join_bytes h l p =
    let sixteens : h * 256 ≡ h * 16 * 16 = omega arith in
    let top : l / 16 / 16 ≡ 0 = omega arith in
    rw sixteens (
      rw (or_nibble (h * 16) l, or_nibble h (l / 16), top, nothing_added h h (omega arith))
        (omega arith))
