-- ===== src/Common/Bytes.antt =====
-- Objects as bytes: what `memcpy` of an `int64_t` writes and reads, on a little-endian machine with
-- two's complement.
use parlo_plus_plus.Common.Int.{ℤ, pos, negsuc, IsInt64}
use parlo_plus_plus.Common.Tests.{ltb, if◌then◌else◌}
use parlo_plus_plus.Common.Lists.{length, take, drop, All, take-drop-append}
use Prim.Native.Nat.{ℕ, zero, suc, ◌+◌, ◌-◌, ◌*◌, ◌/◌, ◌%◌, ◌^◌, ◌<◌}
use mathlib.Core.Path.{◌≡◌, refl, sym, ap, ◌∙◌}
use mathlib.Core.List.{List, [], ◌∷◌, ◌++◌}
use native.Mathlib.Omega.{arith}

abbrev pub IsByte : ℕ → Type 0
IsByte b = b < 256

-- The `n` low bytes of a number, lowest first.
unfoldable pub store : ℕ → ℕ → List ℕ
store zero w = []
store (suc n) w = w % 256 ∷ store n (w / 256)

-- The number that bytes stand for, lowest first.
unfoldable pub load : List ℕ → ℕ
load [] = 0
load (b ∷ bs) = b + 256 * load bs

pub length-store : (n w : ℕ) → length (store n w) ≡ n
unfolding store
length-store zero w = refl
length-store (suc n) w = ap suc (length-store n (w / 256))

pub store-IsByte : (n w : ℕ) → All IsByte (store n w)
unfolding store
store-IsByte zero w = tt
store-IsByte (suc n) w = (omega arith, store-IsByte n (w / 256))

pub load-store : (n w : ℕ) → w < 256 ^ n → load (store n w) ≡ w
unfolding store load
load-store zero w h = omega arith
load-store (suc n) w h = omega (arith, load-store n (w / 256) (quotient_fits n w h))
  where
    quotient_fits : (n w : ℕ) → w < 256 ^ suc n → w / 256 < 256 ^ n
    quotient_fits n w h = omega arith

-- The bit pattern of an `int64_t`, and the value of a pattern.
unfoldable pub to_bits : ℤ → ℕ
to_bits (pos n) = n % 2 ^ 64
to_bits (negsuc n) = 2 ^ 64 - 1 - n % 2 ^ 64

unfoldable pub of_bits : ℕ → ℤ
of_bits w = if ltb w (2 ^ 63) then pos w else negsuc (2 ^ 64 - 1 - w)

pub of_bits-to_bits : (a : ℤ) → IsInt64 a → of_bits (to_bits a) ≡ a
unfolding of_bits to_bits
of_bits-to_bits (pos n) h = ground arith
of_bits-to_bits (negsuc n) h = ground arith

pub to_bits-lt : (a : ℤ) → to_bits a < 2 ^ 64
unfolding to_bits
to_bits-lt (pos n) = omega arith
to_bits-lt (negsuc n) = omega arith

-- `memcpy` of an `int64_t` into eight bytes, and out of the eight bytes at an offset.
unfoldable pub store_int64 : ℤ → List ℕ
unfolding store to_bits
store_int64 a = store 8 (to_bits a)

unfoldable pub load_int64 : List ℕ → ℕ → ℤ
unfolding load of_bits
load_int64 bytes offset = of_bits (load (take 8 (drop offset bytes)))

-- The eight bytes of a stored value, wherever they stand, are read back as that value.
pub load_int64-store_int64 :
    (front back : List ℕ) (offset : ℕ) (a : ℤ)
    → offset ≡ length front
    → IsInt64 a
    → load_int64 (front ++ (store_int64 a ++ back)) offset ≡ a
unfolding store_int64 load_int64
load_int64-store_int64 front back offset a at fits =
    ap (λ bytes. of_bits (load bytes))
      (take-drop-append 8 offset front (store 8 (to_bits a)) back (sym (length-store 8 (to_bits a)))
        at)
    ∙ ap of_bits (load-store 8 (to_bits a) (to_bits-lt a))
    ∙ of_bits-to_bits a fits

pub length-store_int64 : (a : ℤ) → length (store_int64 a) ≡ 8
unfolding store_int64
length-store_int64 a = length-store 8 (to_bits a)
