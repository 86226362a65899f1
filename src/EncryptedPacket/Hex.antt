-- ===== src/EncryptedPacket/Hex.antt =====
-- `hexStringToByteArray` of EncryptedPacket.h. `std::stoi` with base 16 is a parameter.
use parlo_plus_plus.Common.{
  ℕ, ◌+◌, ◌-◌, ◌*◌, ◌/◌, ◌%◌, ◌<◌, ◌≡◌, refl, ◌∙◌, List, [], ◌∷◌, ◌++◌, Result, ok, ◌>>=◌,
  if◌then◌else◌, ltb, All, arith,
}
use parlo_plus_plus.Common.Int.{ℤ, pos, negsuc}

-- `static_cast<uint8_t>` of an `int`.
unfoldable pub to_uint8 : ℤ → ℕ
to_uint8 (pos n) = n % 256
to_uint8 (negsuc n) = 255 - n % 256

unfoldable pub push_byte : Result ℤ → Result (List ℕ) → Result (List ℕ)
unfolding to_uint8
push_byte number rest = do n ← number; bytes ← rest; ok (to_uint8 n ∷ bytes)

-- `substr(i, 2)` gives two characters, or the one that is left.
unfoldable pub hex_string_to_byte_array : (List ℕ → Result ℤ) → List ℕ → Result (List ℕ)
unfolding push_byte
hex_string_to_byte_array stoi [] = ok []
hex_string_to_byte_array stoi (x ∷ []) = push_byte (stoi (x ∷ [])) (ok [])
hex_string_to_byte_array stoi (x ∷ y ∷ hex) =
    push_byte (stoi (x ∷ y ∷ [])) (hex_string_to_byte_array stoi hex)

-- The character of a digit below 16.
unfoldable pub hex_digit : ℕ → ℕ
hex_digit n = if ltb n 10 then 48 + n else 87 + n

unfoldable pub to_hex : List ℕ → List ℕ
unfolding hex_digit
to_hex [] = []
to_hex (b ∷ bytes) = hex_digit (b / 16) ∷ hex_digit (b % 16) ∷ to_hex bytes

-- What the C++ standard says of `std::stoi` with base 16 on one and on two digits.
pub record ReadsHex (stoi : List ℕ → Result ℤ) : Type 0 where
  pub one_digit : (l : ℕ) → l < 16 → stoi (hex_digit l ∷ []) ≡ ok (pos l)
  pub two_digits :
      (h l : ℕ) → h < 16 → l < 16 → stoi (hex_digit h ∷ hex_digit l ∷ []) ≡ ok (pos (h * 16 + l))

push_byte_ok :
    (number : Result ℤ) (n : ℕ) (bytes : List ℕ)
    → number ≡ ok (pos n)
    → n < 256
    → push_byte number (ok bytes) ≡ ok (n ∷ bytes)
unfolding push_byte
push_byte_ok number n bytes e h = let small : n % 256 ≡ n = omega arith in rw (e, small) refl

-- The hexadecimal digits of bytes are read back as these bytes, and one digit more behind them as one
-- byte more, with the value of that digit.
pub hex_string_to_byte_array-to_hex :
    (stoi : List ℕ → Result ℤ) (bytes : List ℕ) (l : ℕ)
    → ReadsHex stoi
    → All (λ b. b < 256) bytes
    → l < 16
    → (hex_string_to_byte_array stoi (to_hex bytes) ≡ ok bytes)
      × (hex_string_to_byte_array stoi (to_hex bytes ++ (hex_digit l ∷ []))
          ≡ ok (bytes ++ (l ∷ [])))
unfolding hex_string_to_byte_array to_hex
hex_string_to_byte_array-to_hex stoi [] l r h k =
    (refl, push_byte_ok _ l [] (r.one_digit l k) (omega arith))
hex_string_to_byte_array-to_hex stoi (b ∷ bytes) l r h k =
    let (whole, longer) = hex_string_to_byte_array-to_hex stoi bytes l r h.1 k in
    let sum : b / 16 * 16 + b % 16 ≡ b = omega arith in
    let number = r.two_digits (b / 16) (b % 16) (omega (arith, h.0)) (omega arith) ∙ rw sum refl in
    (
      rw whole (push_byte_ok _ b bytes number h.0),
      rw longer (push_byte_ok _ b (bytes ++ (l ∷ [])) number h.0),
    )
