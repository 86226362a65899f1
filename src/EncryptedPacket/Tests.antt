-- ===== src/EncryptedPacket/Tests.antt =====
-- Runs of EncryptedPacket.h with toy ciphers, that put the key before the data.
use parlo_plus_plus.Common.{
  ℕ, ◌+◌, ◌-◌, ◌*◌, ◌<◌, ◌≡◌, ◌⊎◌, refl, List, [], ◌∷◌, ◌++◌, none, some, Result, ok, throws,
  invalid_argument, if◌then◌else◌, ltb, length, drop, take, arith,
}
use parlo_plus_plus.Common.Int.{ℤ, pos}
use parlo_plus_plus.EncryptedPacket.{
  Cipher, Crypto, Arrays, EncryptionArgs, EncryptedPacket, encrypted_packet, decrypt_packet,
  build_encrypted_packet,
}
use parlo_plus_plus.EncryptedPacket.Building.{Builds, build_encrypted_packet_total}
use parlo_plus_plus.EncryptedPacket.Hex.{hex_digit, to_hex, ReadsHex}

abbrev toy : Cipher
toy = record {
  key_length = 2;
  block_size = 2;
  encrypt = λ key iv bytes. key ++ (iv ++ bytes);
  decrypt = λ key iv bytes. ok (drop (length key + length iv) bytes);
}

abbrev toy_crypto : Crypto
toy_crypto = record {
  aes_cipher = toy;
  twofish_cipher = toy;
  derive = λ key salt iterations size. take size (key ++ (salt ++ (1 ∷ 2 ∷ 3 ∷ 4 ∷ [])));
}

abbrev left_over : Arrays
left_over = record { key_bytes = 0 ∷ 0 ∷ []; iv_bytes = 9 ∷ 9 ∷ [] }

abbrev toy_args : EncryptionArgs
toy_args = record { mode = 0; key = 65 ∷ 66 ∷ 67 ∷ []; salt = 68 ∷ [] }

abbrev five_six : List ℕ
five_six = 5 ∷ 6 ∷ []

build_encrypted_packet_total_example :
    (((some toy_args ≡ none) ⊎ (five_six ≡ []))
      × (encrypted_packet (some toy_args) 7 five_six ≡ throws invalid_argument))
    ⊎ ((given : EncryptionArgs) × (p : EncryptedPacket) × (some toy_args ≡ some given)
        × (encrypted_packet (some toy_args) 7 five_six ≡ ok p)
        × Builds toy_crypto left_over given 7
            (build_encrypted_packet toy_crypto left_over p)
            (decrypt_packet toy_crypto left_over p))
build_encrypted_packet_total_example =
    build_encrypted_packet_total toy_crypto left_over (some toy_args) 7 five_six

-- One digit or two, each in lower case.
digit_value : ℕ → ℕ
digit_value x = if ltb x 58 then x - 48 else x - 87

toy_stoi : List ℕ → Result ℤ
unfolding digit_value
toy_stoi (x ∷ []) = ok (pos (digit_value x))
toy_stoi (x ∷ y ∷ []) = ok (pos (digit_value x * 16 + digit_value y))
toy_stoi _ = throws invalid_argument

digit_value-hex_digit : (n : ℕ) → n < 16 → digit_value (hex_digit n) ≡ n
unfolding digit_value hex_digit
digit_value-hex_digit n h = ground arith

toy_stoi-ReadsHex : ReadsHex toy_stoi
unfolding toy_stoi
toy_stoi-ReadsHex = record {
  one_digit = λ l h. rw (digit_value-hex_digit l h) refl;
  two_digits = λ h l k m. rw (digit_value-hex_digit h k, digit_value-hex_digit l m) refl;
}

abbrev two_bytes : List ℕ
two_bytes = 0x4a ∷ 0xf0 ∷ []

two_bytes_hex : to_hex two_bytes ≡ 52 ∷ 97 ∷ 102 ∷ 48 ∷ []
unfolding to_hex
two_bytes_hex = refl
