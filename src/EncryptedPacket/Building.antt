-- ===== src/EncryptedPacket/Building.antt =====
-- What EncryptedPacket.h builds, and what it decrypts.
use parlo_plus_plus.Common.{
  ℕ, ◌≤◌, ◌≡◌, refl, ◌⊎◌, inl, inr, List, [], ◌∷◌, Option, none, some, Result, ok, throws,
  invalid_argument, runtime_error, ◌==◌, take, drop, Bool-cases, arith,
}
use parlo_plus_plus.Packet.{tcp_packet}
use parlo_plus_plus.EncryptedPacket.{
  Cipher, Crypto, Arrays, EncryptionArgs, EncryptedPacket, encrypted_packet, derived_bytes,
  encrypt_aes, decrypt_aes, encrypt_twofish, decrypt_twofish, decrypt_packet,
  build_encrypted_packet,
}

-- A packet as the constructor makes it.
abbrev pub IsMade : EncryptionArgs → ℕ → EncryptedPacket → Type 0
IsMade args id p =
    (p.args ≡ args) × (p.base_data ≡ []) × (p.packet.id ≡ id) × (p.packet.is_compressed ≡ 0)

encrypted_packet-IsMade :
    (args : EncryptionArgs) (id : ℕ) (bytes : List ℕ) (p : EncryptedPacket)
    → encrypted_packet (some args) id bytes ≡ ok p
    → IsMade args id p
unfolding encrypted_packet tcp_packet
encrypted_packet-IsMade args id [] p e = cc
encrypted_packet-IsMade args id (x ∷ xs) p e = ground arith

encrypted_packet_made :
    (args : EncryptionArgs) (id x : ℕ) (xs : List ℕ)
    → (p : EncryptedPacket) × (encrypted_packet (some args) id (x ∷ xs) ≡ ok p)
unfolding encrypted_packet tcp_packet
encrypted_packet_made args id x xs = (_, refl)

-- What is built of a packet with these arguments and this ID, and what decrypting it gives.
abbrev pub Builds :
    Crypto → Arrays → EncryptionArgs → ℕ → Result (List ℕ) → Result (List ℕ) → Type 0
Builds c a args id built decrypted =
    ((args.mode ≡ 0)
      × (built ≡ ok (id ∷ 0 ∷ encrypt_aes c [] args.key args.salt))
      × (decrypted ≡ decrypt_aes c a [] args.key args.salt))
    ⊎ (((args.mode ≡ 1)
          × (built ≡ ok (id ∷ 0 ∷ encrypt_twofish c a [] args.key args.salt))
          × (decrypted ≡ decrypt_twofish c a [] args.key args.salt))
        ⊎ ((2 ≤ args.mode) × (built ≡ throws runtime_error) × (decrypted ≡ throws runtime_error)))

made-Builds :
    (c : Crypto) (a : Arrays) (args : EncryptionArgs) (id : ℕ) (p : EncryptedPacket)
    → IsMade args id p
    → Builds c a args id (build_encrypted_packet c a p) (decrypt_packet c a p)
unfolding build_encrypted_packet decrypt_packet
made-Builds c a args id p (same, empty, same_id, plain) = elim (Bool-cases (args.mode == 0)) [
  | inl zero_mode ↦ inl (
    ground arith,
    rw (same, empty, same_id, plain, zero_mode) refl,
    rw (same, empty, zero_mode) refl,
  )
  | inr other ↦ elim (Bool-cases (args.mode == 1)) [
    | inl one_mode ↦ inr (
        inl (
          ground arith,
          rw (same, empty, same_id, plain, other, one_mode) refl,
          rw (same, empty, other, one_mode) refl,
        ))
    | inr none_of_both ↦ inr (
        inr
          (ground arith, rw (same, other, none_of_both) refl, rw (same, other, none_of_both) refl))
  ]
]

-- Whatever data a packet is made with, what is built of it encrypts no data at all, and so does what
-- is decrypted: by AES in mode 0 and by Twofish in mode 1, behind the ID and a zero; any other mode
-- throws. The constructor throws exactly on a null pointer or no data.
pub build_encrypted_packet_total :
    (c : Crypto) (a : Arrays) (args : Option EncryptionArgs) (id : ℕ) (bytes : List ℕ)
    → (((args ≡ none) ⊎ (bytes ≡ [])) × (encrypted_packet args id bytes ≡ throws invalid_argument))
      ⊎ ((given : EncryptionArgs) × (p : EncryptedPacket) × (args ≡ some given)
          × (encrypted_packet args id bytes ≡ ok p)
          × Builds c a given id (build_encrypted_packet c a p) (decrypt_packet c a p))
build_encrypted_packet_total c a args id [] =
    inl (inr refl, unfold encrypted_packet tcp_packet in refl)
build_encrypted_packet_total c a none id (x ∷ xs) =
    inl (inl refl, unfold encrypted_packet tcp_packet in refl)
build_encrypted_packet_total c a (some given) id (x ∷ xs) =
    let made = encrypted_packet_made given id x xs in
    inr (
      given,
      made.0,
      refl,
      made.1,
      made-Builds c a given id made.0 (encrypted_packet-IsMade given id (x ∷ xs) made.0 made.1),
    )

-- What Crypto++ documents of a cipher: decryption under the same key and vector undoes encryption.
abbrev pub IsInverse : Cipher → Type 0
IsInverse s = (key iv bytes : List ℕ) → s.decrypt key iv (s.encrypt key iv bytes) ≡ ok bytes

-- Over a cipher whose decryption undoes its encryption, data that was encrypted by AES is decrypted
-- if the arrays of the decrypting function happen to hold the two parts of the derived bytes.
pub decrypt_aes-encrypt_aes :
    (c : Crypto) (a : Arrays) (bytes key salt : List ℕ)
    → IsInverse c.aes_cipher
    → a.key_bytes ≡ take c.aes_cipher.key_length (derived_bytes c key salt)
    → a.iv_bytes ≡ drop c.aes_cipher.key_length (derived_bytes c key salt)
    → decrypt_aes c a (encrypt_aes c bytes key salt) key salt ≡ ok bytes
unfolding decrypt_aes encrypt_aes
decrypt_aes-encrypt_aes c a bytes key salt f same_key same_iv = rw (same_key, same_iv) (f _ _ bytes)
