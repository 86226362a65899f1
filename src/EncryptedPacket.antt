-- ===== src/EncryptedPacket.antt =====
-- EncryptedPacket.h, with EncryptionArgs.h and EncryptionMode.h. The ciphers and the derivation of
-- keys are Crypto++'s and a parameter. A `std::string` is a list of its characters. The class
-- declares `buildPacket` an override of a method that is not virtual, which no compiler takes; it is
-- modelled as it is written apart from that word.
pub mod Building
pub mod Hex
mod Tests
use parlo_plus_plus.Common.{
  ℕ, ◌+◌, Bool, true, false, List, [], ◌∷◌, ◌++◌, Option, none, some, Result, ok, throws, ◌>>=◌,
  invalid_argument, runtime_error, if◌then◌else◌, ◌==◌, is_empty, take, drop,
}
use parlo_plus_plus.Packet.{Packet, tcp_packet}

-- A block cipher in CBC mode under a key and an initial vector, through a
-- `StreamTransformationFilter`, which pads; decryption throws on padding that is not right.
pub record Cipher : Type 0 where
  pub key_length : ℕ
  pub block_size : ℕ
  pub encrypt : List ℕ → List ℕ → List ℕ → List ℕ
  pub decrypt : List ℕ → List ℕ → List ℕ → Result (List ℕ)

-- `derive key salt iterations size` is `PKCS5_PBKDF2_HMAC` with SHA-256.
pub record Crypto : Type 0 where
  pub aes_cipher : Cipher
  pub twofish_cipher : Cipher
  pub derive : List ℕ → List ℕ → ℕ → ℕ → List ℕ

-- What stands in the arrays `keyBytes` and `ivBytes` of a function that does not fill them.
pub record Arrays : Type 0 where
  pub key_bytes : List ℕ
  pub iv_bytes : List ℕ

-- `EncryptionMode`, by the enumerators' values.
abbrev pub aes : ℕ
aes = 0

abbrev pub twofish : ℕ
twofish = 1

pub record EncryptionArgs : Type 0 where
  pub mode : ℕ
  pub key : List ℕ
  pub salt : List ℕ

-- `base_data` is the protected member `data` of the base class, which its constructors leave empty:
-- the data that they are given goes to the `Impl`, here `packet`.
pub record EncryptedPacket : Type 0 where
  pub packet : Packet
  pub base_data : List ℕ
  pub args : EncryptionArgs

unfoldable pub check_args : Packet → List ℕ → Option EncryptionArgs → Result EncryptedPacket
check_args p serialized_data none = throws invalid_argument
check_args p serialized_data (some args) =
    if is_empty serialized_data
    then throws invalid_argument
    else ok (record { packet = p; base_data = []; args = args })

-- The constructor; `none` is a null pointer.
unfoldable pub encrypted_packet : Option EncryptionArgs → ℕ → List ℕ → Result EncryptedPacket
unfolding check_args
encrypted_packet args id serialized_data =
    tcp_packet id serialized_data false >>= λ p. check_args p serialized_data args

-- The bytes that are derived in each of the four functions below.
unfoldable pub derived_bytes : Crypto → List ℕ → List ℕ → List ℕ
derived_bytes c key salt =
    c.derive key salt 10000 (c.aes_cipher.key_length + c.aes_cipher.block_size)

-- The derived bytes are split into the key and the initial vector.
unfoldable pub encrypt_aes : Crypto → List ℕ → List ℕ → List ℕ → List ℕ
unfolding derived_bytes
encrypt_aes c bytes key salt =
    let derived = derived_bytes c key salt in
    c.aes_cipher.encrypt (take c.aes_cipher.key_length derived)
      (drop c.aes_cipher.key_length derived) bytes

-- The other three derive the bytes and do not use them.
unfoldable pub decrypt_aes : Crypto → Arrays → List ℕ → List ℕ → List ℕ → Result (List ℕ)
unfolding derived_bytes
decrypt_aes c a bytes key salt =
    let derived = derived_bytes c key salt in c.aes_cipher.decrypt a.key_bytes a.iv_bytes bytes

unfoldable pub encrypt_twofish : Crypto → Arrays → List ℕ → List ℕ → List ℕ → List ℕ
unfolding derived_bytes
encrypt_twofish c a bytes key salt =
    let derived = derived_bytes c key salt in c.twofish_cipher.encrypt a.key_bytes a.iv_bytes bytes

unfoldable pub decrypt_twofish : Crypto → Arrays → List ℕ → List ℕ → List ℕ → Result (List ℕ)
unfolding derived_bytes
decrypt_twofish c a bytes key salt =
    let derived = derived_bytes c key salt in c.twofish_cipher.decrypt a.key_bytes a.iv_bytes bytes

-- `decryptPacket`
unfoldable pub decrypt_packet : Crypto → Arrays → EncryptedPacket → Result (List ℕ)
decrypt_packet c a p =
    if p.args.mode == aes
    then decrypt_aes c a p.base_data p.args.key p.args.salt
    else if p.args.mode == twofish
    then decrypt_twofish c a p.base_data p.args.key p.args.salt
    else throws runtime_error

unfoldable pub encrypted_data : Crypto → Arrays → EncryptedPacket → Result (List ℕ)
encrypted_data c a p =
    if p.args.mode == aes
    then ok (encrypt_aes c p.base_data p.args.key p.args.salt)
    else if p.args.mode == twofish
    then ok (encrypt_twofish c a p.base_data p.args.key p.args.salt)
    else throws runtime_error

-- `buildPacket` of the derived class.
unfoldable pub build_encrypted_packet : Crypto → Arrays → EncryptedPacket → Result (List ℕ)
unfolding encrypted_data
build_encrypted_packet c a p =
    encrypted_data c a p >>= λ bytes. ok (p.packet.id ∷ p.packet.is_compressed ∷ bytes)
