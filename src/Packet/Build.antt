-- ===== src/Packet/Build.antt =====
-- What the constructors of Packet.cpp accept and what `build_packet` writes.
use parlo_plus_plus.Common.{
  ℕ, ◌+◌, ◌*◌, ◌/◌, ◌%◌, ◌≤◌, ◌<◌, ◌≡◌, refl, ◌∙◌, ◌⊎◌, inl, inr, bit_and, bit_or, Bool, false,
  List, [], ◌∷◌, ok, throws, invalid_argument, length, arith,
}
use parlo_plus_plus.Common.Bits.{low_byte, join_bytes}
use parlo_plus_plus.Packet.{Packet, standard, flag, tcp_packet, udp_packet, build_packet}
use mathlib.Core.Logic.{◌↔◌}

-- The 16-bit length that a receiver reads from the two bytes of a header.
abbrev pub joined : ℕ → ℕ → ℕ
joined low high = bit_or (high * 256) low % 65536

-- The two length bytes of a header give back the length.
pub joined-bytes : (n : ℕ) → n < 65536 → joined (bit_and n 0xff) (bit_and (n / 256) 0xff) ≡ n
joined-bytes n h =
    rw (low_byte n, low_byte (n / 256))
      (rw (join_bytes (n / 256 % 256) (n % 256) (omega arith)) (omega arith))

-- A TCP packet as its constructor makes it, with a payload that the length field can count.
pub record IsTcp (p : Packet) : Type 0 where
  pub tcp : p.is_udp ≡ false
  pub some_data : 0 < length p.payload
  pub counted : p.length ≡ standard + length p.payload
  pub fits : p.length < 65536
  pub flag_bit : p.is_compressed ≤ 1
  pub unreliable : p.is_reliable ≡ 0

-- `tcp_packet` succeeds exactly on data that is not empty, and throws on empty data.
pub tcp_packet_total :
    (id : ℕ) (bytes : List ℕ) (c : Bool)
    → ((bytes ≡ []) × (tcp_packet id bytes c ≡ throws invalid_argument))
      ⊎ ((p : Packet) × (tcp_packet id bytes c ≡ ok p) × (p.payload ≡ bytes) × (0 < length bytes))
unfolding tcp_packet
tcp_packet_total id [] c = inl (refl, refl)
tcp_packet_total id (x ∷ xs) c = inr (_, refl, refl, omega arith)

pub tcp_packet_fields :
    (id : ℕ) (bytes : List ℕ) (c : Bool) (p : Packet)
    → tcp_packet id bytes c ≡ ok p
    → (p.id ≡ id) × (p.payload ≡ bytes) × (p.is_compressed ≡ flag c)
unfolding tcp_packet
tcp_packet_fields id [] c p e = cc
tcp_packet_fields id (x ∷ xs) c p e = ground arith

pub tcp_packet-IsTcp :
    (id : ℕ) (bytes : List ℕ) (c : Bool) (p : Packet)
    → length bytes < 65532
    → tcp_packet id bytes c ≡ ok p
    → IsTcp p
unfolding tcp_packet
tcp_packet-IsTcp id [] c p h e = cc
tcp_packet-IsTcp id (x ∷ xs) c p h e = ground arith

-- The header and the payload of a TCP packet.
pub build_packet-tcp :
    (p : Packet)
    → p.is_udp ≡ false
    → build_packet p
      ≡ p.id ∷ p.is_compressed ∷ bit_and p.length 0xff ∷ bit_and (p.length / 256) 0xff ∷ p.payload
unfolding build_packet
build_packet-tcp p h = ground arith

pub length-build_tcp :
    (p : Packet) → p.is_udp ≡ false → length (build_packet p) ≡ standard + length p.payload
length-build_tcp p h = rw (build_packet-tcp p h) (omega arith)

-- For every payload that the TCP constructor accepts, the length field of the packet is the number
-- of bytes that `build_packet` writes exactly when the payload is shorter than 65532 bytes.
pub length-build_packet_iff :
    (id : ℕ) (bytes : List ℕ) (c : Bool) (p : Packet)
    → tcp_packet id bytes c ≡ ok p
    → (p.length ≡ length (build_packet p)) ↔ (length bytes < 65532)
unfolding tcp_packet build_packet
length-build_packet_iff id [] c p e = cc
length-build_packet_iff id (x ∷ xs) c p e = ground arith

-- A UDP packet has the header of a TCP packet with the reliability byte in between, and its length
-- bytes are read back as the size of the whole packet when the payload is shorter than 65531 bytes.
pub udp_header :
    (id : ℕ) (bytes : List ℕ) (c r : Bool) (p : Packet)
    → length bytes < 65531
    → udp_packet id bytes c r ≡ ok p
    → (low : ℕ) × (high : ℕ) × (build_packet p ≡ id ∷ flag c ∷ flag r ∷ low ∷ high ∷ bytes)
      × (joined low high ≡ length (build_packet p))
unfolding udp_packet build_packet
udp_header id [] c r p h e = cc
udp_header id (x ∷ xs) c r p h e = (
  bit_and p.length 0xff,
  bit_and (p.length / 256) 0xff,
  ground arith,
  joined-bytes p.length (ground arith) ∙ ground arith,
)
