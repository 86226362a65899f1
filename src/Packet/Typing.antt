-- ===== src/Packet/Typing.antt =====
-- The members of a packet of Packet.cpp stay within their C++ types.
use parlo_plus_plus.Common.{
  ℕ, ◌/◌, ◌<◌, ◌≡◌, bit_and, Bool, true, false, inl, inr, Bool-cases, List, [], ◌∷◌, ok, All, arith,
}
use parlo_plus_plus.Common.Bytes.{IsByte}
use parlo_plus_plus.Common.Bits.{low_byte}
use parlo_plus_plus.Packet.{Packet, tcp_packet, build_packet}

-- `uint8_t`, `uint16_t` and `std::vector<uint8_t>`.
pub record IsTyped (p : Packet) : Type 0 where
  pub id : IsByte p.id
  pub is_compressed : IsByte p.is_compressed
  pub is_reliable : IsByte p.is_reliable
  pub length : p.length < 65536
  pub payload : All IsByte p.payload

pub tcp_packet-IsTyped :
    (id : ℕ) (bytes : List ℕ) (c : Bool) (p : Packet)
    → IsByte id
    → All IsByte bytes
    → tcp_packet id bytes c ≡ ok p
    → IsTyped p
unfolding tcp_packet
tcp_packet-IsTyped id [] c p h k e = cc
tcp_packet-IsTyped id (x ∷ xs) true p h k e = ground arith
tcp_packet-IsTyped id (x ∷ xs) false p h k e = ground arith

-- Every byte that `build_packet` writes of a packet within its types is a byte.
pub build_packet-IsByte : (p : Packet) → IsTyped p → All IsByte (build_packet p)
unfolding build_packet
build_packet-IsByte p k = elim (Bool-cases p.is_udp) [
  | inl udp ↦ rw udp (k.id, (k.is_compressed, (k.is_reliable, (low, (high, k.payload)))))
  | inr tcp ↦ rw tcp (k.id, (k.is_compressed, (low, (high, k.payload))))
]
  where
    low : IsByte (bit_and p.length 0xff)
    low = rw (low_byte p.length) (omega arith)

    high : IsByte (bit_and (p.length / 256) 0xff)
    high = rw (low_byte (p.length / 256)) (omega arith)
