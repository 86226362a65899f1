-- ===== src/Packet.antt =====
-- Packet.cpp (`Packet::Impl`) and PacketHeaders.h. A byte is a number below 256, a
-- `std::vector<uint8_t>` a list of them; `payload` is the source's member `data`.
pub mod Build
pub mod Typing
mod Tests
use parlo_plus_plus.Common.{
  ℕ, ◌+◌, ◌/◌, ◌%◌, bit_and, Bool, true, false, List, [], ◌∷◌, ◌++◌, Result, ok, throws,
  invalid_argument, if◌then◌else◌, length, is_empty,
}

-- Sizes of the packet headers: a TCP packet's and a UDP packet's.
abbrev pub standard : ℕ
standard = 4

abbrev pub udp : ℕ
udp = 5

abbrev pub max_packet_size : ℕ
max_packet_size = 1024

pub record Packet : Type 0 where
  pub id : ℕ  -- uint8_t
  pub is_compressed : ℕ  -- uint8_t
  pub is_reliable : ℕ  -- uint8_t
  pub length : ℕ  -- uint16_t
  pub payload : List ℕ
  pub is_udp : Bool

-- `flag ? 1 : 0`
abbrev pub flag : Bool → ℕ
flag b = if b then 1 else 0

-- The constructor for TCP. The cast to `uint16_t` drops what does not fit.
unfoldable pub tcp_packet : ℕ → List ℕ → Bool → Result Packet
tcp_packet id serialized_data is_packet_compressed =
    if is_empty serialized_data
    then throws invalid_argument
    else ok (record {
      id = id;
      is_compressed = flag is_packet_compressed;
      is_reliable = 0;
      length = (standard + length serialized_data) % 65536;
      payload = serialized_data;
      is_udp = false;
    })

-- The constructor for UDP.
unfoldable pub udp_packet : ℕ → List ℕ → Bool → Bool → Result Packet
udp_packet id serialized_data is_packet_compressed is_packet_reliable =
    if is_empty serialized_data
    then throws invalid_argument
    else ok (record {
      id = id;
      is_compressed = flag is_packet_compressed;
      is_reliable = flag is_packet_reliable;
      length = (udp + length serialized_data) % 65536;
      payload = serialized_data;
      is_udp = true;
    })

-- The bytes for transmission: `push_back` of each header byte, then the data.
unfoldable pub build_packet : Packet → List ℕ
build_packet p =
    ((p.id ∷ p.is_compressed ∷ []) ++ reliable)
    ++ (bit_and p.length 0xff ∷ bit_and (p.length / 256) 0xff ∷ p.payload)
  where
    reliable : List ℕ
    reliable = if p.is_udp then p.is_reliable ∷ [] else []
