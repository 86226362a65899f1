-- ===== src/Packet/Tests.antt =====
-- Runs of Packet.cpp.
use parlo_plus_plus.Common.{ℕ, ◌<◌, ◌≡◌, refl, true, false, List, [], ◌∷◌, ok, length}
use mathlib.Core.Logic.{◌↔◌}
use parlo_plus_plus.Packet.{Packet, tcp_packet, udp_packet, build_packet}
use parlo_plus_plus.Packet.Build.{length-build_packet_iff}

abbrev three_bytes : List ℕ
three_bytes = 1 ∷ 2 ∷ 3 ∷ []

abbrev tcp_example : Packet
tcp_example = record {
  id = 7;
  is_compressed = 1;
  is_reliable = 0;
  length = 7;
  payload = three_bytes;
  is_udp = false;
}

abbrev udp_example : Packet
udp_example = record {
  id = 7;
  is_compressed = 0;
  is_reliable = 1;
  length = 8;
  payload = three_bytes;
  is_udp = true;
}

tcp_example_made : tcp_packet 7 three_bytes true ≡ ok tcp_example
unfolding tcp_packet
tcp_example_made = refl

udp_example_made : udp_packet 7 three_bytes false true ≡ ok udp_example
unfolding udp_packet
udp_example_made = refl

tcp_example_built : build_packet tcp_example ≡ 7 ∷ 1 ∷ 7 ∷ 0 ∷ three_bytes
unfolding build_packet
tcp_example_built = refl

length-build_packet_iff_example :
    (tcp_example.length ≡ length (build_packet tcp_example)) ↔ (length three_bytes < 65532)
length-build_packet_iff_example =
    length-build_packet_iff 7 three_bytes true tcp_example tcp_example_made
