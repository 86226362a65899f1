-- ===== src/NetworkClient/Tests.antt =====
-- Runs of one call of NetworkClient.cpp.
use parlo_plus_plus.Common.{◌++◌, ℕ, zero, suc, ◌≡◌, refl, true, false, List, [], ◌∷◌, ok, arith}
use parlo_plus_plus.Common.Int.{pos}
use parlo_plus_plus.Packet.{Packet, tcp_packet, build_packet}
use parlo_plus_plus.HeartbeatPacket.{HeartbeatPacket, heartbeat_bytes}
use parlo_plus_plus.Common.Bytes.{store_int64}
use parlo_plus_plus.Compression.{Code-discrete, compress_data}
use parlo_plus_plus.Compression.Stored.{
  set_up_deflate, stored_code, stored_deflate, stored-IsLossless,
}
use parlo_plus_plus.NetworkClient.{Client, terminated, returns}
use parlo_plus_plus.NetworkClient.Sending.{
  should_compress_data, send_async, Sendable, Refuses, send_async_exact,
}
use parlo_plus_plus.NetworkClient.Receiving.{on_packet, client_round}
use parlo_plus_plus.NetworkClient.Dispatch.{Handles, on_packet-Handles}
use parlo_plus_plus.NetworkClient.Delivery.{HandsOver, on_packet-compress_data}
use parlo_plus_plus.NetworkClient.PeerHeartbeat.{client_round-heartbeat}
use parlo_plus_plus.NetworkClient.Heartbeats.{Readings}
use parlo_plus_plus.NetworkClient.Closing.{disconnect_async, disconnect_async_unshared}
use parlo_plus_plus.NetworkClient.Examples.{windows, served, hello, hello_packet}

zeros : ℕ → List ℕ
zeros zero = []
zeros (suc n) = 0 ∷ zeros n

send_async_exact_example :
    (Sendable hello served
      → send_async windows hello served
        ≡ (record served { written = served.written ++ (hello ∷ []) }, returns))
    × (¬ Sendable hello served → Refuses served (send_async windows hello served))
send_async_exact_example = send_async_exact windows hello served

long_data : should_compress_data served (zeros 1024) (pos 150) ≡ ok true
unfolding should_compress_data zeros
long_data = refl

on_packet-Handles_example : Handles 7 served (on_packet windows (pos 2000) hello_packet served)
on_packet-Handles_example = on_packet-Handles windows (pos 2000) hello_packet served

abbrev packed_packet : Packet
packed_packet = record hello_packet {
  is_compressed = 1;
  length = 7;
  payload = 0x78 ∷ 104 ∷ 105 ∷ [];
}

hello_packed : compress_data stored_deflate (104 ∷ 105 ∷ []) ≡ ok packed_packet.payload
unfolding compress_data set_up_deflate Code-discrete stored_code
hello_packed = refl

on_packet-compress_data_example :
    HandsOver 7 (104 ∷ 105 ∷ []) served (on_packet windows (pos 2000) packed_packet served)
unfolding set_up_deflate
on_packet-compress_data_example =
    on_packet-compress_data windows (pos 2000) packed_packet served (104 ∷ 105 ∷ [])
      (0, 0x78 ∷ 104 ∷ 105 ∷ []) stored-IsLossless
      (λ e. omega (arith, e), λ e. omega (arith, e), λ e. omega (arith, e)) (refl, refl) refl
      (omega arith) refl hello_packed

abbrev beat : HeartbeatPacket
beat = record { time_since_last = pos 5000; sent_timestamp = pos 123456789 }

abbrev beat_packet : Packet
beat_packet = record {
  id = 0xfd;
  is_compressed = 0;
  is_reliable = 0;
  length = 20;
  payload = heartbeat_bytes 10000 beat;
  is_udp = false;
}

beat_packet_made : tcp_packet 0xfd (heartbeat_bytes 10000 beat) false ≡ ok beat_packet
unfolding tcp_packet heartbeat_bytes store_int64
beat_packet_made = refl

abbrev beaten : Client
beaten = record served {
  buffer = record served.buffer { internal_buffer = build_packet beat_packet };
}

client_round-heartbeat_example : (client_round windows (pos 200000000) beaten).1 ≡ terminated
client_round-heartbeat_example =
    client_round-heartbeat windows (pos 200000000) beaten beat beat_packet beat_packet_made
      (record { running = refl; handled = refl }) refl refl

abbrev clock : Readings
clock = record {
  tested = pos 60000;
  subtracted = pos 60001;
  stamped = pos 60002;
  recorded = pos 60003;
}

abbrev lone : Client
lone = record served { impl_shared = false }

disconnect_async_unshared_example :
    disconnect_async windows (pos 0) (record { shuts_down = true; closes = true }) true lone ≡ lone
disconnect_async_unshared_example =
    disconnect_async_unshared windows (pos 0) (record { shuts_down = true; closes = true }) lone
      refl
