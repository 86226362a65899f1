-- ===== src/HeartbeatPacket/Tests.antt =====
-- Runs of HeartbeatPacket.cpp, on a clock with 10 000 ticks in a millisecond.
use parlo_plus_plus.Common.{◌≡◌, [], ◌∷◌, ◌++◌, ok, arith}
use parlo_plus_plus.Common.Int.{pos, to_coarse, to_fine}
use parlo_plus_plus.HeartbeatPacket.{HeartbeatPacket, heartbeat_bytes, heartbeat_of_bytes}
use parlo_plus_plus.HeartbeatPacket.RoundTrip.{heartbeat_of_bytes-cons}

abbrev beat : HeartbeatPacket
beat = record { time_since_last = pos 5000; sent_timestamp = pos 123456789 }

heartbeat_of_bytes-cons_example :
    (h : HeartbeatPacket) × (heartbeat_of_bytes 10000 (0xfd ∷ (heartbeat_bytes 10000 beat ++ []))
      ≡ ok h)
    × (h.time_since_last ≡ pos 5000)
    × (h.sent_timestamp ≡ to_fine 10000 (to_coarse 10000 (pos 123456789)))
    × (heartbeat_bytes 10000 h ≡ heartbeat_bytes 10000 beat)
heartbeat_of_bytes-cons_example =
    heartbeat_of_bytes-cons 10000 0xfd beat [] (omega arith) (omega arith) (omega arith)
