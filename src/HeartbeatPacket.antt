-- ===== src/HeartbeatPacket.antt =====
-- HeartbeatPacket.cpp. `ticks` is the number of ticks of `std::chrono::system_clock` in a
-- millisecond, which the standard library fixes. The fields of an object are 64-bit counts.
pub mod RoundTrip
mod Tests
use parlo_plus_plus.Common.{
  ℕ, List, ◌++◌, Result, ok, throws, runtime_error, if◌then◌else◌, ltb, length,
}
use parlo_plus_plus.Common.Int.{ℤ, to_coarse, to_fine}
use parlo_plus_plus.Common.Bytes.{store_int64, load_int64}

pub record HeartbeatPacket : Type 0 where
  pub time_since_last : ℤ  -- in milliseconds
  pub sent_timestamp : ℤ  -- in ticks of the system clock

-- The constructor; the clock is read by its caller here.
unfoldable pub heartbeat_packet : ℤ → ℤ → HeartbeatPacket
heartbeat_packet now t_since_last = record { time_since_last = t_since_last; sent_timestamp = now }

-- `toByteArray`
unfoldable pub heartbeat_bytes : ℕ → HeartbeatPacket → List ℕ
heartbeat_bytes ticks h =
    store_int64 h.time_since_last ++ store_int64 (to_coarse ticks h.sent_timestamp)

-- `byteArrayToObject`: the first byte is skipped. The constructor's reading of the clock is
-- overwritten.
unfoldable pub heartbeat_of_bytes : ℕ → List ℕ → Result HeartbeatPacket
heartbeat_of_bytes ticks bytes =
    if ltb (length bytes) 17
    then throws runtime_error
    else ok (record {
      time_since_last = load_int64 bytes 1;
      sent_timestamp = to_fine ticks (load_int64 bytes 9);
    })
