-- ===== src/GoodbyePacket.antt =====
-- GoodbyePacket.cpp and GoodbyePacket.h. `ticks` is the number of ticks of
-- `std::chrono::system_clock` in a second, which the standard library fixes. The fields of an object
-- are 64-bit counts.
pub mod RoundTrip
mod Tests
use parlo_plus_plus.Common.{
  ℕ, List, ◌++◌, Result, ok, throws, runtime_error, if◌then◌else◌, ltb, length,
}
use parlo_plus_plus.Common.Int.{ℤ, pos, to_coarse, to_fine}
use parlo_plus_plus.Common.Bytes.{store_int64, load_int64}

-- `ParloDefaultTimeouts`, in seconds.
abbrev pub server_timeout : ℤ
server_timeout = pos 60

abbrev pub client_timeout : ℤ
client_timeout = pos 5

pub record GoodbyePacket : Type 0 where
  pub timeout : ℤ  -- in seconds
  pub sent_time : ℤ  -- in ticks of the system clock

-- The constructor; the clock is read by its caller here.
unfoldable pub goodbye_packet : ℤ → ℤ → GoodbyePacket
goodbye_packet now timeout_seconds = record { timeout = timeout_seconds; sent_time = now }

-- `toByteArray`
unfoldable pub goodbye_bytes : ℕ → GoodbyePacket → List ℕ
goodbye_bytes ticks g = store_int64 g.timeout ++ store_int64 (to_coarse ticks g.sent_time)

-- `fromByteArray`
unfoldable pub goodbye_of_bytes : ℕ → List ℕ → Result GoodbyePacket
goodbye_of_bytes ticks bytes =
    if ltb (length bytes) 16
    then throws runtime_error
    else ok
        (record { timeout = load_int64 bytes 0; sent_time = to_fine ticks (load_int64 bytes 8) })
