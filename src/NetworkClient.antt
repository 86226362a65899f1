-- ===== src/NetworkClient.antt =====
-- NetworkClient.cpp (`NetworkClient` and its `Impl`). A method takes the client and returns it
-- changed, with how the method was left. What asio, the clock and zlib do comes in as arguments: an
-- asynchronous operation is a method that starts it and a handler of its completion.
pub mod Sending
pub mod Reading
pub mod Receiving
pub mod Dispatch
pub mod Delivery
pub mod PeerHeartbeat
pub mod Heartbeats
pub mod MissedHeartbeats
pub mod Watch
pub mod Race
pub mod Parting
pub mod Closing
pub mod Lifetime
pub mod Session
pub mod Farewell
mod Examples
mod Tests
mod SessionTests
mod RaceTests
use parlo_plus_plus.Common.{
  ℕ, ◌+◌, ◌*◌, Bool, true, false, not, ◌&&◌, List, [], ◌∷◌, ◌++◌, Option, none, some, Exception,
  Result, ok, throws, invalid_argument, overflow_error, runtime_error, bad_weak_ptr, system_error,
  ◌>>=◌, if◌then◌else◌, ltb, ◌==◌, length, is_empty,
}
use parlo_plus_plus.Common.Int.{ℤ, pos, ◌+ℤ◌, ◌-ℤ◌, ltb_ℤ, to_coarse, to_int32}
use parlo_plus_plus.Packet.{Packet, max_packet_size, tcp_packet, build_packet}
use parlo_plus_plus.ProcessingBuffer.{
  Buffer, Round, stops, waits, continues, terminates, new_buffer, add_data, process_round, stop,
  set_on_packet_processed_handler,
}
use parlo_plus_plus.HeartbeatPacket.{
  HeartbeatPacket, heartbeat_packet, heartbeat_bytes, heartbeat_of_bytes,
}
use parlo_plus_plus.GoodbyePacket.{GoodbyePacket, goodbye_packet, goodbye_bytes, client_timeout}
use parlo_plus_plus.Compression.{ZStream, compress_data, decompress_data}

-- ParloIDs.h
abbrev pub heartbeat_id : ℕ
heartbeat_id = 0xfd

abbrev pub sgoodbye_id : ℕ
sgoodbye_id = 0xfe

abbrev pub cgoodbye_id : ℕ
cgoodbye_id = 0xff

-- The ticks of the system clock in a millisecond and in a second, and zlib's two streams.
pub record Platform : Type 1 where
  pub ticks_per_ms : ℕ
  pub ticks_per_second : ℕ
  pub deflate : ZStream
  pub inflate : ZStream

-- What the user's handlers are told.
pub data Notice : Type 0 where
  server_disconnected client_disconnected connection_lost received_heartbeat : Notice
  received_data : Packet → Notice

-- How a method is left: it returns, throws, or goes on to undefined behaviour or `std::terminate`.
pub data Exit : Type 0 where
  returns : Exit
  raises : Exception → Exit
  undefined : Exit
  terminated : Exit

-- Which of the `std::function` members hold a function.
pub record Handlers : Type 0 where
  pub on_server_disconnected : Bool
  pub on_client_disconnected : Bool
  pub on_connection_lost : Bool
  pub on_received_heartbeat : Bool
  pub on_received_data : Bool

-- `impl_shared` and `owner_shared` say whether a `std::shared_ptr` owns the `Impl` and the
-- `NetworkClient`, on which `shared_from_this` depends; `has_owner` whether the pointer `owner` has
-- been set. `reading` and `connecting`: an operation is under way. `written` and `notices` record
-- what was passed to `async_write` and what the handlers were told, oldest first.
pub record Client : Type 0 where
  pub handlers : Handlers
  pub open handlers use *
  pub impl_shared : Bool
  pub owner_shared : Bool
  pub has_owner : Bool
  pub apply_compression : Bool
  pub connected : Bool
  pub socket_open : Bool
  pub reading : Bool
  pub connecting : Bool
  pub is_alive : Bool
  pub missed_heartbeats : ℕ
  pub stop_check_missed_heartbeats : Bool
  pub stop_sending_heartbeats : Bool
  pub check_thread : Bool
  pub send_thread : Bool
  pub last_rtt : ℤ
  pub last_heartbeat_sent : ℤ
  pub buffer : Buffer
  pub written : List (List ℕ)
  pub notices : List Notice

abbrev pub compression_threshold : ℕ
compression_threshold = 1024

abbrev pub rtt_compression_threshold : ℤ
rtt_compression_threshold = pos 100

abbrev pub max_missed_heartbeats : ℕ
max_missed_heartbeats = 6

-- A handler is called with `shared_from_this()` of the `NetworkClient`. It is taken to return.
unfoldable pub notify : Notice → Client → Client × Exit
notify n c =
    if c.owner_shared
    then (record c { notices = c.notices ++ (n ∷ []) }, returns)
    else (c, raises bad_weak_ptr)

-- `if (handler) handler(…)`
unfoldable pub notify_if : Bool → Notice → Client → Client × Exit
unfolding notify
notify_if present n c = if present then notify n c else (c, returns)

-- `if (onConnectionLostHandler) onConnectionLostHandler(getNetworkClientSharedPtr())`, which goes
-- through the pointer `owner`.
unfoldable pub lose_connection : Client → Client × Exit
unfolding notify
lose_connection c =
    if c.on_connection_lost
    then (if c.has_owner then notify connection_lost c else (c, undefined))
    else (c, returns)

-- `receiveAsync`: starts a read.
unfoldable pub receive_async : Client → Client × Exit
receive_async c =
    if not c.connected
    then (c, returns)
    else if c.impl_shared
    then (record c { reading = true }, returns)
    else (c, raises bad_weak_ptr)

-- The completion of a read, with the bytes transferred, or `none` for an error.
unfoldable pub absorb : Client → Result Buffer → Client
absorb c (ok b) = record c { buffer = b }
absorb c (throws e) = c

unfoldable pub on_read : Option (List ℕ) → Client → Client × Exit
unfolding receive_async absorb add_data
on_read (some bytes) c =
    let c' = record c { reading = false } in receive_async (absorb c' (add_data bytes c'.buffer))
on_read none c = lose_connection (record c { reading = false; connected = false })
