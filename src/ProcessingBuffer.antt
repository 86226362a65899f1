-- ===== src/ProcessingBuffer.antt =====
-- ProcessingBuffer.cpp (`ProcessingBuffer::Impl`): bytes go in by `add_data`, on any thread, and the
-- rounds of the processing thread's loop take packets out. Each holds the mutex from end to end, so
-- the two are the atomic steps of the model; Interleaving has the single steps.
pub mod Access
pub mod Framing
pub mod Rounds
pub mod Tracking
pub mod Stream
pub mod Malformed
pub mod Validity
pub mod Interleaving
pub mod Reference
mod Tests
use parlo_plus_plus.Common.{
  ℕ, ◌+◌, ◌-◌, ◌%◌, ◌^◌, Bool, true, false, not, ◌&&◌, List, [], ◌∷◌, ◌++◌, Option, none, some,
  Exception, Result, ok, throws, overflow_error, out_of_range, if◌then◌else◌, ltb, leb, ◌==◌,
  length, is_empty, take, drop,
}
use parlo_plus_plus.Packet.{Packet, standard, max_packet_size, tcp_packet}
use parlo_plus_plus.Packet.Build.{joined}

-- `has_handler`: whether a function is set as the handler of processed packets.
pub record Buffer : Type 0 where
  pub internal_buffer : List ℕ
  pub stop_processing : Bool
  pub has_read_header : Bool
  pub current_id : ℕ  -- uint8_t
  pub is_compressed : Bool
  pub current_length : ℕ  -- uint16_t
  pub has_handler : Bool

abbrev pub new_buffer : Buffer
new_buffer = record {
  internal_buffer = [];
  stop_processing = false;
  has_read_header = false;
  current_id = 0;
  is_compressed = false;
  current_length = 0;
  has_handler = false;
}

-- The argument says whether the given `std::function` holds a function.
unfoldable pub set_on_packet_processed_handler : Bool → Buffer → Buffer
set_on_packet_processed_handler given b = record b { has_handler = given }

-- The destructor, up to its wait for the thread.
unfoldable pub stop : Buffer → Buffer
stop b = record b { stop_processing = true }

unfoldable pub add_data : List ℕ → Buffer → Result Buffer
add_data bytes b =
    if ltb max_packet_size (length bytes)
    then throws overflow_error
    else ok (record b { internal_buffer = b.internal_buffer ++ bytes })

-- `front` of the copy of the queue. On an empty queue it is undefined; the test before it excludes
-- that case.
front : List ℕ → Result ℕ
front [] = throws out_of_range
front (x ∷ xs) = ok x

-- `operator[]`
unfoldable pub at_index : Buffer → ℕ → Result ℕ
unfolding front
at_index b index =
    if leb (length b.internal_buffer) index
    then throws out_of_range
    else front (drop index b.internal_buffer)

unfoldable pub buffer_count : Buffer → ℕ
buffer_count b = length b.internal_buffer

-- `read_header` by the bytes at the front of the queue; with fewer than four it returns at once.
-- The second byte is converted to a `bool`.
unfoldable pub read_header_from : List ℕ → Buffer → Buffer
read_header_from (id ∷ compressed ∷ low ∷ high ∷ rest) b = record b {
  internal_buffer = rest;
  has_read_header = true;
  current_id = id;
  is_compressed = not (compressed == 0);
  current_length = joined low high;
}
read_header_from _ b = b

unfoldable pub read_header : Buffer → Buffer
unfolding read_header_from
read_header b = read_header_from b.internal_buffer b

-- `static_cast<size_t>(currentLength - PacketHeaders::STANDARD)`: the difference is an `int`, and a
-- negative one becomes a `size_t` just below 2 ^ 64.
unfoldable pub body_size : Buffer → ℕ
body_size b = (b.current_length + 2 ^ 64 - standard) % 2 ^ 64

-- What a round of the loop comes to. An exception that leaves the thread's function ends the process.
pub data Round : Type 0 where
  stops : Round
  waits : Round
  continues : Buffer → Option Packet → Round
  terminates : Exception → Round

-- The packet's bytes are popped and the header is forgotten before the packet is made.
unfoldable pub hand_over : Buffer → Result Packet → Round
hand_over b (ok p) = continues b (if b.has_handler then some p else none)
hand_over b (throws e) = terminates e

unfoldable pub take_packet : Buffer → Round
unfolding hand_over
take_packet b =
    hand_over
      (record b { internal_buffer = drop (body_size b) b.internal_buffer; has_read_header = false })
      (tcp_packet b.current_id (take (body_size b) b.internal_buffer) b.is_compressed)

unfoldable pub process_body : Buffer → Round
unfolding take_packet
process_body b =
    if b.has_read_header && leb (body_size b) (length b.internal_buffer)
    then take_packet b
    else continues b none

abbrev pub header_due : Buffer → Bool
header_due b = leb standard (length b.internal_buffer) && not b.has_read_header

-- One round of `process_packets`: the packet in the result is the handler's argument.
unfoldable pub process_round : Buffer → Round
unfolding process_body read_header
process_round b =
    if b.stop_processing
    then stops
    else if is_empty b.internal_buffer
    then waits
    else process_body (if header_due b then read_header b else b)

-- What happens to a buffer: a chunk of bytes arrives, or the processing thread makes a round.
pub data Event : Type 0 where
  received : List ℕ → Event
  round : Event

-- A buffer with the packets that its handler was given, in order.
pub record Thread : Type 0 where
  pub buffer : Buffer
  pub delivered : List Packet
  pub terminated : Bool

abbrev pub listed {ℓ} : {A : Type ℓ} → Option A → List A
listed none = []
listed (some a) = a ∷ []

unfoldable pub after_round : Thread → Round → Thread
after_round t stops = t
after_round t waits = t
after_round t (continues b p) = record t { buffer = b; delivered = t.delivered ++ listed p }
after_round t (terminates e) = record t { terminated = true }

-- `add_data` as its caller in `receiveAsync` uses it: an overflow is logged and the chunk dropped.
unfoldable pub after_add : Thread → Result Buffer → Thread
after_add t (ok b) = record t { buffer = b }
after_add t (throws e) = t

unfoldable pub step : Thread → Event → Thread
unfolding after_add after_round add_data process_round
step t (received bytes) = if t.terminated then t else after_add t (add_data bytes t.buffer)
step t round = if t.terminated then t else after_round t (process_round t.buffer)

unfoldable pub run : Thread → List Event → Thread
run t [] = t
run t (e ∷ es) = run (step t e) es

-- A buffer whose handler is set, before any event.
abbrev pub start : Thread
start = record {
  buffer = set_on_packet_processed_handler true new_buffer;
  delivered = [];
  terminated = false;
}
