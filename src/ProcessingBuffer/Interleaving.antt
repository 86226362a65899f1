-- ===== src/ProcessingBuffer/Interleaving.antt =====
-- ProcessingBuffer.cpp as threads that interleave at every step: the processing thread, callers of
-- `addData`, and the destructor. A step is one test, one byte that is pushed or popped, or one operation
-- on the mutex or the condition variable; the queue and the header's members are only used under the mutex.
pub mod Atomic
pub mod Progress
pub mod InOrder
pub mod Wakeups
pub mod Rounds
mod Tests
use parlo_plus_plus.Common.{
  ℕ, suc, ◌+◌, ◌-◌, ◌≤◌, ◌<◌, ◌≡◌, ◌≢◌, ◌⊎◌, Bool, true, false, not, ◌&&◌, List, [], ◌∷◌, ◌++◌,
  Option, none, some, Exception, ok, throws, if◌then◌else◌, leb, ◌==◌, length, is_empty,
}
use parlo_plus_plus.Packet.{Packet, max_packet_size, tcp_packet}
use parlo_plus_plus.Packet.Build.{joined}
use parlo_plus_plus.ProcessingBuffer.{
  Buffer, body_size, header_due, listed, Event, received, round, Thread, start,
}

-- Where `process_packets` stands, with its live locals.
pub data Place : Type 0 where
  at_loop : Place  -- before `while (!stopProcessing)`
  locking : Place  -- before the `unique_lock`
  checking : Place  -- in `cv.wait`, before the predicate
  blocking : Place  -- in `cv.wait`, the predicate was false
  waiting : Place  -- blocked in `cv.wait`, without the mutex
  waking : Place  -- woken in `cv.wait`, before the mutex
  testing : Place  -- before `if (stopProcessing) break`
  header : Place  -- before the test of the header
  flag_next : Place  -- in `readHeader`, behind the ID
  low_next : Place  -- behind the flag
  high_next : (low : ℕ) → Place  -- behind the low byte of the length
  body_due : Place  -- before the test of the body
  body : (packet_data : List ℕ) → Place  -- in the loop, with the bytes popped so far
  handing : (p : Packet) → Place  -- before the handler
  sleeping : Place
  finished : Place  -- out of the function
  died : Place  -- an exception has left the function, which ends the process

abbrev pub holds_mutex : Place → Bool
holds_mutex at_loop = false
holds_mutex locking = false
holds_mutex waiting = false
holds_mutex waking = false
holds_mutex finished = false
holds_mutex died = false
holds_mutex _ = true

abbrev pub is_dead : Place → Bool
is_dead died = true
is_dead _ = false

-- `adder`: the bytes that the caller of `add_data` who holds the mutex has still to push. `notifying`:
-- how many callers are about to notify. `stop` is the atomic `stopProcessing`.
pub record Machine : Type 0 where
  pub thread : Thread
  pub open thread use *
  pub place : Place
  pub adder : Option (List ℕ)
  pub notifying : ℕ
  pub stop : Bool

-- The members that the mutex guards, changed together with the place.
abbrev pub moved : Machine → Place → Buffer → Machine
moved m p b = record m { thread = record m.thread { buffer = b }; place = p }

-- A step of the processing thread outside its work on a packet.
pub data WaitMove : Machine → Machine → Type 0 where
  goes_on :
      (m : Machine) → m.place ≡ at_loop → m.stop ≡ false → WaitMove m (record m { place = locking })
  leaves :
      (m : Machine) → m.place ≡ at_loop → m.stop ≡ true → WaitMove m (record m { place = finished })
  locks :
      (m : Machine)
      → m.place ≡ locking
      → m.adder ≡ none
      → WaitMove m (record m { place = checking })
  relocks :
      (m : Machine) → m.place ≡ waking → m.adder ≡ none → WaitMove m (record m { place = checking })
  finds :
      (m : Machine)
      → m.place ≡ checking
      → (is_empty m.buffer.internal_buffer ≡ false) ⊎ (m.stop ≡ true)
      → WaitMove m (record m { place = testing })
  finds_nothing :
      (m : Machine)
      → m.place ≡ checking
      → is_empty m.buffer.internal_buffer ≡ true
      → m.stop ≡ false
      → WaitMove m (record m { place = blocking })
  blocks : (m : Machine) → m.place ≡ blocking → WaitMove m (record m { place = waiting })
  breaks :
      (m : Machine) → m.place ≡ testing → m.stop ≡ true → WaitMove m (record m { place = finished })
  wakes_up : (m : Machine) → m.place ≡ sleeping → WaitMove m (record m { place = at_loop })

-- A step of the processing thread at work on a packet. A handler that it calls is taken to return.
pub data WorkMove : Machine → Machine → Type 0 where
  reads_id :
      (m : Machine) (x : ℕ) (xs : List ℕ)
      → m.place ≡ header
      → header_due m.buffer ≡ true
      → m.buffer.internal_buffer ≡ x ∷ xs
      → WorkMove m (moved m flag_next (record m.buffer { internal_buffer = xs; current_id = x }))
  no_header :
      (m : Machine)
      → m.place ≡ header
      → header_due m.buffer ≡ false
      → WorkMove m (record m { place = body_due })
  reads_flag :
      (m : Machine) (x : ℕ) (xs : List ℕ)
      → m.place ≡ flag_next
      → m.buffer.internal_buffer ≡ x ∷ xs
      → WorkMove m (
          moved m low_next (record m.buffer { internal_buffer = xs; is_compressed = not (x == 0) }))
  reads_low :
      (m : Machine) (x : ℕ) (xs : List ℕ)
      → m.place ≡ low_next
      → m.buffer.internal_buffer ≡ x ∷ xs
      → WorkMove m (moved m (high_next x) (record m.buffer { internal_buffer = xs }))
  reads_high :
      (m : Machine) (low x : ℕ) (xs : List ℕ)
      → m.place ≡ high_next low
      → m.buffer.internal_buffer ≡ x ∷ xs
      → WorkMove m (
          moved m body_due (record m.buffer {
            internal_buffer = xs;
            current_length = joined low x;
            has_read_header = true;
          }))
  no_body :
      (m : Machine)
      → m.place ≡ body_due
      → (m.buffer.has_read_header && leb (body_size m.buffer) (length m.buffer.internal_buffer))
        ≡ false
      → WorkMove m (record m { place = sleeping })
  starts_body :
      (m : Machine)
      → m.place ≡ body_due
      → (m.buffer.has_read_header && leb (body_size m.buffer) (length m.buffer.internal_buffer))
        ≡ true
      → WorkMove m (record m { place = body [] })
  takes :
      (m : Machine) (packet_data : List ℕ) (x : ℕ) (xs : List ℕ)
      → m.place ≡ body packet_data
      → length packet_data < body_size m.buffer
      → m.buffer.internal_buffer ≡ x ∷ xs
      → WorkMove m
          (moved m (body (packet_data ++ (x ∷ []))) (record m.buffer { internal_buffer = xs }))
  makes :
      (m : Machine) (packet_data : List ℕ) (p : Packet)
      → m.place ≡ body packet_data
      → body_size m.buffer ≤ length packet_data
      → tcp_packet m.buffer.current_id packet_data m.buffer.is_compressed ≡ ok p
      → WorkMove m (moved m (handing p) (record m.buffer { has_read_header = false }))
  dies :
      (m : Machine) (packet_data : List ℕ) (e : Exception)
      → m.place ≡ body packet_data
      → body_size m.buffer ≤ length packet_data
      → tcp_packet m.buffer.current_id packet_data m.buffer.is_compressed ≡ throws e
      → WorkMove m (record m { thread = record m.thread { terminated = true }; place = died })
  hands :
      (m : Machine) (p : Packet)
      → m.place ≡ handing p
      → WorkMove m (record m {
        thread = record m.thread {
          delivered = m.delivered ++ listed (if m.buffer.has_handler then some p else none);
        };
        place = sleeping;
      })

-- The steps that others make: callers of `add_data`, and the destructor, which sets `stopProcessing` with
-- no mutex. A notification reaches a thread that is blocked, and is lost on any other. The condition
-- variable may also wake with no notification.
pub data OtherMove : Machine → Machine → Type 0 where
  pushes :
      (m : Machine) (x : ℕ) (xs : List ℕ)
      → m.adder ≡ some (x ∷ xs)
      → OtherMove m (record m {
        thread = record m.thread {
          buffer = record m.buffer { internal_buffer = m.buffer.internal_buffer ++ (x ∷ []) };
        };
        adder = some xs;
      })
  unlocks :
      (m : Machine)
      → m.adder ≡ some []
      → OtherMove m (record m { adder = none; notifying = m.notifying + 1 })
  orders :
      (m : Machine)
      → m.stop ≡ false
      → OtherMove m (record m { stop = true; notifying = m.notifying + 1 })
  notifies :
      (m : Machine) (n : ℕ)
      → m.notifying ≡ suc n
      → m.place ≡ waiting
      → OtherMove m (record m { place = waking; notifying = n })
  notifies_nobody :
      (m : Machine) (n : ℕ)
      → m.notifying ≡ suc n
      → m.place ≢ waiting
      → OtherMove m (record m { notifying = n })

-- Runs from a new buffer with a handler, with what a run of atomic steps would show: a chunk where its
-- caller gets the mutex, and a round where the processing thread goes past its test of `stopProcessing`.
pub data Runs : List Event → Machine → Type 0 where
  here :
      Runs []
        (record { thread = start; place = at_loop; adder = none; notifying = 0; stop = false })
  waited : {es : List Event} {m n : Machine} → Runs es m → WaitMove m n → Runs es n
  worked : {es : List Event} {m n : Machine} → Runs es m → WorkMove m n → Runs es n
  other : {es : List Event} {m n : Machine} → Runs es m → OtherMove m n → Runs es n
  spurious :
      {es : List Event} {m : Machine}
      → Runs es m
      → m.place ≡ waiting
      → Runs es (record m { place = waking })
  begins :
      {es : List Event} {m : Machine}
      → Runs es m
      → m.place ≡ testing
      → m.stop ≡ false
      → Runs (es ++ (round ∷ [])) (record m { place = header })
  enters :
      {es : List Event} {m : Machine} (bytes : List ℕ)
      → Runs es m
      → m.adder ≡ none
      → holds_mutex m.place ≡ false
      → is_dead m.place ≡ false
      → length bytes ≤ max_packet_size
      → Runs (es ++ (received bytes ∷ [])) (record m { adder = some bytes })
