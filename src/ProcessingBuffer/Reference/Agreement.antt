-- ===== src/ProcessingBuffer/Reference/Agreement.antt =====
-- Whole runs of ProcessingBuffer.cpp beside the reference decoder.
use parlo_plus_plus.Common.{
  ℕ, ◌+◌, ◌-◌, ◌^◌, ◌≤◌, ◌<◌, ◌≡◌, refl, Bool, true, false, List, [], ◌∷◌, ◌++◌, append-nil,
  append_assoc, none, some, length, length-append, arith,
}
use parlo_plus_plus.Packet.{Packet, max_packet_size}
use parlo_plus_plus.ProcessingBuffer.{
  Round, stops, waits, continues, terminates, Event, received, round, Thread, after_round,
  process_round, step, run, start, set_on_packet_processed_handler,
}
use parlo_plus_plus.ProcessingBuffer.Tracking.{
  arrived, FitsChunks, step_received, step_round, step_dead,
}
use parlo_plus_plus.ProcessingBuffer.Reference.{reference}
use parlo_plus_plus.ProcessingBuffer.Reference.Steps.{
  expect, IsSteady, Agrees, process_round-Agrees,
}

-- A run that comes to what the reference says, either already or with what is expected of its buffer.
pub data Follows (t : Thread) (future : List ℕ) (target : List Packet × Bool) : Type 0 where
  ended : t.terminated ≡ true → (t.delivered, true) ≡ target → Follows t future target
  goes_on :
      t.terminated ≡ false
      → IsSteady t.buffer
      → length t.buffer.internal_buffer + length future < 2 ^ 64 - 4
      → (t.delivered ++ (expect t.buffer future).0, (expect t.buffer future).1) ≡ target
      → Follows t future target

received-Follows :
    (t : Thread) (bytes future : List ℕ) (target : List Packet × Bool)
    → length bytes ≤ max_packet_size
    → Follows t (bytes ++ future) target
    → Follows (step t (received bytes)) future target
received-Follows t bytes future target h (ended dead e) =
    rw (step_dead t (received bytes) dead) (ended dead e)
received-Follows t bytes future target h (goes_on alive s few e) =
    let more = length-append t.buffer.internal_buffer bytes in
    let total = length-append bytes future in
    let joined_up = append_assoc t.buffer.internal_buffer bytes future in
    rw (step_received t bytes alive h) (
      goes_on alive
        (record {
          ready = record { running = s.ready.running; handled = s.ready.handled };
          word = s.word;
          bounded = omega (arith, few, more, total);
          some_body = s.some_body;
        })
        (omega (arith, few, more, total)) (rw joined_up e))

-- A round with any outcome that agrees.
after_round-Follows :
    (t : Thread) (future : List ℕ) (target : List Packet × Bool) (r : Round)
    → t.terminated ≡ false
    → IsSteady t.buffer
    → length t.buffer.internal_buffer + length future < 2 ^ 64 - 4
    → (t.delivered ++ (expect t.buffer future).0, (expect t.buffer future).1) ≡ target
    → Agrees t.buffer future r
    → Follows (after_round t r) future target
unfolding after_round
after_round-Follows t future target stops alive s few e a = elim a [ ]
after_round-Follows t future target waits alive s few e a = goes_on alive s few e
after_round-Follows t future target (continues b none) alive s few e (s', same, fewer, _) =
    goes_on alive s' (omega arith) (rw (append-nil t.delivered, same) e)
after_round-Follows t future target (continues b (some p)) alive s few e (s', same, less) =
    goes_on alive s' (omega arith)
      (rw (append_assoc t.delivered (p ∷ []) (expect b future).0) (rw same at e))
after_round-Follows t future target (terminates x) alive s few e a =
    ended refl (rw (← append-nil t.delivered) (rw a at e))

round-Follows :
    (t : Thread) (future : List ℕ) (target : List Packet × Bool)
    → Follows t future target
    → Follows (step t round) future target
round-Follows t future target (ended dead e) = rw (step_dead t round dead) (ended dead e)
round-Follows t future target (goes_on alive s few e) =
    rw (step_round t (process_round t.buffer) alive refl) (
      after_round-Follows t future target (process_round t.buffer) alive s few e
        (process_round-Agrees t.buffer future s))

pub run-Follows :
    (es : List Event) (t : Thread) (future : List ℕ) (target : List Packet × Bool)
    → FitsChunks es
    → Follows t (arrived es ++ future) target
    → Follows (run t es) future target
unfolding run arrived
run-Follows [] t future target h f = f
run-Follows (received bytes ∷ es) t future target h f =
    run-Follows es (step t (received bytes)) future target h.1 (
      received-Follows t bytes (arrived es ++ future) target h.0
        (rw (append_assoc bytes (arrived es) future) at f))
run-Follows (round ∷ es) t future target h f =
    run-Follows es (step t round) future target h (round-Follows t (arrived es ++ future) target f)

pub start-Follows :
    (bytes : List ℕ) → length bytes < 2 ^ 64 - 4 → Follows start bytes (reference bytes)
unfolding set_on_packet_processed_handler
start-Follows bytes h =
    goes_on refl
      (record {
        ready = record { running = refl; handled = refl };
        word = omega arith;
        bounded = omega arith;
        some_body = λ e. cc (e);
      })
      (omega arith) refl
