-- ===== src/ProcessingBuffer/Interleaving/Tests.antt =====
-- Witnesses for the interleaved threads of ProcessingBuffer.cpp: a packet of five bytes arrives.
use parlo_plus_plus.Common.{
  ℕ, suc, List, ◌++◌, ◌+◌, ◌≤◌, ◌<◌, ◌≡◌, refl, inl, false, true, [], ◌∷◌, none, length, arith,
}
use parlo_plus_plus.Packet.{Packet, tcp_packet, build_packet}
use parlo_plus_plus.Packet.Build.{IsTcp}
use parlo_plus_plus.ProcessingBuffer.Framing.{wire}
use parlo_plus_plus.ProcessingBuffer.Tracking.{arrived}
use parlo_plus_plus.ProcessingBuffer.Interleaving.InOrder.{Runs_in_order}
use parlo_plus_plus.ProcessingBuffer.{
  received, round, run, start, set_on_packet_processed_handler, body_size,
}
use parlo_plus_plus.ProcessingBuffer.Interleaving.{
  waiting, waking, Machine, goes_on, locks, relocks, finds, finds_nothing, blocks, wakes_up,
  WorkMove, reads_id, reads_flag, reads_low, reads_high, starts_body, takes, makes, hands,
  OtherMove, pushes, unlocks, notifies, Runs, here, waited, worked, other, begins, enters,
}
use parlo_plus_plus.ProcessingBuffer.Interleaving.Rounds.{BeginsRound, Runs-BeginsRound}
use parlo_plus_plus.ProcessingBuffer.Interleaving.Atomic.Orders.{Runs-run}
use parlo_plus_plus.ProcessingBuffer.Interleaving.Progress.{steps_left, Runs-WorkMove}
use parlo_plus_plus.ProcessingBuffer.Interleaving.Wakeups.{
  IsAwaited, Runs-IsAwaited, IsStuck, Runs-IsStuck,
}

-- The processing thread has found the queue empty.
abbrev about_to_block : (m : Machine) × Runs [] m
unfolding set_on_packet_processed_handler
about_to_block = (
  _,
  waited (waited (waited here (goes_on _ refl refl)) (locks _ refl refl))
      (finds_nothing _ refl refl refl),
)

Runs-IsStuck_example : (n : Machine) × Runs [] n × (n.place ≡ waiting) × (n.stop ≡ true) × IsStuck n
unfolding set_on_packet_processed_handler
Runs-IsStuck_example = Runs-IsStuck about_to_block.1 refl refl refl

abbrev bytes : List ℕ
bytes = 7 ∷ 0 ∷ 5 ∷ 0 ∷ 9 ∷ []

-- It is blocked, and a caller of `add_data` has pushed the first byte.
abbrev one_byte : (m : Machine) × Runs (received bytes ∷ []) m
unfolding set_on_packet_processed_handler
one_byte = (
  _,
  other (enters bytes (waited about_to_block.1 (blocks _ refl)) refl refl refl (omega arith))
      (pushes _ 7 _ refl),
)

Runs-IsAwaited_example :
    IsAwaited one_byte.0
    × ((n : ℕ)
        → one_byte.0.notifying ≡ suc n
        → OtherMove one_byte.0 (record one_byte.0 { place = waking; notifying = n }))
unfolding set_on_packet_processed_handler
Runs-IsAwaited_example = Runs-IsAwaited one_byte.1 refl refl

abbrev all_bytes : (m : Machine) × Runs (received bytes ∷ []) m
unfolding set_on_packet_processed_handler
all_bytes = (
  _,
  other
      (other (other (other one_byte.1 (pushes _ 0 _ refl)) (pushes _ 5 _ refl)) (pushes _ 0 _ refl))
      (pushes _ 9 _ refl),
)

-- The caller is about to notify.
abbrev unlocked : (m : Machine) × Runs (received bytes ∷ []) m
unfolding set_on_packet_processed_handler
unlocked = (_, other all_bytes.1 (unlocks _ refl))

Runs-BeginsRound_example : BeginsRound unlocked.0
unfolding set_on_packet_processed_handler steps_left
Runs-BeginsRound_example = Runs-BeginsRound unlocked.1 refl refl (λ e. cc (e)) refl refl refl

abbrev at_work : (m : Machine) × Runs (received bytes ∷ round ∷ []) m
unfolding set_on_packet_processed_handler
at_work = (
  _,
  begins
      (waited
        (waited (other (other all_bytes.1 (unlocks _ refl)) (notifies _ 0 refl refl))
          (relocks _ refl refl))
        (finds _ refl (inl refl)))
      refl refl,
)

Runs-WorkMove_example :
    ((n : Machine) × WorkMove at_work.0 n)
    × ((n : Machine)
        → WorkMove at_work.0 n
        → steps_left n.place + length n.buffer.internal_buffer
          < steps_left at_work.0.place + length at_work.0.buffer.internal_buffer)
    × (at_work.0.adder ≡ none)
unfolding steps_left set_on_packet_processed_handler
Runs-WorkMove_example = Runs-WorkMove at_work.1 (omega arith)

one_missing : 0 < 1
one_missing = omega arith

none_missing : 1 ≤ 1
none_missing = omega arith

-- The round is over, and the handler has the packet.
abbrev after_work : (m : Machine) × Runs (received bytes ∷ round ∷ []) m
unfolding set_on_packet_processed_handler body_size tcp_packet
after_work = (
  _,
  waited
      (worked
        (worked
          (worked
            (worked
              (worked
                (worked
                  (worked (worked at_work.1 (reads_id _ 7 _ refl refl refl))
                    (reads_flag _ 0 _ refl refl))
                  (reads_low _ 5 _ refl refl))
                (reads_high _ 5 0 _ refl refl))
              (starts_body _ refl refl))
            (takes _ [] 9 _ refl one_missing refl))
          (makes _ (9 ∷ []) _ refl none_missing refl))
        (hands _ _ refl))
      (wakes_up _ refl),
)

Runs-run_example :
    (after_work.0.delivered ≡ (run start (received bytes ∷ round ∷ [])).delivered)
    × (after_work.0.terminated ≡ (run start (received bytes ∷ round ∷ [])).terminated)
    × (after_work.0.terminated ≡ false
        → after_work.0.buffer ≡ (run start (received bytes ∷ round ∷ [])).buffer)
unfolding set_on_packet_processed_handler after_work
Runs-run_example = Runs-run after_work.1 refl refl

abbrev five_bytes : ℕ → ℕ → Packet
five_bytes id byte = record {
  id = id;
  is_compressed = 0;
  is_reliable = 0;
  length = 5;
  payload = byte ∷ [];
  is_udp = false;
}

five_bytes-IsTcp : (id byte : ℕ) → IsTcp (five_bytes id byte)
five_bytes-IsTcp id byte = record {
  tcp = refl;
  some_data = omega arith;
  counted = refl;
  fits = omega arith;
  flag_bit = omega arith;
  unreliable = refl;
}

-- A second packet of five bytes is still to come.
bytes-wire : bytes ++ (8 ∷ 0 ∷ 5 ∷ 0 ∷ 4 ∷ []) ≡ wire (five_bytes 7 9 ∷ five_bytes 8 4 ∷ [])
unfolding wire build_packet
bytes-wire = refl

Runs_in_order_example :
    (after_work.0.terminated ≡ false)
    × (left : List Packet) × (after_work.0.delivered ++ left ≡ five_bytes 7 9 ∷ five_bytes 8 4 ∷ [])
unfolding arrived
Runs_in_order_example =
    Runs_in_order (five_bytes 7 9 ∷ five_bytes 8 4 ∷ []) (8 ∷ 0 ∷ 5 ∷ 0 ∷ 4 ∷ []) after_work.1
      (five_bytes-IsTcp 7 9, (five_bytes-IsTcp 8 4, tt)) bytes-wire
