-- ===== src/ProcessingBuffer/Tests.antt =====
-- Runs of ProcessingBuffer.cpp.
use parlo_plus_plus.Common.{ℕ, ◌≡◌, refl, true, false, List, [], ◌∷◌, ◌++◌, All, arith}
use parlo_plus_plus.Packet.{Packet, tcp_packet, build_packet}
use parlo_plus_plus.Packet.Build.{IsTcp}
use parlo_plus_plus.ProcessingBuffer.{
  step, set_on_packet_processed_handler, body_size, Event, received, round, run, start,
}
use parlo_plus_plus.ProcessingBuffer.Framing.{wire}
use parlo_plus_plus.ProcessingBuffer.Tracking.{arrived, FitsChunks, rounds}
use parlo_plus_plus.ProcessingBuffer.Stream.{IsComplete, run-IsComplete}
use parlo_plus_plus.ProcessingBuffer.Malformed.{short_header_stalls, empty_packet_terminates}
use parlo_plus_plus.ProcessingBuffer.Validity.{run_delivers_IsTcp}
use parlo_plus_plus.ProcessingBuffer.Reference.{reference, decode, decode_body}
use parlo_plus_plus.ProcessingBuffer.Reference.Settling.{run-reference}

abbrev tcp : ℕ → ℕ → ℕ → List ℕ → Packet
tcp id compressed len bytes = record {
  id = id;
  is_compressed = compressed;
  is_reliable = 0;
  length = len;
  payload = bytes;
  is_udp = false;
}

abbrev two_packets : List Packet
two_packets = tcp 7 0 7 (1 ∷ 2 ∷ 3 ∷ []) ∷ tcp 9 1 5 (4 ∷ []) ∷ []

-- The second header comes in two chunks, and the thread runs in between.
abbrev in_pieces : List Event
in_pieces =
    received (7 ∷ 0 ∷ 7 ∷ [])
    ∷ round
    ∷ received (0 ∷ 1 ∷ 2 ∷ 3 ∷ 9 ∷ 1 ∷ [])
    ∷ round
    ∷ received (5 ∷ 0 ∷ 4 ∷ [])
    ∷ []

two_packets-IsTcp : All IsTcp two_packets
two_packets-IsTcp = (
  record {
    tcp = refl;
    some_data = omega arith;
    counted = refl;
    fits = omega arith;
    flag_bit = omega arith;
    unreliable = refl;
  },
  (
    record {
      tcp = refl;
      some_data = omega arith;
      counted = refl;
      fits = omega arith;
      flag_bit = omega arith;
      unreliable = refl;
    },
    tt,
  ),
)

in_pieces_fit : FitsChunks in_pieces
in_pieces_fit = (omega arith, (omega arith, (omega arith, tt)))

in_pieces-arrived : arrived in_pieces ≡ wire two_packets
unfolding arrived wire build_packet
in_pieces-arrived = refl

in_pieces-run : (run start (in_pieces ++ rounds 2)).delivered ≡ two_packets
unfolding run rounds step set_on_packet_processed_handler body_size tcp_packet
in_pieces-run = refl

run-IsComplete_example : IsComplete two_packets (run start (in_pieces ++ rounds 2))
run-IsComplete_example =
    run-IsComplete two_packets in_pieces two_packets-IsTcp in_pieces_fit in_pieces-arrived

-- Behind the two packets comes a header with the length 3, and later the first packet again.
abbrev later : List Event
later = round ∷ received (7 ∷ 0 ∷ 7 ∷ 0 ∷ 1 ∷ 2 ∷ 3 ∷ []) ∷ round ∷ round ∷ []

later_fits : FitsChunks later
later_fits = (omega arith, tt)

short_header_stalls_example :
    (run start (in_pieces ++ rounds 2 ++ received (5 ∷ 0 ∷ 3 ∷ 0 ∷ 8 ∷ []) ∷ later)).delivered
    ≡ two_packets
short_header_stalls_example =
    short_header_stalls two_packets in_pieces later 5 0 3 (8 ∷ []) two_packets-IsTcp in_pieces_fit
      in_pieces-arrived (omega arith) (omega arith) later_fits (unfold arrived in omega arith)

empty_packet_terminates_example :
    (run start (in_pieces ++ rounds 2 ++ received (5 ∷ 0 ∷ 4 ∷ 0 ∷ 8 ∷ []) ∷ round ∷ [])).terminated
    ≡ true
empty_packet_terminates_example =
    empty_packet_terminates two_packets in_pieces 5 0 (8 ∷ []) two_packets-IsTcp in_pieces_fit
      in_pieces-arrived (omega arith)

run_delivers_IsTcp_example : All IsTcp (run start in_pieces).delivered
run_delivers_IsTcp_example = run_delivers_IsTcp in_pieces (unfold arrived in omega arith)

-- A packet in two chunks, and behind it a header that says there is no data.
abbrev malformed : List Event
malformed = received (7 ∷ 2 ∷ 6 ∷ []) ∷ round ∷ received (0 ∷ 8 ∷ 9 ∷ 5 ∷ 0 ∷ 4 ∷ 0 ∷ []) ∷ []

malformed_fits : FitsChunks malformed
malformed_fits = (omega arith, (omega arith, tt))

malformed-reference : reference (arrived malformed) ≡ (tcp 7 1 6 (8 ∷ 9 ∷ []) ∷ [], true)
unfolding reference arrived decode decode_body
malformed-reference = refl

run-reference_example :
    let t = run start (malformed ++ rounds 10) in
    (t.delivered, t.terminated) ≡ reference (arrived malformed)
run-reference_example =
    run-reference malformed 10 malformed_fits (unfold arrived in omega arith)
      (unfold arrived in omega arith)
