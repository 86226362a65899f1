-- ===== src/ProcessingBuffer/Reference/Bodies.antt =====
-- What a round of ProcessingBuffer.cpp makes of a body, in the four cases of the reference decoder.
use parlo_plus_plus.Common.{
  ℕ, ◌+◌, ◌-◌, ◌^◌, ◌≤◌, ◌<◌, ◌≡◌, refl, Bool, true, false, List, [], ◌∷◌, none, some, ok,
  invalid_argument, length, length-take, take, drop, arith,
}
use parlo_plus_plus.Packet.{Packet, tcp_packet}
use parlo_plus_plus.ProcessingBuffer.{
  Buffer, continues, terminates, body_size, hand_over, take_packet, process_body,
}
use parlo_plus_plus.ProcessingBuffer.Framing.{IsReady}
use parlo_plus_plus.ProcessingBuffer.Reference.{tcp_of}

tcp_packet-tcp_of :
    (id len : ℕ) (compressed : Bool) (bytes : List ℕ)
    → 0 < length bytes
    → len ≡ length bytes + 4
    → len < 65536
    → tcp_packet id bytes compressed ≡ ok (tcp_of id compressed len bytes)
unfolding tcp_packet
tcp_packet-tcp_of id len compressed [] h k l = absurd (omega arith)
tcp_packet-tcp_of id len compressed (x ∷ xs) h k l = ground arith

module _ (b : Buffer) (has : b.has_read_header ≡ true) where
  pub process_body_stuck :
      b.current_length < 4
      → length b.internal_buffer < 2 ^ 64 - 4
      → process_body b ≡ continues b none
  unfolding process_body body_size
  process_body_stuck h k = ground arith

  pub process_body_empty : b.current_length ≡ 4 → process_body b ≡ terminates invalid_argument
  unfolding process_body body_size take_packet hand_over tcp_packet
  process_body_empty h = ground arith

  body_size-length :
      4 ≤ b.current_length → b.current_length < 65536 → body_size b ≡ b.current_length - 4
  unfolding body_size
  body_size-length h k = omega arith

  pub process_body_missing :
      4 < b.current_length
      → b.current_length < 65536
      → length b.internal_buffer < b.current_length - 4
      → process_body b ≡ continues b none
  unfolding process_body
  process_body_missing h k l = let size = body_size-length (omega arith) k in ground arith

  -- The buffer behind the body.
  abbrev pub behind : Buffer
  behind = record b {
    internal_buffer = drop (b.current_length - 4) b.internal_buffer;
    has_read_header = false;
  }

  abbrev pub taken : Packet
  taken =
      tcp_of b.current_id b.is_compressed b.current_length
        (take (b.current_length - 4) b.internal_buffer)

  take_packet_whole :
      IsReady b
      → 4 < b.current_length
      → b.current_length < 65536
      → b.current_length - 4 ≤ length b.internal_buffer
      → take_packet b ≡ continues behind (some taken)
  unfolding take_packet
  take_packet_whole r h k l =
      let size = body_size-length (omega arith) k in
      let much = length-take (b.current_length - 4) b.internal_buffer in
      let made =
        tcp_packet-tcp_of b.current_id b.current_length b.is_compressed
          (take (b.current_length - 4) b.internal_buffer) (omega (arith, much))
          (omega (arith, much)) k in
      rw (size, made) (unfold hand_over in rw r.handled refl)

  pub process_body-taken :
      IsReady b
      → 4 < b.current_length
      → b.current_length < 65536
      → b.current_length - 4 ≤ length b.internal_buffer
      → process_body b ≡ continues behind (some taken)
  unfolding process_body
  process_body-taken r h k l =
      let size = body_size-length (omega arith) k in
      let whole = take_packet_whole r h k l in ground (arith, size, whole)
