-- ===== src/ProcessingBuffer/Interleaving/Atomic.antt =====
-- Every interleaving of the threads of ProcessingBuffer.cpp does what atomic rounds and atomic calls of
-- `add_data` do.
pub mod Works
pub mod Refines
pub mod Moves
pub mod Begins
pub mod Orders
use parlo_plus_plus.Common.{
  ℕ, ◌+◌, ◌-◌, ◌≤◌, ◌≡◌, refl, sym, ap, ◌∙◌, Bool, true, false, not, List, [], ◌∷◌, ◌++◌,
  append-nil, append_assoc, Option, none, some, if◌then◌else◌, ◌==◌, length, take, drop, arith,
}
use parlo_plus_plus.Packet.{Packet, tcp_packet}
use parlo_plus_plus.Packet.Build.{joined}
use parlo_plus_plus.ProcessingBuffer.{
  Buffer, new_buffer, Round, stops, waits, continues, terminates, body_size, read_header, hand_over,
  process_body, header_due, Thread, listed,
}
use parlo_plus_plus.ProcessingBuffer.Interleaving.{
  Place, header, flag_next, low_next, high_next, body_due, body, handing, died,
}

-- The buffer of a process that has ended says nothing.
unfoldable pub blank : Thread → Thread
blank t = if t.terminated then record t { buffer = new_buffer } else t

-- What is left behind a round, of which the packets handed over so far are known.
unfoldable pub finish : List Packet → Round → Thread
finish ps stops = record { buffer = new_buffer; delivered = ps; terminated = false }
finish ps waits = record { buffer = new_buffer; delivered = ps; terminated = false }
finish ps (continues b p) = record { buffer = b; delivered = ps ++ listed p; terminated = false }
finish ps (terminates e) = record { buffer = new_buffer; delivered = ps; terminated = true }

-- The rest of a round from each place in `read_header`, on the bytes in the queue.
unfoldable pub high_rest : List Packet → ℕ → List ℕ → Buffer → Thread
unfolding finish
high_rest ps low [] b = finish ps waits
high_rest ps low (x ∷ xs) b = finish ps (
    process_body
      (record b { internal_buffer = xs; current_length = joined low x; has_read_header = true }))

unfoldable pub low_rest : List Packet → List ℕ → Buffer → Thread
unfolding high_rest finish
low_rest ps [] b = finish ps waits
low_rest ps (x ∷ xs) b = high_rest ps x xs (record b { internal_buffer = xs })

unfoldable pub flag_rest : List Packet → List ℕ → Buffer → Thread
unfolding low_rest finish
flag_rest ps [] b = finish ps waits
flag_rest ps (x ∷ xs) b =
    low_rest ps xs (record b { internal_buffer = xs; is_compressed = not (x == 0) })

-- The rest of a round from the loop over the body.
unfoldable pub body_rest : List Packet → List ℕ → Buffer → Thread
unfolding finish
body_rest ps packet_data b =
    let missing = body_size b - length packet_data in
    finish ps (
      hand_over
        (record b { internal_buffer = drop missing b.internal_buffer; has_read_header = false })
        (tcp_packet b.current_id (packet_data ++ take missing b.internal_buffer) b.is_compressed))

-- The thread as it will be at the end of the round that it is in.
unfoldable pub complete : Place → Thread → Thread
unfolding finish high_rest low_rest flag_rest body_rest
complete header t =
    finish t.delivered
      (process_body (if header_due t.buffer then read_header t.buffer else t.buffer))
complete flag_next t = flag_rest t.delivered t.buffer.internal_buffer t.buffer
complete low_next t = low_rest t.delivered t.buffer.internal_buffer t.buffer
complete (high_next low) t = high_rest t.delivered low t.buffer.internal_buffer t.buffer
complete body_due t = finish t.delivered (process_body t.buffer)
complete (body packet_data) t = body_rest t.delivered packet_data t.buffer
complete (handing p) t = record t {
  delivered = t.delivered ++ listed (if t.buffer.has_handler then some p else none);
}
complete died t = record t { buffer = new_buffer }
complete _ t = t

-- The thread as atomic steps leave it: a caller of `add_data` has pushed all of its bytes, and the round
-- under way is over.
unfoldable pub settled : Option (List ℕ) → Place → Thread → Thread
unfolding complete
settled none p t = complete p t
settled (some rest) p t = record t {
  buffer = record t.buffer { internal_buffer = t.buffer.internal_buffer ++ rest };
}
