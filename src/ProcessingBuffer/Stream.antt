-- ===== src/ProcessingBuffer/Stream.antt =====
-- Whole runs of ProcessingBuffer.cpp: any chunks, any interleaving with the processing thread.
use parlo_plus_plus.Common.{
  ℕ, zero, suc, ◌≤◌, ◌≡◌, refl, sym, ap, ◌∙◌, inl, inr, false, List, [], ◌∷◌, ◌++◌, append_assoc,
  append-nil, length, All, arith, length-append,
}
use parlo_plus_plus.Packet.{Packet}
use parlo_plus_plus.Packet.Build.{IsTcp}
use parlo_plus_plus.ProcessingBuffer.{
  Event, received, round, Thread, step, run, start, set_on_packet_processed_handler,
}
use parlo_plus_plus.ProcessingBuffer.Framing.{wire, IsReady, IsFramed}
use parlo_plus_plus.ProcessingBuffer.Tracking.{
  arrived, FitsChunks, rounds, Tracks, step_received-Tracks, rest_of, step_round-Tracks,
}

-- After any events whose bytes are the next ones of the stream.
run-Tracks :
    (es : List Event) (ps left : List Packet) (future : List ℕ) (t : Thread)
    → FitsChunks es
    → Tracks ps left (arrived es ++ future) t
    → (left' : List Packet) × Tracks ps left' future (run t es)
unfolding run arrived
run-Tracks [] ps left future t h k = (left, k)
run-Tracks (received bytes ∷ es) ps left future t h k =
    run-Tracks es ps left future (step t (received bytes)) h.1 (
      step_received-Tracks ps left bytes (arrived es ++ future) t h.0
        (rw (append_assoc bytes (arrived es) future) at k))
run-Tracks (round ∷ es) ps left future t h k =
    let (left', k', _) = step_round-Tracks ps left (arrived es ++ future) t k in
    run-Tracks es ps left' future (step t round) h k'

-- Once all bytes have arrived, as many rounds as packets are left hand all of them over.
rounds-Tracks :
    (n : ℕ) (ps left : List Packet) (t : Thread)
    → length left ≤ n
    → Tracks ps left [] t
    → Tracks ps [] [] (run t (rounds n))
unfolding run rounds
rounds-Tracks zero ps [] t h k = k
rounds-Tracks zero ps (p ∷ left) t h k = absurd (omega arith)
rounds-Tracks (suc n) ps left t h k =
    let (left', k', next) = step_round-Tracks ps left [] t k in
    rounds-Tracks n ps left' (step t round) (rw (next refl) (shorter left h)) k'
  where
    shorter : (l : List Packet) → length l ≤ suc n → length (rest_of l) ≤ n
    shorter [] h = omega arith
    shorter (p ∷ l) h = omega arith

start-Tracks :
    (ps : List Packet) (bytes : List ℕ) → All IsTcp ps → bytes ≡ wire ps → Tracks ps ps bytes start
unfolding set_on_packet_processed_handler
start-Tracks ps bytes v e = record {
  alive = refl;
  ready = record { running = refl; handled = refl };
  well_formed = v;
  in_order = refl;
  framed = inl (refl, e);
}

-- Let well-formed TCP packets be sent one after the other, and let any first part of their bytes
-- arrive, cut into chunks of at most 1024 bytes in any way, with rounds of the processing thread
-- anywhere in between. Then the thread is alive, and the packets that the handler was given are a
-- first part of those sent: none is changed, lost, doubled or out of order.
pub run_in_order :
    (ps : List Packet) (es : List Event) (future : List ℕ)
    → All IsTcp ps
    → FitsChunks es
    → arrived es ++ future ≡ wire ps
    → ((run start es).terminated ≡ false)
      × (left : List Packet) × ((run start es).delivered ++ left ≡ ps)
run_in_order ps es future v h e =
    let (left, k) = run-Tracks es ps ps future start h (start-Tracks ps _ v e) in
    (k.alive, left, k.in_order)

pub run-append : (t : Thread) (es fs : List Event) → run t (es ++ fs) ≡ run (run t es) fs
unfolding run
run-append t [] fs = refl
run-append t (e ∷ es) fs = run-append (step t e) es fs

abbrev pub IsComplete : List Packet → Thread → Type 0
IsComplete ps t =
    (t.delivered ≡ ps)
    × (t.terminated ≡ false)
    × (t.buffer.internal_buffer ≡ [])
    × (t.buffer.has_read_header ≡ false)
    × IsReady t.buffer

Tracks-IsComplete : (ps : List Packet) (t : Thread) → Tracks ps [] [] t → IsComplete ps t
unfolding wire
Tracks-IsComplete ps t k = finish k.framed
  where
    finish : IsFramed t.buffer [] [] → IsComplete ps t
    finish (inl (off, e)) = (
      sym (append-nil t.delivered) ∙ k.in_order,
      k.alive,
      sym (append-nil t.buffer.internal_buffer) ∙ e,
      off,
      k.ready,
    )
    finish (inr (p, rest, at, _, _)) = absurd (omega (arith, ap length at))

-- Let well-formed TCP packets be sent one after the other. Once all their bytes have arrived, in any
-- chunks of at most 1024 bytes and with any rounds in between, as many further rounds as there are
-- packets give the handler exactly the packets that were sent, in order; the thread is then alive,
-- and the buffer is empty and stands before a header.
pub run-IsComplete :
    (ps : List Packet) (es : List Event)
    → All IsTcp ps
    → FitsChunks es
    → arrived es ≡ wire ps
    → IsComplete ps (run start (es ++ rounds (length ps)))
run-IsComplete ps es v h e =
    let (left, k) =
      run-Tracks es ps ps [] start h (start-Tracks ps _ v (append-nil (arrived es) ∙ e)) in
    let short : length left ≤ length ps =
      omega (arith, ap length k.in_order, length-append (run start es).delivered left) in
    rw (run-append start es (rounds (length ps)))
      (Tracks-IsComplete ps _ (rounds-Tracks (length ps) ps left (run start es) short k))
