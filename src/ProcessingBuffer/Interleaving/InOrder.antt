-- ===== src/ProcessingBuffer/Interleaving/InOrder.antt =====
-- What the handler of ProcessingBuffer.cpp has been given while the threads interleave.
use parlo_plus_plus.Common.{
  ℕ, ◌≡◌, refl, sym, ap, ◌∙◌, inl, inr, false, List, [], ◌∷◌, ◌++◌, append-nil, append_assoc,
  Option, none, some, All, if◌then◌else◌,
}
use parlo_plus_plus.Packet.{Packet}
use parlo_plus_plus.Packet.Build.{IsTcp}
use parlo_plus_plus.ProcessingBuffer.{
  Buffer, Round, stops, waits, continues, terminates, process_body, hand_over, Event, received,
  round, Thread, run, start, listed,
}
use parlo_plus_plus.ProcessingBuffer.Framing.{wire}
use parlo_plus_plus.ProcessingBuffer.Tracking.{arrived, FitsChunks}
use parlo_plus_plus.ProcessingBuffer.Stream.{run_in_order}
use parlo_plus_plus.ProcessingBuffer.Interleaving.{
  Place, at_loop, locking, checking, blocking, waiting, waking, testing, header, flag_next,
  low_next, high_next, body_due, body, handing, sleeping, finished, died, Machine, Runs, here,
  waited, worked, other, spurious, begins, enters,
}
use parlo_plus_plus.ProcessingBuffer.Interleaving.Atomic.{
  finish, high_rest, low_rest, flag_rest, body_rest, complete, settled,
}
use parlo_plus_plus.ProcessingBuffer.Interleaving.Atomic.Moves.{dead_place}
use parlo_plus_plus.ProcessingBuffer.Interleaving.Atomic.Begins.{blank_told}
use parlo_plus_plus.ProcessingBuffer.Interleaving.Atomic.Orders.{Runs-Follows}

-- The packets of a thread are the given ones and more.
abbrev Extends : List Packet → Thread → Type 0
Extends ps t = (left : List Packet) × (ps ++ left ≡ t.delivered)

finish-Extends : (ps : List Packet) (r : Round) → Extends ps (finish ps r)
unfolding finish
finish-Extends ps stops = ([], append-nil ps)
finish-Extends ps waits = ([], append-nil ps)
finish-Extends ps (continues b p) = (listed p, refl)
finish-Extends ps (terminates e) = ([], append-nil ps)

high_rest-Extends :
    (ps : List Packet) (low : ℕ) (q : List ℕ) (b : Buffer) → Extends ps (high_rest ps low q b)
unfolding high_rest
high_rest-Extends ps low [] b = finish-Extends ps waits
high_rest-Extends ps low (x ∷ xs) b = finish-Extends ps (process_body _)

low_rest-Extends : (ps : List Packet) (q : List ℕ) (b : Buffer) → Extends ps (low_rest ps q b)
unfolding low_rest
low_rest-Extends ps [] b = finish-Extends ps waits
low_rest-Extends ps (x ∷ xs) b = high_rest-Extends ps x xs _

flag_rest-Extends : (ps : List Packet) (q : List ℕ) (b : Buffer) → Extends ps (flag_rest ps q b)
unfolding flag_rest
flag_rest-Extends ps [] b = finish-Extends ps waits
flag_rest-Extends ps (x ∷ xs) b = low_rest-Extends ps xs _

complete-Extends : (p : Place) (t : Thread) → Extends t.delivered (complete p t)
unfolding complete body_rest
complete-Extends header t = finish-Extends t.delivered (process_body _)
complete-Extends flag_next t = flag_rest-Extends t.delivered t.buffer.internal_buffer t.buffer
complete-Extends low_next t = low_rest-Extends t.delivered t.buffer.internal_buffer t.buffer
complete-Extends (high_next low) t =
    high_rest-Extends t.delivered low t.buffer.internal_buffer t.buffer
complete-Extends body_due t = finish-Extends t.delivered (process_body t.buffer)
complete-Extends (body packet_data) t = finish-Extends t.delivered (hand_over _ _)
complete-Extends (handing p) t = (listed (if t.buffer.has_handler then some p else none), refl)
complete-Extends at_loop t = ([], append-nil t.delivered)
complete-Extends locking t = ([], append-nil t.delivered)
complete-Extends checking t = ([], append-nil t.delivered)
complete-Extends blocking t = ([], append-nil t.delivered)
complete-Extends waiting t = ([], append-nil t.delivered)
complete-Extends waking t = ([], append-nil t.delivered)
complete-Extends testing t = ([], append-nil t.delivered)
complete-Extends sleeping t = ([], append-nil t.delivered)
complete-Extends finished t = ([], append-nil t.delivered)
complete-Extends died t = ([], append-nil t.delivered)

settled-Extends :
    (a : Option (List ℕ)) (p : Place) (t : Thread) → Extends t.delivered (settled a p t)
unfolding settled
settled-Extends none p t = complete-Extends p t
settled-Extends (some rest) p t = ([], append-nil t.delivered)

settled_died : (a : Option (List ℕ)) (t : Thread) → (settled a died t).terminated ≡ t.terminated
unfolding settled complete
settled_died none t = refl
settled_died (some rest) t = refl

FitsChunks-append : (es fs : List Event) → FitsChunks es → FitsChunks fs → FitsChunks (es ++ fs)
FitsChunks-append [] fs h k = k
FitsChunks-append (received bytes ∷ es) fs h k = (h.0, FitsChunks-append es fs h.1 k)
FitsChunks-append (round ∷ es) fs h k = FitsChunks-append es fs h k

Runs-FitsChunks : {es : List Event} {m : Machine} → Runs es m → FitsChunks es
Runs-FitsChunks here = tt
Runs-FitsChunks (waited r w) = Runs-FitsChunks r
Runs-FitsChunks (worked r w) = Runs-FitsChunks r
Runs-FitsChunks (other r o) = Runs-FitsChunks r
Runs-FitsChunks (spurious r at) = Runs-FitsChunks r
Runs-FitsChunks (begins {es} r at off) = FitsChunks-append es (round ∷ []) (Runs-FitsChunks r) tt
Runs-FitsChunks (enters {es} bytes r alone free living h) =
    FitsChunks-append es (received bytes ∷ []) (Runs-FitsChunks r) (h, tt)

-- Let well-formed TCP packets be sent one after the other, and let the callers of `addData`, with at
-- most 1024 bytes each, enter with a first part of their bytes. In every interleaving of these callers,
-- the processing thread and the destructor, and at every moment of it, the process has not died, and the
-- packets that the handler was given are a first part of those sent.
pub Runs_in_order :
    {es : List Event} {m : Machine} (ps : List Packet) (future : List ℕ)
    → Runs es m
    → All IsTcp ps
    → arrived es ++ future ≡ wire ps
    → (m.terminated ≡ false) × (left : List Packet) × (m.delivered ++ left ≡ ps)
Runs_in_order {es} {m} ps future r v e =
    let k = Runs-Follows r in
    let (alive, left, whole) = run_in_order ps es future v (Runs-FitsChunks r) e in
    let (delivered, terminated) = blank_told (run start es) in
    let (more, so_far) = settled-Extends m.adder m.place m.thread in
    let survives : m.terminated ≡ false = elim (dead_place m.place) [
      | inl living ↦ k.alive ∙ living
      | inr at ↦
          sym (settled_died m.adder m.thread)
          ∙ ap (λ p. (settled m.adder p m.thread).terminated) (sym at)
          ∙ ap (λ (t : Thread). t.terminated) k.same
          ∙ terminated
          ∙ alive
    ] in
    (
      survives,
      more ++ left,
      sym (append_assoc m.delivered more left)
          ∙ ap (λ ds. ds ++ left) (so_far ∙ ap (λ (t : Thread). t.delivered) k.same ∙ delivered)
          ∙ whole,
    )
