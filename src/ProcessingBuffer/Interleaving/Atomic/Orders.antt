-- ===== src/ProcessingBuffer/Interleaving/Atomic/Orders.antt =====
-- Whole runs of the interleaved threads of ProcessingBuffer.cpp beside atomic steps.
use parlo_plus_plus.Common.{◌≡◌, refl, sym, ap, ◌∙◌, false, List, none}
use parlo_plus_plus.ProcessingBuffer.{Event, Thread, run, start, set_on_packet_processed_handler}
use parlo_plus_plus.ProcessingBuffer.Interleaving.{
  holds_mutex, Machine, Runs, here, waited, worked, other, spurious, begins, enters,
}
use parlo_plus_plus.ProcessingBuffer.Interleaving.Atomic.{blank, complete, settled}
use parlo_plus_plus.ProcessingBuffer.Interleaving.Atomic.Refines.{
  Follows, settled_alone, WorkMove-Follows,
}
use parlo_plus_plus.ProcessingBuffer.Interleaving.Atomic.Moves.{
  WaitMove-Follows, spurious-Follows, complete_quiet, complete_told, OtherMove-Follows,
}
use parlo_plus_plus.ProcessingBuffer.Interleaving.Atomic.Begins.{
  begins-Follows, enters-Follows, blank-cancel, blank_told,
}

pub Runs-Follows : {es : List Event} {m : Machine} → Runs es m → Follows es m
Runs-Follows here = record {
  same = unfold settled in unfold complete in unfold blank in unfold run in refl;
  apart = λ rest e. absurd (cc (e));
  alive = refl;
  ready = λ e. absurd (cc (e));
  unstopped = unfold set_on_packet_processed_handler in refl;
}
Runs-Follows (waited r w) = WaitMove-Follows w (Runs-Follows r)
Runs-Follows (worked r w) = WorkMove-Follows w (Runs-Follows r)
Runs-Follows (other r o) = OtherMove-Follows o (Runs-Follows r)
Runs-Follows (spurious r at) = spurious-Follows _ at (Runs-Follows r)
Runs-Follows (begins r at off) = begins-Follows _ at off (Runs-Follows r)
Runs-Follows (enters bytes r alone free living h) =
    enters-Follows _ bytes alone free living h (Runs-Follows r)

-- Let the processing thread, callers of `addData` with at most 1024 bytes each, and the destructor
-- interleave at every test, every byte and every operation on the mutex and the condition variable.
-- Whenever nobody holds the mutex, what the handler was given, whether the process has died, and, if
-- not, the whole buffer are what atomic rounds and atomic calls of `addData` lead to, one after the
-- other in the order in which the threads got the mutex.
pub Runs-run :
    {es : List Event} {m : Machine}
    → Runs es m
    → holds_mutex m.place ≡ false
    → m.adder ≡ none
    → (m.delivered ≡ (run start es).delivered)
      × (m.terminated ≡ (run start es).terminated)
      × (m.terminated ≡ false → m.buffer ≡ (run start es).buffer)
Runs-run {es} {m} r free alone =
    let k = Runs-Follows r in
    let same = sym (settled_alone m.adder m.place m.thread alone) ∙ k.same in
    let (delivered, terminated) = blank_told (run start es) in
    let (d, t) = complete_told m.place m.thread free in
    let left =
      λ (f : m.terminated ≡ false). complete_quiet m.place m.thread free (sym k.alive ∙ f) in
    (
      sym d ∙ ap (λ (r : Thread). r.delivered) same ∙ delivered,
      sym t ∙ ap (λ (r : Thread). r.terminated) same ∙ terminated,
      λ f.
          ap (λ (r : Thread). r.buffer)
            (blank-cancel m.thread (run start es) f (sym (left f) ∙ same)),
    )
