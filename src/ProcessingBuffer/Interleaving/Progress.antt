-- ===== src/ProcessingBuffer/Interleaving/Progress.antt =====
-- The processing thread of ProcessingBuffer.cpp at work on a packet: `front` and `pop` on the queue.
use parlo_plus_plus.Common.{
  ℕ, ◌+◌, ◌≤◌, ◌<◌, ◌≡◌, refl, ap, subst, inl, inr, true, false, List, [], ◌∷◌, none, Result, ok,
  throws, ◌&&◌, leb, length, length-append, Bool-cases, arith,
}
use parlo_plus_plus.Packet.{Packet, tcp_packet}
use parlo_plus_plus.ProcessingBuffer.{Buffer, body_size, header_due, Event}
use parlo_plus_plus.ProcessingBuffer.Interleaving.{
  Place, at_loop, locking, checking, blocking, waiting, waking, testing, header, flag_next,
  low_next, high_next, body_due, body, handing, sleeping, finished, died, holds_mutex, Machine,
  WaitMove, goes_on, leaves, locks, relocks, finds, finds_nothing, blocks, breaks, wakes_up,
  WorkMove, reads_id, no_header, reads_flag, reads_low, reads_high, no_body, starts_body, takes,
  makes, dies, hands, pushes, unlocks, orders, notifies, notifies_nobody, Runs, here, waited,
  worked, other, spurious, begins, enters,
}
use parlo_plus_plus.ProcessingBuffer.Interleaving.Atomic.Refines.{held_alone}
use parlo_plus_plus.ProcessingBuffer.Interleaving.Atomic.Orders.{Runs-Follows}

-- The bytes that the rest of a header or a body takes are in the queue.
abbrev Supplied : Place → Buffer → Type 0
Supplied flag_next b = 3 ≤ length b.internal_buffer
Supplied low_next b = 2 ≤ length b.internal_buffer
Supplied (high_next low) b = 1 ≤ length b.internal_buffer
Supplied (body packet_data) b = body_size b ≤ length packet_data + length b.internal_buffer
Supplied _ b = Unit {0}

Supplied-at :
    (m : Machine) (p : Place) → m.place ≡ p → Supplied m.place m.buffer → Supplied p m.buffer
Supplied-at m p at k = subst (λ r. Supplied r m.buffer) at k

WorkMove-Supplied :
    {m n : Machine} → WorkMove m n → Supplied m.place m.buffer → Supplied n.place n.buffer
unfolding body_size
WorkMove-Supplied (reads_id m x xs at due e) k = ground (arith, ap length e)
WorkMove-Supplied (no_header m at due) k = tt
WorkMove-Supplied (reads_flag m x xs at e) k =
    omega (arith, Supplied-at m flag_next at k, ap length e)
WorkMove-Supplied (reads_low m x xs at e) k =
    omega (arith, Supplied-at m low_next at k, ap length e)
WorkMove-Supplied (reads_high m low x xs at e) k = tt
WorkMove-Supplied (no_body m at due) k = tt
WorkMove-Supplied (starts_body m at due) k = ground arith
WorkMove-Supplied (takes m done x xs at h e) k =
    omega (arith, Supplied-at m (body done) at k, ap length e, length-append done (x ∷ []))
WorkMove-Supplied (makes m done p at h e) k = tt
WorkMove-Supplied (dies m done x at h e) k = tt
WorkMove-Supplied (hands m p at) k = tt

WaitMove-Supplied : {m n : Machine} → WaitMove m n → Supplied n.place n.buffer
WaitMove-Supplied (goes_on m at off) = tt
WaitMove-Supplied (leaves m at on) = tt
WaitMove-Supplied (locks m at free) = tt
WaitMove-Supplied (relocks m at free) = tt
WaitMove-Supplied (finds m at found) = tt
WaitMove-Supplied (finds_nothing m at nothing off) = tt
WaitMove-Supplied (blocks m at) = tt
WaitMove-Supplied (breaks m at on) = tt
WaitMove-Supplied (wakes_up m at) = tt

-- Without the mutex, no byte is awaited.
free_Supplied : (p : Place) (b : Buffer) → holds_mutex p ≡ false → Supplied p b
free_Supplied flag_next b h = cc (h)
free_Supplied low_next b h = cc (h)
free_Supplied (high_next low) b h = cc (h)
free_Supplied (body packet_data) b h = cc (h)
free_Supplied _ b h = tt

Runs-Supplied : {es : List Event} {m : Machine} → Runs es m → Supplied m.place m.buffer
Runs-Supplied here = tt
Runs-Supplied (waited r w) = WaitMove-Supplied w
Runs-Supplied (worked r w) = WorkMove-Supplied w (Runs-Supplied r)
Runs-Supplied (other r (pushes m x xs at)) =
    let k = Runs-Follows r in free_Supplied m.place _ (k.apart (x ∷ xs) at).0
Runs-Supplied (other r (unlocks m at)) = Runs-Supplied r
Runs-Supplied (other r (orders m off)) = Runs-Supplied r
Runs-Supplied (other r (notifies m n e at)) = tt
Runs-Supplied (other r (notifies_nobody m n e away)) = Runs-Supplied r
Runs-Supplied (spurious r at) = tt
Runs-Supplied (begins r at off) = tt
Runs-Supplied (enters bytes r alone free living h) = Runs-Supplied r

-- The steps that a place is away from the end of its round, on an empty queue.
unfoldable pub steps_left : Place → ℕ
steps_left header = 7
steps_left flag_next = 6
steps_left low_next = 5
steps_left (high_next low) = 4
steps_left body_due = 3
steps_left (body packet_data) = 2
steps_left (handing p) = 1
steps_left _ = 0

WorkMove-steps_left :
    {m n : Machine}
    → WorkMove m n
    → steps_left n.place + length n.buffer.internal_buffer
      < steps_left m.place + length m.buffer.internal_buffer
unfolding steps_left
WorkMove-steps_left (reads_id m x xs at due e) = omega (arith, ap steps_left at, ap length e)
WorkMove-steps_left (no_header m at due) = omega (arith, ap steps_left at)
WorkMove-steps_left (reads_flag m x xs at e) = omega (arith, ap steps_left at, ap length e)
WorkMove-steps_left (reads_low m x xs at e) = omega (arith, ap steps_left at, ap length e)
WorkMove-steps_left (reads_high m low x xs at e) = omega (arith, ap steps_left at, ap length e)
WorkMove-steps_left (no_body m at due) = omega (arith, ap steps_left at)
WorkMove-steps_left (starts_body m at due) = omega (arith, ap steps_left at)
WorkMove-steps_left (takes m done x xs at h e) = omega (arith, ap steps_left at, ap length e)
WorkMove-steps_left (makes m done p at h e) = omega (arith, ap steps_left at)
WorkMove-steps_left (dies m done x at h e) = omega (arith, ap steps_left at)
WorkMove-steps_left (hands m p at) = omega (arith, ap steps_left at)

-- A queue that holds a byte has a front.
uncons : (q : List ℕ) → 0 < length q → (x : ℕ) × (xs : List ℕ) × (q ≡ x ∷ xs)
uncons [] h = absurd (omega (arith, h))
uncons (x ∷ xs) h = (x, xs, refl)

-- A step of work is possible at every place of a round.
can_work :
    (m : Machine) (p : Place)
    → m.place ≡ p
    → 0 < steps_left p
    → Supplied p m.buffer
    → (n : Machine) × WorkMove m n
unfolding steps_left
can_work m header at h k = elim (Bool-cases (header_due m.buffer)) [
  | inl due ↦
      let (x, xs, e) = uncons m.buffer.internal_buffer (ground arith) in
      (_, reads_id m x xs at due e)
  | inr due ↦ (_, no_header m at due)
]
can_work m flag_next at h k =
    let (x, xs, e) = uncons m.buffer.internal_buffer (omega (arith, k)) in
    (_, reads_flag m x xs at e)
can_work m low_next at h k =
    let (x, xs, e) = uncons m.buffer.internal_buffer (omega (arith, k)) in
    (_, reads_low m x xs at e)
can_work m (high_next low) at h k =
    let (x, xs, e) = uncons m.buffer.internal_buffer (omega (arith, k)) in
    (_, reads_high m low x xs at e)
can_work m body_due at h k =
    elim (Bool-cases
      (m.buffer.has_read_header && leb (body_size m.buffer) (length m.buffer.internal_buffer))) [
        | inl due ↦ (_, starts_body m at due)
        | inr due ↦ (_, no_body m at due)
      ]
can_work m (body done) at h k = elim (Bool-cases (leb (body_size m.buffer) (length done))) [
  | inl full ↦
      made (tcp_packet m.buffer.current_id done m.buffer.is_compressed) refl (ground (arith, full))
  | inr more ↦
      let (x, xs, e) = uncons m.buffer.internal_buffer (ground (arith, k, more)) in
      (_, takes m done x xs at (ground (arith, more)) e)
]
  where
    made :
        (r : Result Packet)
        → tcp_packet m.buffer.current_id done m.buffer.is_compressed ≡ r
        → body_size m.buffer ≤ length done
        → (n : Machine) × WorkMove m n
    made (ok p) e full = (_, makes m done p at full e)
    made (throws x) e full = (_, dies m done x at full e)
can_work m (handing p) at h k = (_, hands m p at)
can_work m at_loop at h k = absurd (omega (arith, h))
can_work m locking at h k = absurd (omega (arith, h))
can_work m checking at h k = absurd (omega (arith, h))
can_work m blocking at h k = absurd (omega (arith, h))
can_work m waiting at h k = absurd (omega (arith, h))
can_work m waking at h k = absurd (omega (arith, h))
can_work m testing at h k = absurd (omega (arith, h))
can_work m sleeping at h k = absurd (omega (arith, h))
can_work m finished at h k = absurd (omega (arith, h))
can_work m died at h k = absurd (omega (arith, h))

held_at_work : (p : Place) → 0 < steps_left p → holds_mutex p ≡ true
unfolding steps_left
held_at_work header h = refl
held_at_work flag_next h = refl
held_at_work low_next h = refl
held_at_work (high_next low) h = refl
held_at_work body_due h = refl
held_at_work (body done) h = refl
held_at_work (handing p) h = refl
held_at_work _ h = absurd (omega (arith, h))

-- In every interleaving, a processing thread that is inside a round has a next step: whenever it takes
-- the front of the queue, for the header or for the body, the queue holds a byte. Each such step
-- brings it nearer to the end of the round, which comes after at most seven steps more than the
-- queue holds bytes. Until then nobody else holds the mutex.
pub Runs-WorkMove :
    {es : List Event} {m : Machine}
    → Runs es m
    → 0 < steps_left m.place
    → ((n : Machine) × WorkMove m n)
      × ((n : Machine)
          → WorkMove m n
          → steps_left n.place + length n.buffer.internal_buffer
            < steps_left m.place + length m.buffer.internal_buffer)
      × (m.adder ≡ none)
Runs-WorkMove {es} {m} r h = (
  can_work m m.place refl h (Runs-Supplied r),
  λ n w. WorkMove-steps_left w,
  held_alone m (Runs-Follows r) (held_at_work m.place h),
)
