-- ===== src/ProcessingBuffer/Interleaving/Wakeups.antt =====
-- The condition variable of ProcessingBuffer.cpp: who wakes the processing thread.
use parlo_plus_plus.Common.{
  ℕ, suc, ◌<◌, ◌≡◌, ◌≢◌, refl, sym, ap, ◌∙◌, ◌⊎◌, inl, inr, true, false, List, [], ◌∷◌, none,
  is_empty, arith,
}
use parlo_plus_plus.ProcessingBuffer.{Event}
use parlo_plus_plus.ProcessingBuffer.Interleaving.{
  Place, at_loop, locking, checking, blocking, waiting, waking, testing, header, flag_next,
  low_next, high_next, body_due, body, handing, sleeping, finished, died, holds_mutex, Machine,
  WaitMove, goes_on, leaves, locks, relocks, finds, finds_nothing, blocks, breaks, wakes_up,
  WorkMove, reads_id, no_header, reads_flag, reads_low, reads_high, no_body, starts_body, takes,
  makes, dies, hands, OtherMove, pushes, unlocks, orders, notifies, notifies_nobody, Runs, here,
  waited, worked, other, spurious, begins, enters,
}
use parlo_plus_plus.ProcessingBuffer.Interleaving.Atomic.Refines.{held_alone}
use parlo_plus_plus.ProcessingBuffer.Interleaving.Atomic.Orders.{Runs-Follows}

-- A caller of `add_data` is still to push or to release the mutex, or a notification is still to come.
abbrev pub IsAwaited : Machine → Type 0
IsAwaited m = (m.adder ≢ none) ⊎ (0 < m.notifying)

-- A thread about to block has seen an empty queue, and one that is blocked is going to be notified of
-- what has come since.
pub record Awake (m : Machine) : Type 0 where
  pub quiet : m.place ≡ blocking → is_empty m.buffer.internal_buffer ≡ true
  pub heard : m.place ≡ waiting → is_empty m.buffer.internal_buffer ≡ false → IsAwaited m

-- Elsewhere there is nothing to say.
elsewhere : (m : Machine) (p : Place) → m.place ≡ p → p ≢ blocking → p ≢ waiting → Awake m
elsewhere m p at not_blocking not_waiting = record {
  quiet = λ e. absurd (not_blocking (sym at ∙ e));
  heard = λ e. absurd (not_waiting (sym at ∙ e));
}

WaitMove-Awake : {m n : Machine} → WaitMove m n → Awake m → Awake n
WaitMove-Awake (goes_on m at off) k = elsewhere _ locking refl (λ f. cc (f)) (λ f. cc (f))
WaitMove-Awake (leaves m at on) k = elsewhere _ finished refl (λ f. cc (f)) (λ f. cc (f))
WaitMove-Awake (locks m at free) k = elsewhere _ checking refl (λ f. cc (f)) (λ f. cc (f))
WaitMove-Awake (relocks m at free) k = elsewhere _ checking refl (λ f. cc (f)) (λ f. cc (f))
WaitMove-Awake (finds m at found) k = elsewhere _ testing refl (λ f. cc (f)) (λ f. cc (f))
WaitMove-Awake (finds_nothing m at nothing off) k = record {
  quiet = λ e. nothing;
  heard = λ e. absurd (cc (e));
}
WaitMove-Awake (blocks m at) k = record {
  quiet = λ e. absurd (cc (e));
  heard = λ e f. absurd (cc (k.quiet at, f));
}
WaitMove-Awake (breaks m at on) k = elsewhere _ finished refl (λ f. cc (f)) (λ f. cc (f))
WaitMove-Awake (wakes_up m at) k = elsewhere _ at_loop refl (λ f. cc (f)) (λ f. cc (f))

WorkMove-Awake : {m n : Machine} → WorkMove m n → Awake n
WorkMove-Awake (reads_id m x xs at due e) = elsewhere _ flag_next refl (λ f. cc (f)) (λ f. cc (f))
WorkMove-Awake (no_header m at due) = elsewhere _ body_due refl (λ f. cc (f)) (λ f. cc (f))
WorkMove-Awake (reads_flag m x xs at e) = elsewhere _ low_next refl (λ f. cc (f)) (λ f. cc (f))
WorkMove-Awake (reads_low m x xs at e) = elsewhere _ (high_next x) refl (λ f. cc (f)) (λ f. cc (f))
WorkMove-Awake (reads_high m low x xs at e) = elsewhere _ body_due refl (λ f. cc (f)) (λ f. cc (f))
WorkMove-Awake (no_body m at due) = elsewhere _ sleeping refl (λ f. cc (f)) (λ f. cc (f))
WorkMove-Awake (starts_body m at due) = elsewhere _ (body []) refl (λ f. cc (f)) (λ f. cc (f))
WorkMove-Awake (takes m done x xs at h e) = elsewhere _ (body _) refl (λ f. cc (f)) (λ f. cc (f))
WorkMove-Awake (makes m done p at h e) = elsewhere _ (handing p) refl (λ f. cc (f)) (λ f. cc (f))
WorkMove-Awake (dies m done x at h e) = elsewhere _ died refl (λ f. cc (f)) (λ f. cc (f))
WorkMove-Awake (hands m p at) = elsewhere _ sleeping refl (λ f. cc (f)) (λ f. cc (f))

OtherMove-Awake : {es : List Event} {m n : Machine} → Runs es m → OtherMove m n → Awake m → Awake n
OtherMove-Awake r (pushes m x xs at) k = record {
  quiet = λ e. absurd (cc (((Runs-Follows r).apart (x ∷ xs) at).0, ap holds_mutex e));
  heard = λ e f. inl (λ g. cc (g));
}
OtherMove-Awake r (unlocks m at) k = record { quiet = k.quiet; heard = λ e f. inr (omega arith) }
OtherMove-Awake r (orders m off) k = record { quiet = k.quiet; heard = λ e f. inr (omega arith) }
OtherMove-Awake r (notifies m n some_left at) k =
    elsewhere _ waking refl (λ f. cc (f)) (λ f. cc (f))
OtherMove-Awake r (notifies_nobody m n some_left away) k = record {
  quiet = k.quiet;
  heard = λ e. absurd (away e);
}

pub Runs-Awake : {es : List Event} {m : Machine} → Runs es m → Awake m
Runs-Awake here = elsewhere _ at_loop refl (λ f. cc (f)) (λ f. cc (f))
Runs-Awake (waited r w) = WaitMove-Awake w (Runs-Awake r)
Runs-Awake (worked r w) = WorkMove-Awake w
Runs-Awake (other r o) = OtherMove-Awake r o (Runs-Awake r)
Runs-Awake (spurious r at) = elsewhere _ waking refl (λ f. cc (f)) (λ f. cc (f))
Runs-Awake (begins r at off) = elsewhere _ header refl (λ f. cc (f)) (λ f. cc (f))
Runs-Awake (enters bytes r alone free living h) =
    let k = Runs-Awake r in record { quiet = k.quiet; heard = λ e f. inl (λ g. cc (g)) }

-- No byte is slept over, in any interleaving: while the processing thread is blocked with bytes in the
-- queue, a caller of `addData` is still to push or to release the mutex, or a notification is still to
-- come; and a notification that comes while the thread is blocked wakes it.
pub Runs-IsAwaited :
    {es : List Event} {m : Machine}
    → Runs es m
    → m.place ≡ waiting
    → is_empty m.buffer.internal_buffer ≡ false
    → IsAwaited m
      × ((n : ℕ) → m.notifying ≡ suc n → OtherMove m (record m { place = waking; notifying = n }))
Runs-IsAwaited {es} {m} r at some_bytes =
    ((Runs-Awake r).heard at some_bytes, λ n e. notifies m n e at)

-- Nothing is going to happen but a wake-up with no notification or a new call of `add_data`.
pub record IsStuck (m : Machine) : Type 0 where
  pub still : (n : Machine) → ¬ WaitMove m n
  pub idle : (n : Machine) → ¬ WorkMove m n
  pub left_alone : (n : Machine) → ¬ OtherMove m n

blocked : {m n : Machine} → m.place ≡ waiting → ¬ WaitMove m n
blocked at (goes_on m at' off) = cc (at, at')
blocked at (leaves m at' on) = cc (at, at')
blocked at (locks m at' free) = cc (at, at')
blocked at (relocks m at' free) = cc (at, at')
blocked at (finds m at' found) = cc (at, at')
blocked at (finds_nothing m at' nothing off) = cc (at, at')
blocked at (blocks m at') = cc (at, at')
blocked at (breaks m at' on) = cc (at, at')
blocked at (wakes_up m at') = cc (at, at')

out_of_work : {m n : Machine} → m.place ≡ waiting → ¬ WorkMove m n
out_of_work at (reads_id m x xs at' due e) = cc (at, at')
out_of_work at (no_header m at' due) = cc (at, at')
out_of_work at (reads_flag m x xs at' e) = cc (at, at')
out_of_work at (reads_low m x xs at' e) = cc (at, at')
out_of_work at (reads_high m low x xs at' e) = cc (at, at')
out_of_work at (no_body m at' due) = cc (at, at')
out_of_work at (starts_body m at' due) = cc (at, at')
out_of_work at (takes m done x xs at' h e) = cc (at, at')
out_of_work at (makes m done p at' h e) = cc (at, at')
out_of_work at (dies m done x at' h e) = cc (at, at')
out_of_work at (hands m p at') = cc (at, at')

alone : {m n : Machine} → m.adder ≡ none → m.stop ≡ true → m.notifying ≡ 0 → ¬ OtherMove m n
alone free on none_left (pushes m x xs e) = cc (free, e)
alone free on none_left (unlocks m e) = cc (free, e)
alone free on none_left (orders m off) = cc (on, off)
alone free on none_left (notifies m n e at) = absurd (omega (arith, none_left, e))
alone free on none_left (notifies_nobody m n e away) = absurd (omega (arith, none_left, e))

-- The destructor of ProcessingBuffer sets `stopProcessing` and notifies without the mutex. Whenever the
-- processing thread has found the queue empty and is about to block, and no notification is pending,
-- the destructor's can come in between and reach nobody: the thread then stays blocked although it is
-- told to stop, and no step but a wake-up with no notification or a new call of `addData` is left.
pub Runs-IsStuck :
    {es : List Event} {m : Machine}
    → Runs es m
    → m.place ≡ blocking
    → m.stop ≡ false
    → m.notifying ≡ 0
    → (n : Machine) × Runs es n × (n.place ≡ waiting) × (n.stop ≡ true) × IsStuck n
Runs-IsStuck {es} {m} r at off none_left =
    let free = held_alone m (Runs-Follows r) (ap holds_mutex at) in
    let ordered = other r (orders m off) in
    let lost = other ordered (notifies_nobody _ m.notifying (omega arith) (λ e. cc (at, e))) in
    (
      _,
      waited lost (blocks _ at),
      refl,
      refl,
      record {
        still = λ n w. blocked refl w;
        idle = λ n w. out_of_work refl w;
        left_alone = λ n o. alone free refl none_left o;
      },
    )
