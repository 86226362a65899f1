-- ===== src/ProcessingBuffer/Interleaving/Rounds.antt =====
-- From where the processing thread of ProcessingBuffer.cpp can come to its next round.
use parlo_plus_plus.Common.{
  ℕ, zero, suc, ◌≡◌, ◌≢◌, refl, inl, inr, false, List, [], ◌∷◌, ◌++◌, none, is_empty, arith,
}
use parlo_plus_plus.ProcessingBuffer.{Event, round}
use parlo_plus_plus.ProcessingBuffer.Interleaving.{
  Place, at_loop, locking, checking, blocking, waiting, waking, testing, header, flag_next,
  low_next, high_next, body_due, body, handing, sleeping, finished, died, is_dead, Machine,
  WaitMove, goes_on, locks, relocks, finds, wakes_up, notifies, Runs, waited, other, begins,
}
use parlo_plus_plus.ProcessingBuffer.Interleaving.Progress.{steps_left}
use parlo_plus_plus.ProcessingBuffer.Interleaving.Wakeups.{Runs-Awake}

-- The way of the processing thread from one machine to the beginning of its next round: steps of its own,
-- and notifications that are pending already, which wake it where it is blocked. There is no wake-up without
-- a notification on it.
pub data Begins : Machine → Machine → Type 0 where
  begins_now :
      (m : Machine) → m.place ≡ testing → m.stop ≡ false → Begins m (record m { place = header })
  own_step : {m n o : Machine} → WaitMove m n → Begins n o → Begins m o
  notified :
      {o : Machine} (m : Machine) (n : ℕ)
      → m.notifying ≡ suc n
      → m.place ≡ waiting
      → Begins (record m { place = waking; notifying = n }) o
      → Begins m o

-- Such a way is part of a run.
Begins-Runs :
    {es : List Event} {m n : Machine} → Begins m n → Runs es m → Runs (es ++ (round ∷ [])) n
Begins-Runs (begins_now m at off) r = begins r at off
Begins-Runs (own_step w b) r = Begins-Runs b (waited r w)
Begins-Runs (notified m n e at b) r = Begins-Runs b (other r (notifies m n e at))

-- A round begins next, on the same bytes.
abbrev pub BeginsRound : Machine → Type 0
BeginsRound m = (n : Machine) × Begins m n × (n.place ≡ header) × (n.thread ≡ m.thread)

from_testing : (m : Machine) → m.place ≡ testing → m.stop ≡ false → BeginsRound m
from_testing m at off = (_, begins_now m at off, refl, refl)

from_checking :
    (m : Machine)
    → m.place ≡ checking
    → m.stop ≡ false
    → is_empty m.buffer.internal_buffer ≡ false
    → BeginsRound m
from_checking m at off some_bytes =
    let w = finds m at (inl some_bytes) in
    let (n, b, there, same) = from_testing (record m { place = testing }) refl off in
    (n, own_step w b, there, same)

from_locking :
    (m : Machine)
    → m.place ≡ locking
    → m.stop ≡ false
    → is_empty m.buffer.internal_buffer ≡ false
    → m.adder ≡ none
    → BeginsRound m
from_locking m at off some_bytes free =
    let (n, b, there, same) = from_checking (record m { place = checking }) refl off some_bytes in
    (n, own_step (locks m at free) b, there, same)

from_waking :
    (m : Machine)
    → m.place ≡ waking
    → m.stop ≡ false
    → is_empty m.buffer.internal_buffer ≡ false
    → m.adder ≡ none
    → BeginsRound m
from_waking m at off some_bytes free =
    let (n, b, there, same) = from_checking (record m { place = checking }) refl off some_bytes in
    (n, own_step (relocks m at free) b, there, same)

from_waiting :
    {es : List Event} (m : Machine) (k : ℕ)
    → m.notifying ≡ k
    → Runs es m
    → m.place ≡ waiting
    → m.stop ≡ false
    → is_empty m.buffer.internal_buffer ≡ false
    → m.adder ≡ none
    → BeginsRound m
from_waiting m zero e r at off some_bytes free = elim ((Runs-Awake r).heard at some_bytes) [
  | inl held ↦ absurd (held free)
  | inr pending ↦ absurd (omega (arith, e, pending))
]
from_waiting m (suc k) e r at off some_bytes free =
    let (n, b, there, same) =
      from_waking (record m { place = waking; notifying = k }) refl off some_bytes free in
    (n, notified m k e at b, there, same)

from_at_loop :
    (m : Machine)
    → m.place ≡ at_loop
    → m.stop ≡ false
    → is_empty m.buffer.internal_buffer ≡ false
    → m.adder ≡ none
    → BeginsRound m
from_at_loop m at off some_bytes free =
    let (n, b, there, same) =
      from_locking (record m { place = locking }) refl off some_bytes free in
    (n, own_step (goes_on m at off) b, there, same)

from_place :
    {es : List Event} (m : Machine) (p : Place)
    → m.place ≡ p
    → Runs es m
    → steps_left p ≡ 0
    → is_dead p ≡ false
    → p ≢ finished
    → m.stop ≡ false
    → is_empty m.buffer.internal_buffer ≡ false
    → m.adder ≡ none
    → BeginsRound m
unfolding steps_left
from_place m at_loop at r w l f off some_bytes free = from_at_loop m at off some_bytes free
from_place m locking at r w l f off some_bytes free = from_locking m at off some_bytes free
from_place m checking at r w l f off some_bytes free = from_checking m at off some_bytes
from_place m blocking at r w l f off some_bytes free =
    absurd (cc ((Runs-Awake r).quiet at, some_bytes))
from_place m waiting at r w l f off some_bytes free =
    from_waiting m m.notifying refl r at off some_bytes free
from_place m waking at r w l f off some_bytes free = from_waking m at off some_bytes free
from_place m testing at r w l f off some_bytes free = from_testing m at off
from_place m sleeping at r w l f off some_bytes free =
    let (n, b, there, same) =
      from_at_loop (record m { place = at_loop }) refl off some_bytes free in
    (n, own_step (wakes_up m at) b, there, same)
from_place m finished at r w l f off some_bytes free = absurd (f refl)
from_place m died at r w l f off some_bytes free = cc (l)
from_place m header at r w l f off some_bytes free = absurd (omega (arith, w))
from_place m flag_next at r w l f off some_bytes free = absurd (omega (arith, w))
from_place m low_next at r w l f off some_bytes free = absurd (omega (arith, w))
from_place m (high_next low) at r w l f off some_bytes free = absurd (omega (arith, w))
from_place m body_due at r w l f off some_bytes free = absurd (omega (arith, w))
from_place m (body packet_data) at r w l f off some_bytes free = absurd (omega (arith, w))
from_place m (handing p) at r w l f off some_bytes free = absurd (omega (arith, w))

-- In every interleaving, wherever the processing thread is outside of a round and has not ended: with a
-- byte in the queue, nobody adding and no order to stop, its own steps from there and, where it is
-- blocked, a notification that is pending already lead to the beginning of its next round, on the
-- same bytes; no wake-up without a notification is needed.
pub Runs-BeginsRound :
    {es : List Event} {m : Machine}
    → Runs es m
    → steps_left m.place ≡ 0
    → is_dead m.place ≡ false
    → m.place ≢ finished
    → m.stop ≡ false
    → is_empty m.buffer.internal_buffer ≡ false
    → m.adder ≡ none
    → BeginsRound m
Runs-BeginsRound {es} {m} r outside living going off some_bytes free =
    from_place m m.place refl r outside living going off some_bytes free
