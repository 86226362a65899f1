-- ===== src/NetworkClient/Parting/Outside.antt =====
-- `disconnectAsync` of NetworkClient.cpp called from outside of the client's threads.
use parlo_plus_plus.Common.{
  ℕ, ◌+◌, ◌<◌, ◌≡◌, ◌≢◌, refl, ap, ◌∙◌, ◌⊎◌, inl, inr, true, false, List, Bool-cases, leb, arith,
}
use parlo_plus_plus.NetworkClient.Race.{
  Place, testing, asleep, counted, doomed, dead, finished, away, Threads, Act, CheckStep, goes_on,
  ends, wakes, spares, dooms, kills, tells, keeps_quiet, HearStep, revives, forgives, leaves,
}
use parlo_plus_plus.NetworkClient.Parting.{
  outside, Stage, starting, joining_check, telling_sender, joining_sender, broken_off, parted,
  Pulse, beating, resting, silent, Parting, tells_check, passes_check, joins_check, joins_itself,
  tells_sender, passes_sender, joins_sender, beats, falls_silent, rests, Step, parts, pulses,
  checks, hears, Steps, here, then,
}

-- The steps that the check, once told to stop, is away from its end.
unfoldable pub check_left : Place → ℕ
check_left finished = 0
check_left testing = 1
check_left dead = 2
check_left doomed = 3
check_left counted = 4
check_left asleep = 5

unfoldable pub pulse_left : Pulse → ℕ
pulse_left silent = 0
pulse_left beating = 1
pulse_left resting = 2

-- The steps that the call is away from its end.
unfoldable pub steps_left : Stage → Place → Pulse → ℕ
unfolding check_left pulse_left
steps_left starting c s = 11
steps_left joining_check c s = 5 + check_left c
steps_left telling_sender c s = 4
steps_left joining_sender c s = 1 + pulse_left s
steps_left parted c s = 0
steps_left broken_off c s = 0

abbrev pub distance : Parting → ℕ
distance p = steps_left p.stage p.place p.pulse

-- Whom the call waits for, it has told to stop; where it is over, the client is not connected.
pub record HasTold (p : Parting) : Type 0 where
  pub from : p.caller ≡ outside
  pub check : p.stage ≡ joining_check → p.stop ≡ true
  pub sender : p.stage ≡ joining_sender → p.stop_sending ≡ true
  pub gone : p.stage ≡ parted → p.connected ≡ false
  pub unbroken : p.stage ≢ broken_off

CheckStep-stop : {r t : Threads} {acts : List Act} → CheckStep r acts t → t.stop ≡ r.stop
CheckStep-stop (goes_on r e off) = refl
CheckStep-stop (ends r e on) = refl
CheckStep-stop (wakes r e free) = refl
CheckStep-stop (spares r e few) = refl
CheckStep-stop (dooms r e many) = refl
CheckStep-stop (kills r e free) = refl
CheckStep-stop (tells r e on) = refl
CheckStep-stop (keeps_quiet r e off) = refl

pub HearStep-stop_place :
    {r t : Threads} {acts : List Act} → HearStep r acts t → (t.stop ≡ r.stop) × (t.place ≡ r.place)
HearStep-stop_place (revives r e) = (refl, refl)
HearStep-stop_place (forgives r e) = (refl, refl)
HearStep-stop_place (leaves r e) = (refl, refl)

Step-HasTold : {p q : Parting} → Step p q → HasTold p → HasTold q
Step-HasTold (parts (tells_check p at off)) k = record {
  from = k.from;
  check = λ e. refl;
  sender = λ e. absurd (cc (e));
  gone = λ e. absurd (cc (e));
  unbroken = λ e. cc (e);
}
Step-HasTold (parts (passes_check p at on)) k = record {
  from = k.from;
  check = λ e. absurd (cc (e));
  sender = λ e. absurd (cc (e));
  gone = λ e. absurd (cc (e));
  unbroken = λ e. cc (e);
}
Step-HasTold (parts (joins_check p at other gone)) k = record {
  from = k.from;
  check = λ e. absurd (cc (e));
  sender = λ e. absurd (cc (e));
  gone = λ e. absurd (cc (e));
  unbroken = λ e. cc (e);
}
Step-HasTold (parts (joins_itself p at own)) k = record {
  from = k.from;
  check = λ e. absurd (cc (e));
  sender = λ e. absurd (cc (e));
  gone = λ e. absurd (cc (e));
  unbroken = λ e. cc (own, k.from);
}
Step-HasTold (parts (tells_sender p at off)) k = record {
  from = k.from;
  check = λ e. absurd (cc (e));
  sender = λ e. refl;
  gone = λ e. absurd (cc (e));
  unbroken = λ e. cc (e);
}
Step-HasTold (parts (passes_sender p at on)) k = record {
  from = k.from;
  check = λ e. absurd (cc (e));
  sender = λ e. absurd (cc (e));
  gone = λ e. refl;
  unbroken = λ e. cc (e);
}
Step-HasTold (parts (joins_sender p at gone)) k = record {
  from = k.from;
  check = λ e. absurd (cc (e));
  sender = λ e. absurd (cc (e));
  gone = λ e. refl;
  unbroken = λ e. cc (e);
}
Step-HasTold (pulses (beats p at off)) k = record {
  from = k.from;
  check = k.check;
  sender = k.sender;
  gone = k.gone;
  unbroken = k.unbroken;
}
Step-HasTold (pulses (falls_silent p at on)) k = record {
  from = k.from;
  check = k.check;
  sender = k.sender;
  gone = k.gone;
  unbroken = k.unbroken;
}
Step-HasTold (pulses (rests p at)) k = record {
  from = k.from;
  check = k.check;
  sender = k.sender;
  gone = k.gone;
  unbroken = k.unbroken;
}
Step-HasTold (checks p s free) k = record {
  from = k.from;
  check = λ e. CheckStep-stop s ∙ k.check e;
  sender = k.sender;
  gone = k.gone;
  unbroken = k.unbroken;
}
Step-HasTold (hears p s free) k = record {
  from = k.from;
  check = λ e. (HearStep-stop_place s).0 ∙ k.check e;
  sender = k.sender;
  gone = k.gone;
  unbroken = k.unbroken;
}

pub Steps-HasTold :
    {p q : Parting} → Steps p q → p.caller ≡ outside → p.stage ≡ starting → HasTold q
Steps-HasTold here c at = record {
  from = c;
  check = λ e. absurd (cc (at, e));
  sender = λ e. absurd (cc (at, e));
  gone = λ e. absurd (cc (at, e));
  unbroken = λ e. cc (at, e);
}
Steps-HasTold (then steps s) c at = Step-HasTold s (Steps-HasTold steps c at)

-- A check that has been told to stop comes nearer to its end with each step.
pub CheckStep-check_left :
    {r t : Threads} {acts : List Act}
    → CheckStep r acts t
    → r.stop ≡ true
    → check_left t.place < check_left r.place
unfolding check_left
CheckStep-check_left (goes_on r e off) on = absurd (cc (on, off))
CheckStep-check_left (ends r e _) on = omega (arith, ap check_left e)
CheckStep-check_left (wakes r e free) on = omega (arith, ap check_left e)
CheckStep-check_left (spares r e few) on = omega (arith, ap check_left e)
CheckStep-check_left (dooms r e many) on = omega (arith, ap check_left e)
CheckStep-check_left (kills r e free) on = omega (arith, ap check_left e)
CheckStep-check_left (tells r e _) on = omega (arith, ap check_left e)
CheckStep-check_left (keeps_quiet r e off) on = omega (arith, ap check_left e)

-- Unless a heartbeat is being handled, the check can go on until it is finished.
pub can_check :
    (r : Threads) (p : Place)
    → r.place ≡ p
    → r.stop ≡ true
    → r.hearing ≡ away
    → (p ≡ finished) ⊎ ((t : Threads) × (acts : List Act) × CheckStep r acts t)
can_check r finished at on free = inl refl
can_check r testing at on free = inr (_, _, ends r at on)
can_check r asleep at on free = inr (_, _, wakes r at (λ e. cc (free, e)))
can_check r counted at on free = elim (Bool-cases (leb r.missed 6)) [
  | inl few ↦ inr (_, _, spares r at (ground (arith, few)))
  | inr many ↦ inr (_, _, dooms r at (ground (arith, many)))
]
can_check r doomed at on free = inr (_, _, kills r at free)
can_check r dead at on free = elim (Bool-cases r.handled) [
  | inl given ↦ inr (_, _, tells r at given)
  | inr none_given ↦ inr (_, _, keeps_quiet r at none_given)
]
