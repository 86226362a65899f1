-- ===== src/NetworkClient/Parting.antt =====
-- `disconnectAsync` of NetworkClient.cpp, behind the closing of the socket, as one more thread beside the
-- two of Race and the one that sends heartbeats, all of which have been started. It tells the check and
-- then the sender to stop, and waits for each. It may be called from outside of the client's threads,
-- from the user's handler of heartbeats, which is called while both mutexes are held, or from the user's
-- handler of lost connections, which the check calls; these go on once the call is over.
pub mod Outside
pub mod Completion
pub mod Trapped
mod Tests
use parlo_plus_plus.Common.{◌≡◌, ◌≢◌, Bool, true, false, List}
use parlo_plus_plus.NetworkClient.Race.{Threads, finished, Act, CheckStep, HearStep}

pub data Caller : Type 0 where
  outside in_heartbeat in_check : Caller

-- Where the call is: before the test of `stopCheckMissedHeartbeats`; in `heartbeatCheckThread.join()`;
-- before the test of `stopSendingHeartbeats`; in `sendHeartbeatsThread.join()`; behind
-- `connected = false`; in the `catch` clause.
pub data Stage : Type 0 where
  starting joining_check telling_sender joining_sender parted broken_off : Stage

abbrev pub is_over : Stage → Bool
is_over parted = true
is_over broken_off = true
is_over _ = false

-- Where `sendHeartbeatAsync` is: before the test of its loop; behind it; out of its loop.
pub data Pulse : Type 0 where
  beating resting silent : Pulse

pub record Parting : Type 0 where
  pub threads : Threads
  pub open threads use *
  pub caller : Caller
  pub stage : Stage
  pub pulse : Pulse
  pub stop_sending : Bool
  pub connected : Bool

-- A step of the call. To join itself is an error of a thread.
pub data PartStep : Parting → Parting → Type 0 where
  tells_check :
      (p : Parting)
      → p.stage ≡ starting
      → p.stop ≡ false
      → PartStep p (record p { threads = record p.threads { stop = true }; stage = joining_check })
  passes_check :
      (p : Parting)
      → p.stage ≡ starting
      → p.stop ≡ true
      → PartStep p (record p { stage = telling_sender })
  joins_check :
      (p : Parting)
      → p.stage ≡ joining_check
      → p.caller ≢ in_check
      → p.place ≡ finished
      → PartStep p (record p { stage = telling_sender })
  joins_itself :
      (p : Parting)
      → p.stage ≡ joining_check
      → p.caller ≡ in_check
      → PartStep p (record p { stage = broken_off })
  tells_sender :
      (p : Parting)
      → p.stage ≡ telling_sender
      → p.stop_sending ≡ false
      → PartStep p (record p { stop_sending = true; stage = joining_sender })
  passes_sender :
      (p : Parting)
      → p.stage ≡ telling_sender
      → p.stop_sending ≡ true
      → PartStep p (record p { stage = parted; connected = false })
  joins_sender :
      (p : Parting)
      → p.stage ≡ joining_sender
      → p.pulse ≡ silent
      → PartStep p (record p { stage = parted; connected = false })

-- A step of the thread that sends heartbeats.
pub data PulseStep : Parting → Parting → Type 0 where
  beats :
      (p : Parting)
      → p.pulse ≡ beating
      → p.stop_sending ≡ false
      → PulseStep p (record p { pulse = resting })
  falls_silent :
      (p : Parting)
      → p.pulse ≡ beating
      → p.stop_sending ≡ true
      → PulseStep p (record p { pulse = silent })
  rests : (p : Parting) → p.pulse ≡ resting → PulseStep p (record p { pulse = beating })

-- A step of any thread. One that has called `disconnectAsync` in a handler waits for it.
pub data Step : Parting → Parting → Type 0 where
  parts : {p q : Parting} → PartStep p q → Step p q
  pulses : {p q : Parting} → PulseStep p q → Step p q
  checks :
      (p : Parting) {acts : List Act} {t : Threads}
      → CheckStep p.threads acts t
      → (p.caller ≡ in_check → is_over p.stage ≡ true)
      → Step p (record p { threads = t })
  hears :
      (p : Parting) {acts : List Act} {t : Threads}
      → HearStep p.threads acts t
      → (p.caller ≡ in_heartbeat → is_over p.stage ≡ true)
      → Step p (record p { threads = t })

pub data Steps (p : Parting) : Parting → Type 0 where
  here : Steps p p
  then : {q r : Parting} → Steps p q → Step q r → Steps p r
