-- ===== src/NetworkClient/Race.antt =====
-- `checkForMissedHeartbeats` and the handling of a heartbeat in NetworkClient.cpp as two threads,
-- with every step between their mutexes on its own. The handler takes `aliveMutex` and then
-- `heartbeatsMutex`, and holds both to its end; the check holds each only for the one change that it
-- makes under it, and reads the count without a mutex.
pub mod Told
pub mod Locks
use parlo_plus_plus.Common.{ℕ, ◌+◌, ◌≤◌, ◌<◌, ◌≡◌, ◌≢◌, Bool, true, false, List, [], ◌∷◌, ◌++◌}

-- Where the check is: before the test of its loop; behind it; behind the count; where it has found
-- too many missed; behind `isAlive = false`; out of its loop.
pub data Place : Type 0 where
  testing asleep counted doomed dead finished : Place

-- Where the handler of a heartbeat is: nowhere; behind `isAlive = true`, with `aliveMutex`; behind
-- `missedHeartbeats = 0`, with both.
pub data Hearing : Type 0 where
  away reviving resetting : Hearing

-- `told` counts the calls of the handler of lost connections, and `handled` says whether there is
-- one.
pub record Threads : Type 0 where
  pub place : Place
  pub hearing : Hearing
  pub missed : ℕ
  pub alive : Bool
  pub stop : Bool
  pub handled : Bool
  pub told : ℕ

-- The two changes of the count.
pub data Act : Type 0 where
  counts resets : Act

-- A step of the check, with what it does to the count.
pub data CheckStep : Threads → List Act → Threads → Type 0 where
  goes_on :
      (r : Threads)
      → r.place ≡ testing
      → r.stop ≡ false
      → CheckStep r [] (record r { place = asleep })
  ends :
      (r : Threads)
      → r.place ≡ testing
      → r.stop ≡ true
      → CheckStep r [] (record r { place = finished })
  wakes :
      (r : Threads)
      → r.place ≡ asleep
      → r.hearing ≢ resetting
      → CheckStep r (counts ∷ []) (record r { place = counted; missed = r.missed + 1 })
  spares :
      (r : Threads)
      → r.place ≡ counted
      → r.missed ≤ 6
      → CheckStep r [] (record r { place = testing })
  dooms :
      (r : Threads)
      → r.place ≡ counted
      → 6 < r.missed
      → CheckStep r [] (record r { place = doomed })
  kills :
      (r : Threads)
      → r.place ≡ doomed
      → r.hearing ≡ away
      → CheckStep r [] (record r { place = dead; alive = false })
  tells :
      (r : Threads)
      → r.place ≡ dead
      → r.handled ≡ true
      → CheckStep r [] (record r { place = testing; told = r.told + 1 })
  keeps_quiet :
      (r : Threads)
      → r.place ≡ dead
      → r.handled ≡ false
      → CheckStep r [] (record r { place = testing })

-- A step of the handler.
pub data HearStep : Threads → List Act → Threads → Type 0 where
  revives :
      (r : Threads)
      → r.hearing ≡ away
      → HearStep r [] (record r { hearing = reviving; alive = true })
  forgives :
      (r : Threads)
      → r.hearing ≡ reviving
      → HearStep r (resets ∷ []) (record r { hearing = resetting; missed = 0 })
  leaves : (r : Threads) → r.hearing ≡ resetting → HearStep r [] (record r { hearing = away })

-- The steps of both, newest first in the list, and the order to stop, which may come at any time.
pub data Runs (r : Threads) : List Act → Threads → Type 0 where
  here : Runs r [] r
  checked :
      {h acts : List Act} {s t : Threads} → Runs r h s → CheckStep s acts t → Runs r (acts ++ h) t
  heard :
      {h acts : List Act} {s t : Threads} → Runs r h s → HearStep s acts t → Runs r (acts ++ h) t
  stopped : {h : List Act} {s : Threads} → Runs r h s → Runs r h (record s { stop = true })

-- A client whose check has just begun.
abbrev pub begun : Bool → Threads
begun handled = record {
  place = testing;
  hearing = away;
  missed = 0;
  alive = true;
  stop = false;
  handled = handled;
  told = 0;
}
