-- ===== src/NetworkClient/RaceTests.antt =====
-- Runs of the two threads of NetworkClient.cpp that count heartbeats.
use parlo_plus_plus.Common.{ℕ, ◌+◌, ◌<◌, refl, true, false, List, ◌∷◌, arith}
use parlo_plus_plus.NetworkClient.MissedHeartbeats.{copies}
use parlo_plus_plus.NetworkClient.Race.{
  asleep, counted, doomed, dead, Threads, Act, counts, resets, goes_on, wakes, spares, dooms, kills,
  tells, Runs, here, checked, begun,
}
use parlo_plus_plus.NetworkClient.Race.Told.{HasSeven, told-HasSeven}
use parlo_plus_plus.NetworkClient.Race.Locks.{IsGuarded, Runs-IsGuarded, IsStale, doomed-IsStale}

abbrev missing : ℕ → Threads
missing n = record (begun true) { missed = n }

-- A round that counts.
a_round :
    {h : List Act} (n : ℕ)
    → Runs (begun true) h (missing n)
    → Runs (begun true) (counts ∷ h) (record (missing (n + 1)) { place = counted })
a_round n runs =
    checked (checked runs (goes_on (missing n) refl refl))
      (wakes (record (missing n) { place = asleep }) refl (λ e. cc (e)))

spared_round :
    {h : List Act} (n : ℕ)
    → n < 6
    → Runs (begun true) h (missing n)
    → Runs (begun true) (counts ∷ h) (missing (n + 1))
spared_round n few runs =
    checked (a_round n runs)
      (spares (record (missing (n + 1)) { place = counted }) refl (omega arith))

abbrev lost_state : Threads
lost_state = record (missing 7) { place = doomed }

seven_rounds : Runs (begun true) (copies 7 counts) lost_state
seven_rounds =
    let six = spared_round 5 (omega arith) (
      spared_round 4 (omega arith) (
        spared_round 3 (omega arith) (
          spared_round 2 (omega arith)
            (spared_round 1 (omega arith) (spared_round 0 (omega arith) here))))) in
    checked (a_round 6 six) (dooms (record (missing 7) { place = counted }) refl (omega arith))

told_state : Runs (begun true) (copies 7 counts) (record (missing 7) { alive = false; told = 1 })
told_state =
    checked (checked seven_rounds (kills lost_state refl refl))
      (tells (record lost_state { place = dead; alive = false }) refl refl)

told-HasSeven_example : HasSeven (copies 7 counts)
told-HasSeven_example =
    told-HasSeven true (copies 7 counts) (record (missing 7) { alive = false; told = 1 }) told_state
      (omega arith)

Runs-IsGuarded_example : IsGuarded lost_state
Runs-IsGuarded_example = Runs-IsGuarded true (copies 7 counts) lost_state seven_rounds

doomed-IsStale_example : (t : Threads) × Runs (begun true) (resets ∷ copies 7 counts) t × IsStale t
doomed-IsStale_example = doomed-IsStale true (copies 7 counts) lost_state seven_rounds refl refl
