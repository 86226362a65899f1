-- ===== src/NetworkClient/Race/Locks.antt =====
-- What the two mutexes of NetworkClient.cpp do for the check and the handler of heartbeats.
use parlo_plus_plus.Common.{◌≡◌, ◌≢◌, refl, Bool, true, false, List, ◌∷◌}
use parlo_plus_plus.NetworkClient.Race.{
  doomed, dead, away, reviving, resetting, Threads, Act, resets, CheckStep, goes_on, ends, wakes,
  spares, dooms, kills, tells, keeps_quiet, HearStep, revives, forgives, leaves, Runs, here,
  checked, heard, stopped, begun,
}

-- While a heartbeat is handled, nothing undoes what has been done for it.
pub record IsGuarded (r : Threads) : Type 0 where
  pub living : r.hearing ≢ away → r.alive ≡ true
  pub forgiven : r.hearing ≡ resetting → r.missed ≡ 0

CheckStep-IsGuarded :
    {r t : Threads} {acts : List Act} → CheckStep r acts t → IsGuarded r → IsGuarded t
CheckStep-IsGuarded (goes_on r e off) k = record { living = k.living; forgiven = k.forgiven }
CheckStep-IsGuarded (ends r e on) k = record { living = k.living; forgiven = k.forgiven }
CheckStep-IsGuarded (wakes r e free) k = record {
  living = k.living;
  forgiven = λ f. absurd (free f);
}
CheckStep-IsGuarded (spares r e few) k = record { living = k.living; forgiven = k.forgiven }
CheckStep-IsGuarded (dooms r e many) k = record { living = k.living; forgiven = k.forgiven }
CheckStep-IsGuarded (kills r e free) k = record {
  living = λ f. absurd (f free);
  forgiven = k.forgiven;
}
CheckStep-IsGuarded (tells r e on) k = record { living = k.living; forgiven = k.forgiven }
CheckStep-IsGuarded (keeps_quiet r e off) k = record { living = k.living; forgiven = k.forgiven }

HearStep-IsGuarded :
    {r t : Threads} {acts : List Act} → HearStep r acts t → IsGuarded r → IsGuarded t
HearStep-IsGuarded (revives r e) k = record { living = λ f. refl; forgiven = λ f. absurd (cc (f)) }
HearStep-IsGuarded (forgives r e) k = record {
  living = λ f. k.living (λ g. cc (e, g));
  forgiven = λ f. refl;
}
HearStep-IsGuarded (leaves r e) k = record {
  living = λ f. absurd (f refl);
  forgiven = λ f. absurd (cc (f));
}

-- However the steps come after one another, from the beginning of the check: as long as a heartbeat
-- is being handled, its mutexes see to it that the connection counts as alive, and that no heartbeat
-- counts as missed once the count has been reset.
pub Runs-IsGuarded :
    (handled : Bool) (h : List Act) (r : Threads) → Runs (begun handled) h r → IsGuarded r
Runs-IsGuarded handled h r here = record { living = λ f. refl; forgiven = λ f. absurd (cc (f)) }
Runs-IsGuarded handled h r (checked runs step) =
    CheckStep-IsGuarded step (Runs-IsGuarded handled _ _ runs)
Runs-IsGuarded handled h r (heard runs step) =
    HearStep-IsGuarded step (Runs-IsGuarded handled _ _ runs)
Runs-IsGuarded handled h r (stopped runs) =
    let k = Runs-IsGuarded handled _ _ runs in record { living = k.living; forgiven = k.forgiven }

-- A connection that counts as dead although its last heartbeat has been handled and none missed
-- since.
pub record IsStale (r : Threads) : Type 0 where
  pub unheard : r.hearing ≡ away
  pub dead_yet : r.alive ≡ false
  pub none_missed : r.missed ≡ 0

-- The test of the count and the change that follows it are under no common mutex: from every state
-- that can come about and in which the check has found too many missed and no heartbeat is being
-- handled, a whole heartbeat can be handled before the check goes on, and then the connection counts
-- as dead with no heartbeat missed.
pub doomed-IsStale :
    (handled : Bool) (h : List Act) (r : Threads)
    → Runs (begun handled) h r
    → r.place ≡ doomed
    → r.hearing ≡ away
    → (t : Threads) × Runs (begun handled) (resets ∷ h) t × IsStale t
doomed-IsStale handled h r runs e free =
    let revived : Threads = record r { hearing = reviving; alive = true } in
    let reset_r : Threads = record revived { hearing = resetting; missed = 0 } in
    let left : Threads = record reset_r { hearing = away } in
    (
      record left { place = dead; alive = false },
      checked
          (heard (heard (heard runs (revives r free)) (forgives revived refl))
            (leaves reset_r refl))
          (kills left e refl),
      record { unheard = refl; dead_yet = refl; none_missed = refl },
    )
