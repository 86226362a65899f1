-- ===== src/NetworkClient/Parting/Tests.antt =====
-- Witnesses for `disconnectAsync` of NetworkClient.cpp beside the client's threads.
use parlo_plus_plus.Common.{◌≤◌, ◌<◌, ◌≡◌, ◌≢◌, refl, inl, true, false}
use parlo_plus_plus.NetworkClient.Race.{asleep, resetting, away, Threads, begun, ends}
use parlo_plus_plus.NetworkClient.Parting.{
  Caller, outside, in_heartbeat, starting, parted, is_over, beating, Parting, tells_check, Step,
  parts, pulses, beats, checks, Steps, here, then,
}
use parlo_plus_plus.NetworkClient.Parting.Trapped.{Steps-NeverParts}
use parlo_plus_plus.NetworkClient.Parting.Outside.{distance}
use parlo_plus_plus.NetworkClient.Parting.Completion.{Steps-Nears}

abbrev calling : Caller → Threads → Parting
calling caller threads = record {
  threads = threads;
  caller = caller;
  stage = starting;
  pulse = beating;
  stop_sending = false;
  connected = true;
}

-- A user has told the check to stop, which then ends.
abbrev told : (q : Parting) × Steps (calling outside (begun true)) q
told = (
  _,
  then (then here (parts (tells_check _ refl refl))) (checks _ (ends _ refl refl) (λ e. cc (e))),
)

Steps-Nears_example :
    (distance told.0 ≤ 11)
    × ((r : Parting) → Step told.0 r → distance r ≤ distance told.0)
    × (is_over told.0.stage ≡ false
        → told.0.hearing ≡ away
        → (r : Parting) × Step told.0 r × (distance r < distance told.0))
    × (is_over told.0.stage ≡ true → (told.0.stage ≡ parted) × (told.0.connected ≡ false))
Steps-Nears_example = Steps-Nears told.1 refl refl

-- The handler of heartbeats makes the call while the check is about to count, and heartbeats are sent.
abbrev holding : Parting
holding = calling in_heartbeat (record (begun true) { place = asleep; hearing = resetting })

abbrev jammed : (q : Parting) × Steps holding q
jammed = (_, then (then here (parts (tells_check _ refl refl))) (pulses (beats _ refl refl)))

Steps-NeverParts_example :
    (jammed.0.stage ≢ parted)
    × (jammed.0.connected ≡ true)
    × (jammed.0.stop_sending ≡ false)
    × (in_heartbeat ≡ in_heartbeat → is_over jammed.0.stage ≡ false)
Steps-NeverParts_example = Steps-NeverParts jammed.1 refl refl (inl (refl, refl, inl refl))
