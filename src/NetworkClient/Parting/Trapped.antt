-- ===== src/NetworkClient/Parting/Trapped.antt =====
-- `disconnectAsync` of NetworkClient.cpp called from the client's own threads.
use parlo_plus_plus.Common.{◌≡◌, ◌≢◌, refl, sym, ap, ◌∙◌, ◌⊎◌, inl, inr, true, false, List}
use parlo_plus_plus.NetworkClient.Race.{
  asleep, doomed, resetting, Threads, Act, CheckStep, goes_on, ends, wakes, spares, dooms, kills,
  tells, keeps_quiet, HearStep, revives, forgives, leaves,
}
use parlo_plus_plus.NetworkClient.Parting.{
  in_heartbeat, in_check, Stage, starting, joining_check, broken_off, parted, is_over, Parting,
  PartStep, tells_check, passes_check, joins_check, joins_itself, tells_sender, passes_sender,
  joins_sender, PulseStep, beats, falls_silent, rests, Step, parts, pulses, checks, hears, Steps,
  here, then,
}

-- The user's handler of heartbeats has made the call, with both mutexes, while the check is about to take
-- one of them; or the check itself has made it.
abbrev pub IsTrapped : Parting → Type 0
IsTrapped p =
    ((p.caller ≡ in_heartbeat)
      × (p.hearing ≡ resetting)
      × ((p.place ≡ asleep) ⊎ (p.place ≡ doomed)))
    ⊎ (p.caller ≡ in_check)

-- How far such a call gets.
abbrev CanBeAt : Parting → Type 0
CanBeAt p =
    ((p.stage ≡ starting) × (p.stop ≡ false))
    ⊎ ((p.stage ≡ joining_check) ⊎ ((p.stage ≡ broken_off) × (p.caller ≡ in_check)))

-- A call of this kind, behind any steps.
record Trapped (p q : Parting) : Type 0 where
  who : IsTrapped q
  same : q.caller ≡ p.caller
  early : CanBeAt q
  still_connected : q.connected ≡ p.connected
  untold : q.stop_sending ≡ p.stop_sending

-- It gets nowhere else.
elsewhere {ℓ} :
    {A : Type ℓ} (p : Parting) (s : Stage)
    → CanBeAt p
    → p.stage ≡ s
    → s ≢ starting
    → s ≢ joining_check
    → s ≢ broken_off
    → A
elsewhere p s (inl (e, off)) at a b c = absurd (a (sym at ∙ e))
elsewhere p s (inr (inl e)) at a b c = absurd (b (sym at ∙ e))
elsewhere p s (inr (inr (e, own))) at a b c = absurd (c (sym at ∙ e))

PartStep-Trapped : {p q r : Parting} → PartStep q r → Trapped p q → Trapped p r
PartStep-Trapped (tells_check q at off) k = record {
  who = k.who;
  same = k.same;
  early = inr (inl refl);
  still_connected = k.still_connected;
  untold = k.untold;
}
PartStep-Trapped (passes_check q at on) k = elim k.early [
  | inl (e, off) ↦ absurd (cc (on, off))
  | inr (inl e) ↦ absurd (cc (at, e))
  | inr (inr (e, own)) ↦ absurd (cc (at, e))
]
PartStep-Trapped (joins_check q at other gone) k = elim k.who [
  | inl (c, h, inl e) ↦ absurd (cc (gone, e))
  | inl (c, h, inr e) ↦ absurd (cc (gone, e))
  | inr own ↦ absurd (other own)
]
PartStep-Trapped (joins_itself q at own) k = record {
  who = k.who;
  same = k.same;
  early = inr (inr (refl, own));
  still_connected = k.still_connected;
  untold = k.untold;
}
PartStep-Trapped (tells_sender q at off) k =
    elsewhere q _ k.early at (λ e. cc (e)) (λ e. cc (e)) (λ e. cc (e))
PartStep-Trapped (passes_sender q at on) k =
    elsewhere q _ k.early at (λ e. cc (e)) (λ e. cc (e)) (λ e. cc (e))
PartStep-Trapped (joins_sender q at gone) k =
    elsewhere q _ k.early at (λ e. cc (e)) (λ e. cc (e)) (λ e. cc (e))

PulseStep-Trapped : {p q r : Parting} → PulseStep q r → Trapped p q → Trapped p r
PulseStep-Trapped (beats q at off) k = record {
  who = k.who;
  same = k.same;
  early = k.early;
  still_connected = k.still_connected;
  untold = k.untold;
}
PulseStep-Trapped (falls_silent q at on) k = record {
  who = k.who;
  same = k.same;
  early = k.early;
  still_connected = k.still_connected;
  untold = k.untold;
}
PulseStep-Trapped (rests q at) k = record {
  who = k.who;
  same = k.same;
  early = k.early;
  still_connected = k.still_connected;
  untold = k.untold;
}

-- The check cannot go on without the mutex that the handler of heartbeats holds.
barred {ℓ} :
    {A : Type ℓ} {r t : Threads} {acts : List Act}
    → CheckStep r acts t
    → r.hearing ≡ resetting
    → (r.place ≡ asleep) ⊎ (r.place ≡ doomed)
    → A
barred (goes_on r e off) h (inl at) = absurd (cc (e, at))
barred (goes_on r e off) h (inr at) = absurd (cc (e, at))
barred (ends r e on) h (inl at) = absurd (cc (e, at))
barred (ends r e on) h (inr at) = absurd (cc (e, at))
barred (wakes r e free) h at = absurd (free h)
barred (spares r e few) h (inl at) = absurd (cc (e, at))
barred (spares r e few) h (inr at) = absurd (cc (e, at))
barred (dooms r e many) h (inl at) = absurd (cc (e, at))
barred (dooms r e many) h (inr at) = absurd (cc (e, at))
barred (kills r e free) h at = absurd (cc (free, h))
barred (tells r e on) h (inl at) = absurd (cc (e, at))
barred (tells r e on) h (inr at) = absurd (cc (e, at))
barred (keeps_quiet r e off) h (inl at) = absurd (cc (e, at))
barred (keeps_quiet r e off) h (inr at) = absurd (cc (e, at))

HearStep-stop : {r t : Threads} {acts : List Act} → HearStep r acts t → t.stop ≡ r.stop
HearStep-stop (revives r e) = refl
HearStep-stop (forgives r e) = refl
HearStep-stop (leaves r e) = refl

-- A call that is over was made by the check, and has broken off.
over_early :
    (p : Parting)
    → CanBeAt p
    → is_over p.stage ≡ true
    → (p.stage ≡ broken_off) × (p.caller ≡ in_check)
over_early p (inl (e, off)) over = absurd (cc (over, ap is_over e))
over_early p (inr (inl e)) over = absurd (cc (over, ap is_over e))
over_early p (inr (inr broken)) over = broken

Step-Trapped : {p q r : Parting} → Step q r → Trapped p q → Trapped p r
Step-Trapped (parts s) k = PartStep-Trapped s k
Step-Trapped (pulses s) k = PulseStep-Trapped s k
Step-Trapped (checks q {t = t} s free) k = elim k.who [
  | inl (c, h, at) ↦ barred s h at
  | inr own ↦ record {
    who = inr own;
    same = k.same;
    early = inr (inr (over_early q k.early (free own)));
    still_connected = k.still_connected;
    untold = k.untold;
  }
]
Step-Trapped (hears q {t = t} s free) k = elim k.who [
  | inl (c, h, at) ↦ absurd (cc (c, (over_early q k.early (free c)).1))
  | inr own ↦ record {
    who = inr own;
    same = k.same;
    early = elim k.early [
      | inl (e, off) ↦ inl (e, HearStep-stop s ∙ off)
      | inr further ↦ inr further
    ];
    still_connected = k.still_connected;
    untold = k.untold;
  }
]

Steps-Trapped :
    {p q : Parting} → Steps p q → p.stage ≡ starting → p.stop ≡ false → IsTrapped p → Trapped p q
Steps-Trapped here at off k = record {
  who = k;
  same = refl;
  early = inl (at, off);
  still_connected = refl;
  untold = refl;
}
Steps-Trapped (then steps s) at off k = Step-Trapped s (Steps-Trapped steps at off k)

-- Let `disconnectAsync` be called by the user's handler of lost connections where the check calls it, or by the user's handler of
-- heartbeats while the check is about to take a mutex, and let the check not have been told to stop. Then
-- in every interleaving, and for ever, the call does not complete: the client stays connected as it was, and
-- the thread that sends heartbeats is not told to stop. In the handler of heartbeats the call never even
-- returns, since the check waits for a mutex that the call's own thread holds.
pub Steps-NeverParts :
    {p q : Parting}
    → Steps p q
    → p.stage ≡ starting
    → p.stop ≡ false
    → IsTrapped p
    → (q.stage ≢ parted)
      × (q.connected ≡ p.connected)
      × (q.stop_sending ≡ p.stop_sending)
      × (p.caller ≡ in_heartbeat → is_over q.stage ≡ false)
Steps-NeverParts {p} {q} steps at off who =
    let k = Steps-Trapped steps at off who in
    (
      λ e. elsewhere q parted k.early e (λ f. cc (f)) (λ f. cc (f)) (λ f. cc (f)),
      k.still_connected,
      k.untold,
      λ c. elim k.early [
        | inl (e, _) ↦ ap is_over e
        | inr (inl e) ↦ ap is_over e
        | inr (inr (_, own)) ↦ absurd (cc (c, own, k.same))
      ],
    )
