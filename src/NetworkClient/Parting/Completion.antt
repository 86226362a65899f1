-- ===== src/NetworkClient/Parting/Completion.antt =====
-- That `disconnectAsync` of NetworkClient.cpp, called from outside of the client's threads, comes to its end.
use parlo_plus_plus.Common.{◌≤◌, ◌<◌, ◌≡◌, ◌≢◌, refl, ap, inl, inr, true, false, Bool-cases, arith}
use parlo_plus_plus.NetworkClient.Race.{
  Place, testing, asleep, counted, doomed, dead, finished, away,
}
use parlo_plus_plus.NetworkClient.Parting.{
  outside, Stage, starting, joining_check, telling_sender, joining_sender, broken_off, parted,
  is_over, Pulse, beating, resting, silent, Parting, tells_check, passes_check, joins_check,
  joins_itself, tells_sender, passes_sender, joins_sender, beats, falls_silent, rests, Step, parts,
  pulses, checks, hears, Steps,
}
use parlo_plus_plus.NetworkClient.Parting.Outside.{
  check_left, pulse_left, steps_left, distance, HasTold, HearStep-stop_place, CheckStep-check_left,
  can_check, Steps-HasTold,
}

check_left_bound : (c : Place) → check_left c ≤ 5
unfolding check_left
check_left_bound testing = omega arith
check_left_bound asleep = omega arith
check_left_bound counted = omega arith
check_left_bound doomed = omega arith
check_left_bound dead = omega arith
check_left_bound finished = omega arith

pulse_left_bound : (s : Pulse) → pulse_left s ≤ 2
unfolding pulse_left
pulse_left_bound beating = omega arith
pulse_left_bound resting = omega arith
pulse_left_bound silent = omega arith

-- The check matters only while the call waits for it, and so does the sender.
steps_left_mono :
    (s : Stage) (c d : Place) (a b : Pulse)
    → (s ≡ joining_check → check_left d ≤ check_left c)
    → (s ≡ joining_sender → pulse_left b ≤ pulse_left a)
    → steps_left s d b ≤ steps_left s c a
unfolding steps_left
steps_left_mono starting c d a b f g = omega arith
steps_left_mono joining_check c d a b f g = omega (arith, f refl)
steps_left_mono telling_sender c d a b f g = omega arith
steps_left_mono joining_sender c d a b f g = omega (arith, g refl)
steps_left_mono parted c d a b f g = omega arith
steps_left_mono broken_off c d a b f g = omega arith

stage_at : (p : Parting) (s : Stage) → p.stage ≡ s → distance p ≡ steps_left s p.place p.pulse
stage_at p s at = ap (λ r. steps_left r p.place p.pulse) at

-- No step of any thread leads away from the end.
Step_no_further : {p q : Parting} → Step p q → HasTold p → distance q ≤ distance p
unfolding steps_left
Step_no_further (parts (tells_check p at off)) k =
    omega (arith, stage_at p starting at, check_left_bound p.place)
Step_no_further (parts (passes_check p at on)) k = omega (arith, stage_at p starting at)
Step_no_further (parts (joins_check p at other gone)) k = omega (arith, stage_at p joining_check at)
Step_no_further (parts (joins_itself p at own)) k = omega arith
Step_no_further (parts (tells_sender p at off)) k =
    omega (arith, stage_at p telling_sender at, pulse_left_bound p.pulse)
Step_no_further (parts (passes_sender p at on)) k = omega arith
Step_no_further (parts (joins_sender p at gone)) k = omega arith
Step_no_further (pulses (beats p at off)) k =
    steps_left_mono p.stage p.place p.place p.pulse resting (λ e. omega arith)
      (λ e. absurd (cc (k.sender e, off)))
Step_no_further (pulses (falls_silent p at on)) k =
    steps_left_mono p.stage p.place p.place p.pulse silent (λ e. omega arith)
      (λ e. unfold pulse_left in omega arith)
Step_no_further (pulses (rests p at)) k =
    steps_left_mono p.stage p.place p.place p.pulse beating (λ e. omega arith)
      (λ e. unfold pulse_left in omega (arith, ap pulse_left at))
Step_no_further (checks p {t = t} s free) k =
    steps_left_mono p.stage p.place t.place p.pulse p.pulse
      (λ e. let closer = CheckStep-check_left s (k.check e) in omega (arith, closer))
      (λ e. omega arith)
Step_no_further (hears p {t = t} s free) k =
    steps_left_mono p.stage p.place t.place p.pulse p.pulse
      (λ e. omega (arith, ap check_left (HearStep-stop_place s).1)) (λ e. omega arith)

abbrev Nearer : Parting → Type 0
Nearer p = (q : Parting) × Step p q × (distance q < distance p)

joining-Nearer : (p : Parting) → p.stage ≡ joining_check → HasTold p → p.hearing ≡ away → Nearer p
unfolding steps_left
joining-Nearer p at k free = elim (can_check p.threads p.place refl (k.check at) free) [
  | inl gone ↦ (
    _,
    parts (joins_check p at (λ own. cc (own, k.from)) gone),
    omega (arith, stage_at p joining_check at),
  )
  | inr (t, acts, s) ↦ (
    record p { threads = t },
    checks p s (λ own. absurd (cc (own, k.from))),
    let closer = CheckStep-check_left s (k.check at) in
        omega (
          arith,
          closer,
          stage_at p joining_check at,
          stage_at (record p { threads = t }) joining_check at,
        ),
  )
]

sender-Nearer :
    (p : Parting) (s : Pulse) → p.pulse ≡ s → p.stage ≡ joining_sender → HasTold p → Nearer p
unfolding steps_left pulse_left
sender-Nearer p silent gone at k =
    (_, parts (joins_sender p at gone), omega (arith, stage_at p joining_sender at))
sender-Nearer p beating e at k = (
  _,
  pulses (falls_silent p e (k.sender at)),
  omega (
    arith,
    stage_at p joining_sender at,
    ap pulse_left e,
    stage_at (record p { pulse = silent }) joining_sender at,
  ),
)
sender-Nearer p resting e at k = (
  _,
  pulses (rests p e),
  omega (
    arith,
    stage_at p joining_sender at,
    ap pulse_left e,
    stage_at (record p { pulse = beating }) joining_sender at,
  ),
)

-- While no heartbeat is being handled, some step leads nearer to the end.
can_near :
    (p : Parting) (s : Stage)
    → p.stage ≡ s
    → is_over s ≡ false
    → HasTold p
    → p.hearing ≡ away
    → Nearer p
unfolding steps_left
can_near p starting at h k free = elim (Bool-cases p.stop) [
  | inl on ↦ (_, parts (passes_check p at on), omega (arith, stage_at p starting at))
  | inr off ↦ (
    _,
    parts (tells_check p at off),
    omega (arith, stage_at p starting at, check_left_bound p.place),
  )
]
can_near p joining_check at h k free = joining-Nearer p at k free
can_near p telling_sender at h k free = elim (Bool-cases p.stop_sending) [
  | inl on ↦ (_, parts (passes_sender p at on), omega (arith, stage_at p telling_sender at))
  | inr off ↦ (
    _,
    parts (tells_sender p at off),
    omega (arith, stage_at p telling_sender at, pulse_left_bound p.pulse),
  )
]
can_near p joining_sender at h k free = sender-Nearer p p.pulse refl at k
can_near p parted at h k free = absurd (cc (h))
can_near p broken_off at h k free = absurd (cc (h))

distance_bound : (s : Stage) (c : Place) (b : Pulse) → steps_left s c b ≤ 11
unfolding steps_left
distance_bound starting c b = omega arith
distance_bound joining_check c b = omega (arith, check_left_bound c)
distance_bound telling_sender c b = omega arith
distance_bound joining_sender c b = omega (arith, pulse_left_bound b)
distance_bound parted c b = omega arith
distance_bound broken_off c b = omega arith

over_parted : (s : Stage) → is_over s ≡ true → s ≢ broken_off → s ≡ parted
over_parted parted h f = refl
over_parted broken_off h f = absurd (f refl)
over_parted starting h f = cc (h)
over_parted joining_check h f = cc (h)
over_parted telling_sender h f = cc (h)
over_parted joining_sender h f = cc (h)

-- Let `disconnectAsync` be called from outside of the client's threads. In every interleaving: the end of
-- the call is at most eleven steps away, no step of any thread takes it further away, and until the call
-- is over, and unless a heartbeat is just being handled, some thread can make a step that brings it
-- nearer. Where the call is over, it has completed, and the client is not connected.
pub Steps-Nears :
    {p q : Parting}
    → Steps p q
    → p.caller ≡ outside
    → p.stage ≡ starting
    → (distance q ≤ 11)
      × ((r : Parting) → Step q r → distance r ≤ distance q)
      × (is_over q.stage ≡ false
          → q.hearing ≡ away
          → (r : Parting) × Step q r × (distance r < distance q))
      × (is_over q.stage ≡ true → (q.stage ≡ parted) × (q.connected ≡ false))
Steps-Nears {p} {q} steps c at =
    let k = Steps-HasTold steps c at in
    (
      distance_bound q.stage q.place q.pulse,
      λ r s. Step_no_further s k,
      λ h free. can_near q q.stage refl h k free,
      λ over. let e = over_parted q.stage over k.unbroken in (e, k.gone e),
    )
