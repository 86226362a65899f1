-- ===== src/NetworkClient/Race/Told.antt =====
-- What a call of the handler of lost connections says of the two threads of NetworkClient.cpp.
use parlo_plus_plus.Common.{
  ℕ, zero, suc, ◌+◌, ◌-◌, ◌<◌, ◌≡◌, ◌≢◌, refl, sym, ap, ◌∙◌, ◌⊎◌, inl, inr, Bool, List, [], ◌∷◌,
  ◌++◌, append_assoc, arith,
}
use parlo_plus_plus.NetworkClient.MissedHeartbeats.{copies}
use parlo_plus_plus.NetworkClient.Race.{
  testing, asleep, counted, doomed, dead, finished, Threads, Act, counts, resets, CheckStep,
  goes_on, ends, wakes, spares, dooms, kills, tells, keeps_quiet, HearStep, revives, forgives,
  leaves, Runs, here, checked, heard, stopped, begun,
}

-- Seven counts in a row with no reset in between.
pub record HasSeven (h : List Act) : Type 0 where
  pub later : List Act
  pub earlier : List Act
  pub whole : h ≡ later ++ (copies 7 counts ++ earlier)

-- The check is about to say, or has said, that the connection is lost.
abbrev pub IsLost : Threads → Type 0
IsLost r = (r.place ≡ doomed) ⊎ ((r.place ≡ dead) ⊎ (0 < r.told))

pub record Traced (r : Threads) (h : List Act) : Type 0 where
  pub before : List Act
  pub trailing : h ≡ copies r.missed counts ++ before
  pub seven : IsLost r → HasSeven h

HasSeven-cons : (a : Act) (h : List Act) → HasSeven h → HasSeven (a ∷ h)
HasSeven-cons a h k = record {
  later = a ∷ k.later;
  earlier = k.earlier;
  whole = ap (◌∷◌ a) k.whole;
}

copies-add : (n m : ℕ) → copies (n + m) counts ≡ copies n counts ++ copies m counts
copies-add zero m = let e : zero + m ≡ m = omega arith in ap (λ k. copies k counts) e
copies-add (suc n) m =
    let e : suc n + m ≡ suc (n + m) = omega arith in
    ap (λ k. copies k counts) e ∙ ap (◌∷◌ counts) (copies-add n m)

many-HasSeven : (m : ℕ) (before : List Act) → 6 < m → HasSeven (copies m counts ++ before)
many-HasSeven m before h =
    let e : m ≡ 7 + (m - 7) = omega arith in
    record {
      later = [];
      earlier = copies (m - 7) counts ++ before;
      whole =
          ap (λ k. copies k counts ++ before) e
          ∙ ap (λ l. l ++ before) (copies-add 7 (m - 7))
          ∙ append_assoc (copies 7 counts) (copies (m - 7) counts) before;
    }

-- Where a step leaves the check neither doomed nor dead, and tells nobody, no loss is new.
IsLost-before :
    (r t : Threads) → t.place ≢ doomed → t.place ≢ dead → t.told ≡ r.told → IsLost t → IsLost r
IsLost-before r t f g e (inl at) = absurd (f at)
IsLost-before r t f g e (inr (inl at)) = absurd (g at)
IsLost-before r t f g e (inr (inr some_told)) = inr (inr (omega (arith, e, some_told)))

CheckStep-Traced :
    {r t : Threads} {acts h : List Act} → CheckStep r acts t → Traced r h → Traced t (acts ++ h)
CheckStep-Traced (goes_on r e off) k = record {
  before = k.before;
  trailing = k.trailing;
  seven = λ l.
      k.seven (IsLost-before r (record r { place = asleep }) (λ f. cc (f)) (λ f. cc (f)) refl l);
}
CheckStep-Traced (ends r e on) k = record {
  before = k.before;
  trailing = k.trailing;
  seven = λ l.
      k.seven (IsLost-before r (record r { place = finished }) (λ f. cc (f)) (λ f. cc (f)) refl l);
}
CheckStep-Traced (wakes r e free) k =
    let next : r.missed + 1 ≡ suc r.missed = omega arith in
    let more : copies (r.missed + 1) counts ≡ counts ∷ copies r.missed counts =
      ap (λ n. copies n counts) next in
    let t : Threads = record r { place = counted; missed = r.missed + 1 } in
    record {
      before = k.before;
      trailing = ap (◌∷◌ counts) k.trailing ∙ ap (λ l. l ++ k.before) (sym more);
      seven = λ l.
          HasSeven-cons counts _ (k.seven (IsLost-before r t (λ f. cc (f)) (λ f. cc (f)) refl l));
    }
CheckStep-Traced (spares r e few) k = record {
  before = k.before;
  trailing = k.trailing;
  seven = λ l.
      k.seven (IsLost-before r (record r { place = testing }) (λ f. cc (f)) (λ f. cc (f)) refl l);
}
CheckStep-Traced (dooms r e many) k = record {
  before = k.before;
  trailing = k.trailing;
  seven = λ l. rw k.trailing (many-HasSeven r.missed k.before many);
}
CheckStep-Traced (kills r e free) k = record {
  before = k.before;
  trailing = k.trailing;
  seven = λ l. k.seven (inl e);
}
CheckStep-Traced (tells r e on) k = record {
  before = k.before;
  trailing = k.trailing;
  seven = λ l. k.seven (inr (inl e));
}
CheckStep-Traced (keeps_quiet r e off) k = record {
  before = k.before;
  trailing = k.trailing;
  seven = λ l. k.seven (inr (inl e));
}

HearStep-Traced :
    {r t : Threads} {acts h : List Act} → HearStep r acts t → Traced r h → Traced t (acts ++ h)
HearStep-Traced (revives r e) k = record {
  before = k.before;
  trailing = k.trailing;
  seven = λ l. k.seven l;
}
HearStep-Traced {h = h} (forgives r e) k = record {
  before = resets ∷ h;
  trailing = refl;
  seven = λ l. HasSeven-cons resets h (k.seven l);
}
HearStep-Traced (leaves r e) k = record {
  before = k.before;
  trailing = k.trailing;
  seven = λ l. k.seven l;
}

Runs-Traced : {r t : Threads} {h : List Act} → Traced r [] → Runs r h t → Traced t h
Runs-Traced k here = k
Runs-Traced k (checked runs step) = CheckStep-Traced step (Runs-Traced k runs)
Runs-Traced k (heard runs step) = HearStep-Traced step (Runs-Traced k runs)
Runs-Traced k (stopped runs) =
    let l = Runs-Traced k runs in
    record { before = l.before; trailing = l.trailing; seven = λ m. l.seven m }

-- However the steps of the check, of heartbeats and the order to stop come after one another from the
-- beginning of the check, the user has been told of a lost connection only if at some time there were
-- seven counts in a row with no reset in between.
pub told-HasSeven :
    (handled : Bool) (h : List Act) (r : Threads)
    → Runs (begun handled) h r
    → 0 < r.told
    → HasSeven h
told-HasSeven handled h r runs some_told =
    (Runs-Traced
        (record {
          before = [];
          trailing = refl;
          seven = λ l. elim l [
            | inl e ↦ absurd (cc (e))
            | inr (inl e) ↦ absurd (cc (e))
            | inr (inr e) ↦ absurd (omega (arith, e))
          ];
        })
        runs).seven
      (inr (inr some_told))
