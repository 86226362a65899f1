-- ===== src/NetworkClient/Session/Alive.antt =====
-- The processing thread of a client's buffer while it delivers plain packets only.
use parlo_plus_plus.Common.{
  ℕ, zero, suc, ◌≡◌, refl, subst, inl, inr, false, List, [], ◌∷◌, ◌++◌, All, All-append_front,
  Bool-cases,
}
use parlo_plus_plus.ProcessingBuffer.{
  Event, received, round, Round, stops, waits, continues, terminates, Thread, step, run, listed,
  after_round, process_round,
}
use parlo_plus_plus.ProcessingBuffer.Tracking.{
  step_dead, FitsChunks, rounds, step_received, step_round,
}
use parlo_plus_plus.NetworkClient.Session.{IsPlain}

-- A thread that is alive and has delivered plain packets only.
pub record IsGood (t : Thread) : Type 0 where
  pub alive : t.terminated ≡ false
  pub plain : All IsPlain t.delivered

after_round-IsGood : (t : Thread) (r : Round) → IsGood (after_round t r) → IsGood t
unfolding after_round
after_round-IsGood t stops g = g
after_round-IsGood t waits g = g
after_round-IsGood t (continues b p) g = record {
  alive = g.alive;
  plain = All-append_front IsPlain t.delivered (listed p) g.plain;
}
after_round-IsGood t (terminates e) g = cc (g.alive)

pub step-IsGood : (t : Thread) (e : Event) → FitsChunks (e ∷ []) → IsGood (step t e) → IsGood t
step-IsGood t e h g = elim (Bool-cases t.terminated) [
  | inl dead ↦ subst IsGood (step_dead t e dead) g
  | inr alive ↦ living e h alive g
]
  where
    living : (e : Event) → FitsChunks (e ∷ []) → t.terminated ≡ false → IsGood (step t e) → IsGood t
    living (received bytes) h alive g =
        let k = subst IsGood (step_received t bytes alive h.0) g in
        record { alive = alive; plain = k.plain }
    living round h alive g =
        after_round-IsGood t (process_round t.buffer)
          (subst IsGood (step_round t (process_round t.buffer) alive refl) g)

pub FitsChunks-first : (e : Event) (es : List Event) → FitsChunks (e ∷ es) → FitsChunks (e ∷ [])
FitsChunks-first (received bytes) es h = (h.0, tt)
FitsChunks-first round es h = tt

pub FitsChunks-rest : (e : Event) (es : List Event) → FitsChunks (e ∷ es) → FitsChunks es
FitsChunks-rest (received bytes) es h = h.1
FitsChunks-rest round es h = h

pub FitsChunks-rounds : (es : List Event) (n : ℕ) → FitsChunks es → FitsChunks (es ++ rounds n)
unfolding rounds
FitsChunks-rounds [] zero h = tt
FitsChunks-rounds [] (suc n) h = FitsChunks-rounds [] n h
FitsChunks-rounds (received bytes ∷ es) n h = (h.0, FitsChunks-rounds es n h.1)
FitsChunks-rounds (round ∷ es) n h = FitsChunks-rounds es n h

pub run-IsGood : (es : List Event) (t : Thread) → FitsChunks es → IsGood (run t es) → IsGood t
unfolding run
run-IsGood [] t h g = g
run-IsGood (e ∷ es) t h g =
    step-IsGood t e (FitsChunks-first e es h) (run-IsGood es (step t e) (FitsChunks-rest e es h) g)
