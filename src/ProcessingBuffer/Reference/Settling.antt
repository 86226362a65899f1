-- ===== src/ProcessingBuffer/Reference/Settling.antt =====
-- Runs of ProcessingBuffer.cpp that are given enough rounds come to what the reference decoder says.
use parlo_plus_plus.Common.{
  ℕ, zero, suc, ◌-◌, ◌^◌, ◌≤◌, ◌<◌, ◌≡◌, refl, sym, ap, ◌∙◌, ◌⊎◌, inl, inr, Bool, true, false, List,
  [], ◌∷◌, ◌++◌, append-nil, none, some, length, arith,
}
use parlo_plus_plus.Packet.{Packet}
use parlo_plus_plus.ProcessingBuffer.{
  Round, stops, waits, continues, terminates, Event, round, Thread, after_round, process_round,
  step, run, start,
}
use parlo_plus_plus.ProcessingBuffer.Tracking.{arrived, FitsChunks, rounds, step_round, step_dead}
use parlo_plus_plus.ProcessingBuffer.Stream.{run-append}
use parlo_plus_plus.ProcessingBuffer.Reference.{reference}
use parlo_plus_plus.ProcessingBuffer.Reference.Steps.{
  expect, IsSteady, Agrees, process_round-Agrees, expect_nothing,
}
use parlo_plus_plus.ProcessingBuffer.Reference.Agreement.{
  Follows, ended, goes_on, run-Follows, start-Follows,
}
use parlo_plus_plus.ProcessingBuffer.Validity.{run-IsValid, start-IsValid}

-- A run whose buffer can hand over nothing more.
abbrev IsSettled : Thread → Type 0
IsSettled t =
    (t.terminated ≡ true)
    ⊎ ((t.terminated ≡ false) × IsSteady t.buffer × (expect t.buffer [] ≡ ([], false)))

-- A run with at most so many bytes in its buffer.
abbrev HasLeft : ℕ → Thread → Type 0
HasLeft n t = (t.terminated ≡ false) × IsSteady t.buffer × (length t.buffer.internal_buffer ≤ n)

after_round-IsSettled :
    (t : Thread) (r : Round)
    → t.terminated ≡ false
    → IsSteady t.buffer
    → expect t.buffer [] ≡ ([], false)
    → Agrees t.buffer [] r
    → IsSettled (after_round t r)
unfolding after_round
after_round-IsSettled t stops alive s e a = elim a [ ]
after_round-IsSettled t waits alive s e a = inr (alive, s, e)
after_round-IsSettled t (continues b none) alive s e (s', same, _, _) = inr (alive, s', same ∙ e)
after_round-IsSettled t (continues b (some p)) alive s e (s', same, _) =
    absurd (omega (arith, ap (λ (o : List Packet × Bool). length o.0) (sym e ∙ same)))
after_round-IsSettled t (terminates x) alive s e a = inl refl

round-IsSettled : (t : Thread) → IsSettled t → IsSettled (step t round)
round-IsSettled t (inl dead) = rw (step_dead t round dead) (inl dead)
round-IsSettled t (inr (alive, s, e)) = rw (step_round t (process_round t.buffer) alive refl) (
    after_round-IsSettled t (process_round t.buffer) alive s e (process_round-Agrees t.buffer [] s))

rounds-IsSettled : (n : ℕ) (t : Thread) → IsSettled t → IsSettled (run t (rounds n))
unfolding run rounds
rounds-IsSettled zero t k = k
rounds-IsSettled (suc n) t k = rounds-IsSettled n (step t round) (round-IsSettled t k)

after_round-HasLeft :
    (n : ℕ) (t : Thread) (r : Round)
    → HasLeft (suc n) t
    → Agrees t.buffer [] r
    → IsSettled (after_round t r) ⊎ HasLeft n (after_round t r)
unfolding after_round
after_round-HasLeft n t stops k a = elim a [ ]
after_round-HasLeft n t waits (alive, s, few) a = inl (inr (alive, s, a refl))
after_round-HasLeft n t (continues b none) (alive, s, few) (s', same, fewer, more) =
    elim (more refl) [
      | inl over ↦ inl (inr (alive, s', same ∙ over))
      | inr less ↦ inr (alive, s', omega arith)
    ]
after_round-HasLeft n t (continues b (some p)) (alive, s, few) (s', same, less) =
    inr (alive, s', omega arith)
after_round-HasLeft n t (terminates x) k a = inl (inl refl)

round-HasLeft :
    (n : ℕ) (t : Thread) → HasLeft (suc n) t → IsSettled (step t round) ⊎ HasLeft n (step t round)
round-HasLeft n t k =
    rw (step_round t (process_round t.buffer) k.0 refl)
      (after_round-HasLeft n t (process_round t.buffer) k (process_round-Agrees t.buffer [] k.1))

-- As many rounds as bytes settle a run.
rounds-settle : (n : ℕ) (t : Thread) → HasLeft n t → IsSettled (run t (rounds n))
unfolding run rounds
rounds-settle zero t (alive, s, few) =
    inr (alive, s, expect_nothing t.buffer s (empty t.buffer.internal_buffer few))
  where
    empty : (q : List ℕ) → length q ≤ 0 → q ≡ []
    empty [] h = refl
    empty (x ∷ q) h = absurd (omega arith)
rounds-settle (suc n) t k = elim (round-HasLeft n t k) [
  | inl settled ↦ rounds-IsSettled n (step t round) settled
  | inr left ↦ rounds-settle n (step t round) left
]

IsSettled-target :
    (t : Thread) (target : List Packet × Bool)
    → IsSettled t
    → Follows t [] target
    → (t.delivered, t.terminated) ≡ target
IsSettled-target t target (inl dead) (ended _ e) = rw dead e
IsSettled-target t target (inl dead) (goes_on alive s few e) = cc (dead)
IsSettled-target t target (inr (alive, s, over)) (ended dead e) = cc (dead, alive)
IsSettled-target t target (inr (alive, s, over)) (goes_on _ _ few e) =
    rw (alive, ← append-nil t.delivered) (rw over at e)

rounds-FitsChunks : (n : ℕ) → FitsChunks (rounds n)
unfolding rounds
rounds-FitsChunks zero = tt
rounds-FitsChunks (suc n) = rounds-FitsChunks n

arrived-rounds : (n : ℕ) → arrived (rounds n) ≡ []
unfolding arrived rounds
arrived-rounds zero = refl
arrived-rounds (suc n) = arrived-rounds n

settle :
    (n : ℕ) (t : Thread) (target : List Packet × Bool)
    → (t.terminated ≡ false → length t.buffer.internal_buffer ≤ n)
    → Follows t [] target
    → IsSettled (run t (rounds n))
settle n t target few (ended dead e) = rounds-IsSettled n t (inl dead)
settle n t target few (goes_on alive s _ e) = rounds-settle n t (alive, s, few alive)

-- Let any bytes arrive, well-formed or not, fewer than 2 ^ 64 - 4 in all, in any chunks of at most
-- 1024 bytes and with any rounds of the processing thread in between. After as many further rounds
-- as there were bytes, the handler has been given exactly the packets of the reference decoder on
-- all the bytes together, in order, and the thread has ended the process exactly if the decoder says
-- so.
pub run-reference :
    (es : List Event) (n : ℕ)
    → FitsChunks es
    → length (arrived es) < 2 ^ 64 - 4
    → length (arrived es) ≤ n
    → let t = run start (es ++ rounds n) in (t.delivered, t.terminated) ≡ reference (arrived es)
run-reference es n fits small enough =
    let followed =
      run-Follows es start [] (reference (arrived es)) fits
        (rw (append-nil (arrived es)) (start-Follows (arrived es) small)) in
    let held = (run-IsValid 0 start es start-IsValid (omega arith)).bounded.few in
    let settled = settle n (run start es) (reference (arrived es)) (λ _. omega arith) followed in
    let after =
      run-Follows (rounds n) (run start es) [] (reference (arrived es)) (rounds-FitsChunks n)
        (rw (arrived-rounds n) followed) in
    rw (run-append start es (rounds n))
      (IsSettled-target (run (run start es) (rounds n)) (reference (arrived es)) settled after)
