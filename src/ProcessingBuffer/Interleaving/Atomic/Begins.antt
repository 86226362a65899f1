-- ===== src/ProcessingBuffer/Interleaving/Atomic/Begins.antt =====
-- A round that begins and a chunk that arrives in ProcessingBuffer.cpp, beside the atomic ones.
use parlo_plus_plus.Common.{
  ℕ, ◌≤◌, ◌≡◌, refl, sym, ap, ◌∙◌, Bool, true, false, List, [], ◌∷◌, ◌++◌, none, some, Result, ok,
  throws, if◌then◌else◌, ◌&&◌, leb, length, is_empty,
}
use parlo_plus_plus.Packet.{Packet, max_packet_size, tcp_packet}
use parlo_plus_plus.ProcessingBuffer.{
  Buffer, continues, body_size, read_header, hand_over, take_packet, process_body, header_due,
  process_round, Event, received, round, Thread, after_round, step, run, start,
}
use parlo_plus_plus.ProcessingBuffer.Tracking.{step_received, step_round}
use parlo_plus_plus.ProcessingBuffer.Stream.{run-append}
use parlo_plus_plus.ProcessingBuffer.Interleaving.{testing, header, holds_mutex, is_dead, Machine}
use parlo_plus_plus.ProcessingBuffer.Interleaving.Atomic.{blank, finish, complete, settled}
use parlo_plus_plus.ProcessingBuffer.Interleaving.Atomic.Refines.{
  Follows, held_alone, settled_alone,
}
use parlo_plus_plus.ProcessingBuffer.Interleaving.Atomic.Moves.{complete_quiet}

blank_alive : (t : Thread) → t.terminated ≡ false → blank t ≡ t
unfolding blank
blank_alive t alive = rw alive refl

pub blank_told :
    (t : Thread) → ((blank t).delivered ≡ t.delivered) × ((blank t).terminated ≡ t.terminated)
unfolding blank
blank_told t = of t.terminated refl
  where
    of :
        (d : Bool)
        → t.terminated ≡ d
        → ((blank t).delivered ≡ t.delivered) × ((blank t).terminated ≡ t.terminated)
    of false at = rw at (refl, refl)
    of true at = rw at (refl, refl)

-- A thread that is alive is the one that its blank tells.
pub blank-cancel : (t u : Thread) → t.terminated ≡ false → t ≡ blank u → t ≡ u
unfolding blank
blank-cancel t u alive e = of u.terminated refl
  where
    of : (d : Bool) → u.terminated ≡ d → t ≡ u
    of false at = e ∙ blank_alive u at
    of true at = absurd (cc (alive, ap (λ (r : Thread). r.terminated) e, (blank_told u).1, at))

hand_over-finish :
    (t : Thread) (b : Buffer) (r : Result Packet)
    → t.terminated ≡ false
    → finish t.delivered (hand_over b r) ≡ blank (after_round t (hand_over b r))
unfolding finish blank hand_over after_round
hand_over-finish t b (ok p) alive = rw alive refl
hand_over-finish t b (throws e) alive = refl

process_body-finish :
    (t : Thread) (b : Buffer)
    → t.terminated ≡ false
    → finish t.delivered (process_body b) ≡ blank (after_round t (process_body b))
unfolding process_body take_packet
process_body-finish t b alive =
    of (b.has_read_header && leb (body_size b) (length b.internal_buffer))
  where
    of :
        (enough : Bool)
        → finish t.delivered (if enough then take_packet b else continues b none)
          ≡ blank (after_round t (if enough then take_packet b else continues b none))
    of true = hand_over-finish t _ (tcp_packet _ _ _) alive
    of false = unfold finish in unfold blank in unfold after_round in rw alive refl

-- A round that is about to begin ends as the atomic one.
process_round-finish :
    (t : Thread)
    → t.terminated ≡ false
    → t.buffer.stop_processing ≡ false
    → is_empty t.buffer.internal_buffer ≡ false
    → complete header t ≡ blank (step t round)
unfolding complete
process_round-finish t alive running some_bytes =
    let due = if header_due t.buffer then read_header t.buffer else t.buffer in
    let e : process_round t.buffer ≡ process_body due =
      unfold process_round in rw (running, some_bytes) refl in
    process_body-finish t due alive ∙ ap blank (sym (step_round t (process_body due) alive e))

run_snoc : (t : Thread) (es : List Event) (e : Event) → run t (es ++ (e ∷ [])) ≡ step (run t es) e
run_snoc t es e = run-append t es (e ∷ []) ∙ unfold run in refl

pub begins-Follows :
    {es : List Event} (m : Machine)
    → m.place ≡ testing
    → m.stop ≡ false
    → Follows es m
    → Follows (es ++ (round ∷ [])) (record m { place = header })
begins-Follows {es} m at off k =
    let alone = held_alone m k (ap holds_mutex at) in
    let alive : m.terminated ≡ false = k.alive ∙ ap is_dead at in
    let there : m.thread ≡ run start es = blank-cancel m.thread (run start es) alive (
      sym (
        settled_alone m.adder m.place m.thread alone
        ∙ ap (λ p. complete p m.thread) at
        ∙ unfold complete in refl)
      ∙ k.same) in
    record {
      same =
          settled_alone m.adder header m.thread alone
          ∙ process_round-finish m.thread alive k.unstopped (k.ready at off)
          ∙ ap (λ t. blank (step t round)) there
          ∙ ap blank (sym (run_snoc start es round));
      apart = λ rest e. absurd (cc (e, alone));
      alive = alive;
      ready = λ e. absurd (cc (e));
      unstopped = k.unstopped;
    }

pub enters-Follows :
    {es : List Event} (m : Machine) (bytes : List ℕ)
    → m.adder ≡ none
    → holds_mutex m.place ≡ false
    → is_dead m.place ≡ false
    → length bytes ≤ max_packet_size
    → Follows es m
    → Follows (es ++ (received bytes ∷ [])) (record m { adder = some bytes })
enters-Follows {es} m bytes alone free living h k =
    let alive : m.terminated ≡ false = k.alive ∙ living in
    let there : m.thread ≡ run start es = blank-cancel m.thread (run start es) alive (
      sym
        (settled_alone m.adder m.place m.thread alone ∙ complete_quiet m.place m.thread free living)
      ∙ k.same) in
    let stepped = step_received m.thread bytes alive h in
    record {
      same =
          unfold settled in
          sym (blank_alive _ alive)
          ∙ ap blank (sym stepped)
          ∙ ap (λ t. blank (step t (received bytes))) there
          ∙ ap blank (sym (run_snoc start es (received bytes)));
      apart = λ rest e. (free, living);
      alive = k.alive;
      ready = λ e. absurd (cc (free, ap holds_mutex e));
      unstopped = k.unstopped;
    }
