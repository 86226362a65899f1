-- ===== src/ProcessingBuffer/Interleaving/Atomic/Moves.antt =====
-- The steps of ProcessingBuffer.cpp outside the work on a packet, beside atomic steps.
use parlo_plus_plus.Common.{
  ℕ, ◌≡◌, refl, sym, ap, ◌∙◌, ◌⊎◌, inl, inr, false, List, [], ◌∷◌, ◌++◌, append-nil, append_assoc,
  Option, none, some, is_empty,
}
use parlo_plus_plus.ProcessingBuffer.{Event, Thread}
use parlo_plus_plus.ProcessingBuffer.Interleaving.{
  Place, at_loop, locking, checking, blocking, waiting, waking, testing, header, flag_next,
  low_next, high_next, body_due, body, handing, sleeping, finished, died, holds_mutex, is_dead,
  Machine, WaitMove, goes_on, leaves, locks, relocks, finds, finds_nothing, blocks, breaks,
  wakes_up, OtherMove, pushes, unlocks, orders, notifies, notifies_nobody,
}
use parlo_plus_plus.ProcessingBuffer.Interleaving.Atomic.{complete, settled}
use parlo_plus_plus.ProcessingBuffer.Interleaving.Atomic.Refines.{Follows, held_alone}

module _ {es : List Event} (m : Machine) (k : Follows es m) where
  -- The processing thread goes from one place to another with no round under way.
  waits_at :
      (p q : Place)
      → m.place ≡ p
      → ((t : Thread) → complete q t ≡ complete p t)
      → is_dead p ≡ false
      → is_dead q ≡ false
      → (holds_mutex q ≡ false) ⊎ (m.adder ≡ none)
      → (q ≡ testing → m.stop ≡ false → is_empty m.buffer.internal_buffer ≡ false)
      → Follows es (record m { place = q })
  unfolding settled
  waits_at p q at f l l' free ready = record {
    same = same_for m.adder ∙ ap (λ r. settled m.adder r m.thread) (sym at) ∙ k.same;
    apart = λ rest e. (elim free [ inl h ↦ h | inr none_held ↦ absurd (cc (e, none_held)) ], l');
    alive = k.alive ∙ ap is_dead at ∙ l ∙ sym l';
    ready = ready;
    unstopped = k.unstopped;
  }
    where
      same_for : (a : Option (List ℕ)) → settled a q m.thread ≡ settled a p m.thread
      same_for none = f m.thread
      same_for (some rest) = refl

pub WaitMove-Follows :
    {es : List Event} {m n : Machine} → WaitMove m n → Follows es m → Follows es n
unfolding complete
WaitMove-Follows (goes_on m at off) k =
    waits_at m k at_loop locking at (λ t. refl) refl refl (inl refl) (λ e. absurd (cc (e)))
WaitMove-Follows (leaves m at on) k =
    waits_at m k at_loop finished at (λ t. refl) refl refl (inl refl) (λ e. absurd (cc (e)))
WaitMove-Follows (locks m at free) k =
    waits_at m k locking checking at (λ t. refl) refl refl (inr free) (λ e. absurd (cc (e)))
WaitMove-Follows (relocks m at free) k =
    waits_at m k waking checking at (λ t. refl) refl refl (inr free) (λ e. absurd (cc (e)))
WaitMove-Follows (finds m at found) k =
    waits_at m k checking testing at (λ t. refl) refl refl
      (inr (held_alone m k (ap holds_mutex at)))
      (λ e off. elim found [ inl some_bytes ↦ some_bytes | inr on ↦ cc (on, off) ])
WaitMove-Follows (finds_nothing m at nothing off) k =
    waits_at m k checking blocking at (λ t. refl) refl refl
      (inr (held_alone m k (ap holds_mutex at))) (λ e. absurd (cc (e)))
WaitMove-Follows (blocks m at) k =
    waits_at m k blocking waiting at (λ t. refl) refl refl (inl refl) (λ e. absurd (cc (e)))
WaitMove-Follows (breaks m at on) k =
    waits_at m k testing finished at (λ t. refl) refl refl (inl refl) (λ e. absurd (cc (e)))
WaitMove-Follows (wakes_up m at) k =
    waits_at m k sleeping at_loop at (λ t. refl) refl refl (inl refl) (λ e. absurd (cc (e)))

pub spurious-Follows :
    {es : List Event} (m : Machine)
    → m.place ≡ waiting
    → Follows es m
    → Follows es (record m { place = waking })
unfolding complete
spurious-Follows m at k =
    waits_at m k waiting waking at (λ t. refl) refl refl (inl refl) (λ e. absurd (cc (e)))

-- A place without the mutex is one with no round under way.
pub complete_quiet :
    (p : Place) (t : Thread) → holds_mutex p ≡ false → is_dead p ≡ false → complete p t ≡ t
unfolding complete
complete_quiet at_loop t h l = refl
complete_quiet locking t h l = refl
complete_quiet waiting t h l = refl
complete_quiet waking t h l = refl
complete_quiet finished t h l = refl
complete_quiet died t h l = cc (l)
complete_quiet checking t h l = cc (h)
complete_quiet blocking t h l = cc (h)
complete_quiet testing t h l = cc (h)
complete_quiet header t h l = cc (h)
complete_quiet flag_next t h l = cc (h)
complete_quiet low_next t h l = cc (h)
complete_quiet (high_next low) t h l = cc (h)
complete_quiet body_due t h l = cc (h)
complete_quiet (body done) t h l = cc (h)
complete_quiet (handing p) t h l = cc (h)
complete_quiet sleeping t h l = cc (h)

pub dead_place : (p : Place) → (is_dead p ≡ false) ⊎ (p ≡ died)
dead_place died = inr refl
dead_place _ = inl refl

-- Without the mutex, a place tells what the thread tells.
pub complete_told :
    (p : Place) (t : Thread)
    → holds_mutex p ≡ false
    → ((complete p t).delivered ≡ t.delivered) × ((complete p t).terminated ≡ t.terminated)
complete_told p t h = elim (dead_place p) [
  | inl living ↦
      let e = complete_quiet p t h living in
      (ap (λ (r : Thread). r.delivered) e, ap (λ (r : Thread). r.terminated) e)
  | inr at ↦ rw at (unfold complete in (refl, refl))
]

settled_pushes :
    (a : Option (List ℕ)) (x : ℕ) (xs : List ℕ) (p : Place) (t : Thread)
    → a ≡ some (x ∷ xs)
    → settled (some xs) p (record t {
      buffer = record t.buffer { internal_buffer = t.buffer.internal_buffer ++ (x ∷ []) };
    })
      ≡ settled a p t
unfolding settled
settled_pushes a x xs p t e = rw e (
    ap (λ q. record t { buffer = record t.buffer { internal_buffer = q } })
      (append_assoc t.buffer.internal_buffer (x ∷ []) xs))

settled_unlocks :
    (a : Option (List ℕ)) (p : Place) (t : Thread)
    → a ≡ some []
    → complete p t ≡ t
    → settled none p t ≡ settled a p t
unfolding settled
settled_unlocks a p t e quiet = rw e (
    quiet
    ∙ sym (
        ap (λ q. record t { buffer = record t.buffer { internal_buffer = q } })
          (append-nil t.buffer.internal_buffer)))

pub OtherMove-Follows :
    {es : List Event} {m n : Machine} → OtherMove m n → Follows es m → Follows es n
OtherMove-Follows (pushes m x xs at) k =
    let (free, living) = k.apart (x ∷ xs) at in
    record {
      same = settled_pushes m.adder x xs m.place m.thread at ∙ k.same;
      apart = λ rest e. (free, living);
      alive = k.alive;
      ready = λ e. absurd (cc (free, ap holds_mutex e));
      unstopped = k.unstopped;
    }
OtherMove-Follows (unlocks m at) k =
    let (free, living) = k.apart [] at in
    record {
      same =
          settled_unlocks m.adder m.place m.thread at (complete_quiet m.place m.thread free living)
          ∙ k.same;
      apart = λ rest e. absurd (cc (e));
      alive = k.alive;
      ready = k.ready;
      unstopped = k.unstopped;
    }
OtherMove-Follows (orders m off) k = record {
  same = k.same;
  apart = k.apart;
  alive = k.alive;
  ready = λ e off'. cc (off');
  unstopped = k.unstopped;
}
OtherMove-Follows (notifies m n some_left at) k =
    let l = spurious-Follows m at k in
    record {
      same = l.same;
      apart = l.apart;
      alive = l.alive;
      ready = l.ready;
      unstopped = l.unstopped;
    }
OtherMove-Follows (notifies_nobody m n some_left away) k = record {
  same = k.same;
  apart = k.apart;
  alive = k.alive;
  ready = k.ready;
  unstopped = k.unstopped;
}
