-- ===== src/ProcessingBuffer/Interleaving/Atomic/Refines.antt =====
-- Runs of the interleaved threads of ProcessingBuffer.cpp beside runs of atomic steps.
use parlo_plus_plus.Common.{
  ℕ, ◌≡◌, ◌≢◌, refl, sym, ap, ◌∙◌, true, false, List, [], ◌∷◌, ◌++◌, Option, none, some, is_empty,
}
use parlo_plus_plus.ProcessingBuffer.{Event, Thread, run, start}
use parlo_plus_plus.ProcessingBuffer.Interleaving.{
  Place, testing, header, flag_next, low_next, high_next, body_due, body, handing, sleeping, died,
  holds_mutex, is_dead, Machine, WorkMove, reads_id, no_header, reads_flag, reads_low, reads_high,
  no_body, starts_body, takes, makes, dies, hands,
}
use parlo_plus_plus.ProcessingBuffer.Interleaving.Atomic.{blank, complete, settled}
use parlo_plus_plus.ProcessingBuffer.Interleaving.Atomic.Works.{WorkMove-complete}

-- A machine whose threads, once settled, are where the atomic steps lead.
pub record Follows (es : List Event) (m : Machine) : Type 0 where
  pub same : settled m.adder m.place m.thread ≡ blank (run start es)
  pub apart :
      (rest : List ℕ)
      → m.adder ≡ some rest
      → (holds_mutex m.place ≡ false) × (is_dead m.place ≡ false)
  pub alive : m.terminated ≡ is_dead m.place
  pub ready : m.place ≡ testing → m.stop ≡ false → is_empty m.buffer.internal_buffer ≡ false
  pub unstopped : m.buffer.stop_processing ≡ false

-- What a step of work leaves alone.
record Kept (m n : Machine) : Type 0 where
  held : holds_mutex m.place ≡ true
  living : is_dead m.place ≡ false
  adder : n.adder ≡ m.adder
  dead : m.terminated ≡ false → n.terminated ≡ is_dead n.place
  elsewhere : n.place ≢ testing
  unstopped : n.buffer.stop_processing ≡ m.buffer.stop_processing

kept :
    (m n : Machine) (p q : Place)
    → m.place ≡ p
    → n.place ≡ q
    → holds_mutex p ≡ true
    → is_dead p ≡ false
    → q ≢ testing
    → n.adder ≡ m.adder
    → (m.terminated ≡ false → n.terminated ≡ is_dead q)
    → n.buffer.stop_processing ≡ m.buffer.stop_processing
    → Kept m n
kept m n p q at to h l e a d u = record {
  held = rw at h;
  living = rw at l;
  adder = a;
  dead = λ f. d f ∙ ap is_dead (sym to);
  elsewhere = λ f. e (sym to ∙ f);
  unstopped = u;
}

WorkMove-Kept : {m n : Machine} → WorkMove m n → Kept m n
WorkMove-Kept (reads_id m x xs at due e) =
    kept m _ header flag_next at refl refl refl (λ f. cc (f)) refl (λ f. f) refl
WorkMove-Kept (no_header m at due) =
    kept m _ header body_due at refl refl refl (λ f. cc (f)) refl (λ f. f) refl
WorkMove-Kept (reads_flag m x xs at e) =
    kept m _ flag_next low_next at refl refl refl (λ f. cc (f)) refl (λ f. f) refl
WorkMove-Kept (reads_low m x xs at e) =
    kept m _ low_next (high_next x) at refl refl refl (λ f. cc (f)) refl (λ f. f) refl
WorkMove-Kept (reads_high m low x xs at e) =
    kept m _ (high_next low) body_due at refl refl refl (λ f. cc (f)) refl (λ f. f) refl
WorkMove-Kept (no_body m at due) =
    kept m _ body_due sleeping at refl refl refl (λ f. cc (f)) refl (λ f. f) refl
WorkMove-Kept (starts_body m at due) =
    kept m _ body_due (body []) at refl refl refl (λ f. cc (f)) refl (λ f. f) refl
WorkMove-Kept (takes m done x xs at h e) =
    kept m _ (body done) (body (done ++ (x ∷ []))) at refl refl refl (λ f. cc (f)) refl (λ f. f)
      refl
WorkMove-Kept (makes m done p at h e) =
    kept m _ (body done) (handing p) at refl refl refl (λ f. cc (f)) refl (λ f. f) refl
WorkMove-Kept (dies m done x at h e) =
    kept m _ (body done) died at refl refl refl (λ f. cc (f)) refl (λ f. refl) refl
WorkMove-Kept (hands m p at) =
    kept m _ (handing p) sleeping at refl refl refl (λ f. cc (f)) refl (λ f. f) refl

pub held_alone :
    {es : List Event} (m : Machine) → Follows es m → holds_mutex m.place ≡ true → m.adder ≡ none
held_alone m k h = of m.adder k.apart
  where
    of :
        (a : Option (List ℕ))
        → ((rest : List ℕ)
            → a ≡ some rest
            → (holds_mutex m.place ≡ false) × (is_dead m.place ≡ false))
        → a ≡ none
    of none f = refl
    of (some rest) f = cc (h, (f rest refl).0)

pub settled_alone :
    (a : Option (List ℕ)) (p : Place) (t : Thread) → a ≡ none → settled a p t ≡ complete p t
unfolding settled
settled_alone a p t e = rw e refl

pub WorkMove-Follows :
    {es : List Event} {m n : Machine} → WorkMove m n → Follows es m → Follows es n
WorkMove-Follows {es} {m} {n} w k =
    let f = WorkMove-Kept w in
    let alone = held_alone m k f.held in
    let living : m.terminated ≡ false = k.alive ∙ f.living in
    record {
      same =
          settled_alone n.adder n.place n.thread (f.adder ∙ alone)
          ∙ WorkMove-complete w living
          ∙ sym (settled_alone m.adder m.place m.thread alone)
          ∙ k.same;
      apart = λ rest e. absurd (cc (e, f.adder, alone));
      alive = f.dead living;
      ready = λ e. absurd (f.elsewhere e);
      unstopped = f.unstopped ∙ k.unstopped;
    }
