-- ===== src/BlockingQueue/Waiting.antt =====
-- The condition variables of BlockingQueue.h: calls from any number of threads, of which some wait. A
-- step is what one call does while it holds the mutex, its notification included. `pop` is the call
-- `queue.pop()`, which `std::deque` does not have.
pub mod Wakeups
mod Tests
use parlo_plus_plus.Common.{ℕ, suc, ◌+◌, ◌≡◌, Bool, true, List, [], ◌∷◌, ◌++◌, Option, none, some}
use parlo_plus_plus.BlockingQueue.{BlockingQueue, add, take_item, try_take, take_front}

-- The queue with the calls of `add` that are blocked, by their items, and those that have been woken and
-- are to take the mutex again; and the number of the calls of `take` that are blocked and of those
-- that have been woken.
pub record Crowd {ℓ} (A : Type ℓ) : Type ℓ where
  pub left : BlockingQueue A
  pub adding : List A
  pub retrying : List A
  pub taking : ℕ
  pub retaking : ℕ

-- `notFull.notify_one()` wakes one of the blocked calls, any one, if there is one.
pub data NotFull {ℓ} {A : Type ℓ} : Crowd A → Crowd A → Type ℓ where
  not_full_unheard : (c : Crowd A) → c.adding ≡ [] → NotFull c c
  not_full_heard :
      (c : Crowd A) (front : List A) (item : A) (back : List A)
      → c.adding ≡ front ++ item ∷ back
      → NotFull c (record c { adding = front ++ back; retrying = item ∷ c.retrying })

-- `notEmpty.notify_one()`
pub data NotEmpty {ℓ} {A : Type ℓ} : Crowd A → Crowd A → Type ℓ where
  not_empty_unheard : (c : Crowd A) → c.taking ≡ 0 → NotEmpty c c
  not_empty_heard :
      (c : Crowd A) (n : ℕ)
      → c.taking ≡ suc n
      → NotEmpty c (record c { taking = n; retaking = c.retaking + 1 })

-- A step of a call of `add`: a new one, or one that has been woken, with a notification or without.
pub data AddStep {ℓ} {A : Type ℓ} : Crowd A → Crowd A → Type ℓ where
  adds :
      {c d : Crowd A} (item : A) (q : BlockingQueue A)
      → add item c.left ≡ some q
      → NotEmpty (record c { left = q }) d
      → AddStep c d
  waits :
      {c : Crowd A} (item : A)
      → add item c.left ≡ none
      → AddStep c (record c { adding = item ∷ c.adding })
  adds_at_last :
      {c d : Crowd A} (front : List A) (item : A) (back : List A) (q : BlockingQueue A)
      → c.retrying ≡ front ++ item ∷ back
      → add item c.left ≡ some q
      → NotEmpty (record c { left = q; retrying = front ++ back }) d
      → AddStep c d
  waits_again :
      {c : Crowd A} (front : List A) (item : A) (back : List A)
      → c.retrying ≡ front ++ item ∷ back
      → add item c.left ≡ none
      → AddStep c (record c { adding = item ∷ c.adding; retrying = front ++ back })
  wakes_unnotified :
      {c : Crowd A} (front : List A) (item : A) (back : List A)
      → c.adding ≡ front ++ item ∷ back
      → AddStep c (record c { adding = front ++ back; retrying = item ∷ c.retrying })

-- A step of a call of one of the methods that take.
pub data TakeStep {ℓ} {A : Type ℓ} (same : Discrete A) (pop : List A → List A)
    : Crowd A → Crowd A → Type ℓ where
  takes_item :
      {c d : Crowd A} (item : A) (q : BlockingQueue A)
      → take_item same item c.left ≡ (true, q)
      → NotFull (record c { left = q }) d
      → TakeStep same pop c d
  tries :
      {c d : Crowd A} (item : A) (q : BlockingQueue A)
      → try_take pop c.left ≡ (some item, q)
      → NotFull (record c { left = q }) d
      → TakeStep same pop c d
  takes :
      {c d : Crowd A} (item : A) (q : BlockingQueue A)
      → take_front pop c.left ≡ some (item, q)
      → NotFull (record c { left = q }) d
      → TakeStep same pop c d
  waits_for_item :
      {c : Crowd A}
      → take_front pop c.left ≡ none
      → TakeStep same pop c (record c { taking = c.taking + 1 })
  takes_at_last :
      {c d : Crowd A} (n : ℕ) (item : A) (q : BlockingQueue A)
      → c.retaking ≡ suc n
      → take_front pop c.left ≡ some (item, q)
      → NotFull (record c { left = q; retaking = n }) d
      → TakeStep same pop c d
  waits_for_item_again :
      {c : Crowd A} (n : ℕ)
      → c.retaking ≡ suc n
      → take_front pop c.left ≡ none
      → TakeStep same pop c (record c { taking = c.taking + 1; retaking = n })
  wakes_for_nothing :
      {c : Crowd A} (n : ℕ)
      → c.taking ≡ suc n
      → TakeStep same pop c (record c { taking = n; retaking = c.retaking + 1 })

-- Any calls, from a queue that no call is waiting for.
pub data Crowds {ℓ} {A : Type ℓ} (same : Discrete A) (pop : List A → List A) (q : BlockingQueue A)
    : Crowd A → Type ℓ where
  here :
      Crowds same pop q (record { left = q; adding = []; retrying = []; taking = 0; retaking = 0 })
  added : {c d : Crowd A} → Crowds same pop q c → AddStep c d → Crowds same pop q d
  taken_from : {c d : Crowd A} → Crowds same pop q c → TakeStep same pop c d → Crowds same pop q d
