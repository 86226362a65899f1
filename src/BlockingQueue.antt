-- ===== src/BlockingQueue.antt =====
-- BlockingQueue.h. Each method holds the mutex from end to end, except where it waits, so that it is
-- one step of the model; Waiting has the calls that wait and are woken. The two methods that take
-- the front item call `queue.pop()`, which `std::deque` does not have, so that they do not compile;
-- `pop` is a parameter of theirs.
pub mod Taking
pub mod Runs
pub mod Fifo
pub mod Waiting
mod Tests
use parlo_plus_plus.Common.{
  ℕ, ◌-◌, ◌^◌, ◌≡◌, Bool, true, false, List, [], ◌∷◌, ◌++◌, Option, none, some, if◌then◌else◌, ltb,
  length,
}

pub record BlockingQueue {ℓ} (A : Type ℓ) : Type ℓ where
  pub queue : List A
  pub capacity : ℕ

-- The default capacity is the largest `size_t`.
abbrev pub new_queue {ℓ} : {A : Type ℓ} → BlockingQueue A
new_queue = record { queue = []; capacity = 2 ^ 64 - 1 }

-- `add`: `none` while the call waits, for there is no room.
unfoldable pub add {ℓ} : {A : Type ℓ} → A → BlockingQueue A → Option (BlockingQueue A)
add item q =
    if ltb (length q.queue) q.capacity
    then some (record q { queue = q.queue ++ (item ∷ []) })
    else none

unfoldable pub keep_first {ℓ} : {A : Type ℓ} → A → Option (List A) → Option (List A)
keep_first x none = none
keep_first x (some xs) = some (x ∷ xs)

unfoldable pub past {ℓ} :
    {A : Type ℓ} {x item : A} → Dec (x ≡ item) → List A → Option (List A) → Option (List A)
unfolding keep_first
past (yes same) xs rest = some xs
past {x = x} (no different) xs rest = keep_first x rest

-- `std::find` and `erase`: the items without the first that equals the given one, if there is one.
unfoldable pub find_erase {ℓ} : {A : Type ℓ} → Discrete A → A → List A → Option (List A)
unfolding past
find_erase same item [] = none
find_erase same item (x ∷ xs) = past (same x item) xs (find_erase same item xs)

unfoldable pub taken {ℓ} : {A : Type ℓ} → BlockingQueue A → Option (List A) → Bool × BlockingQueue A
taken q none = (false, q)
taken q (some rest) = (true, record q { queue = rest })

-- `take` of a given item.
unfoldable pub take_item {ℓ} :
    {A : Type ℓ} → Discrete A → A → BlockingQueue A → Bool × BlockingQueue A
unfolding taken find_erase
take_item same item q = taken q (find_erase same item q.queue)

-- The front item, and the queue behind it.
unfoldable pub front_popped {ℓ} :
    {A : Type ℓ} → (List A → List A) → BlockingQueue A → List A → Option A × BlockingQueue A
front_popped pop q [] = (none, q)
front_popped pop q (x ∷ xs) = (some x, record q { queue = pop (x ∷ xs) })

-- `tryTake`
unfoldable pub try_take {ℓ} :
    {A : Type ℓ} → (List A → List A) → BlockingQueue A → Option A × BlockingQueue A
unfolding front_popped
try_take pop q = front_popped pop q q.queue

unfoldable pub unless_empty {ℓ} :
    {A : Type ℓ} → Option A × BlockingQueue A → Option (A × BlockingQueue A)
unless_empty (none, q) = none
unless_empty (some x, q) = some (x, q)

-- `take` of the front item: `none` while the call waits, for there is no item.
unfoldable pub take_front {ℓ} :
    {A : Type ℓ} → (List A → List A) → BlockingQueue A → Option (A × BlockingQueue A)
unfolding front_popped unless_empty
take_front pop q = unless_empty (front_popped pop q q.queue)

unfoldable pub count {ℓ} : {A : Type ℓ} → BlockingQueue A → ℕ
count q = length q.queue

unfoldable pub is_empty {ℓ} : {A : Type ℓ} → BlockingQueue A → Bool
is_empty q = elim q.queue [ [] ↦ true | _ ↦ false ]
