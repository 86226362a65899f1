-- ===== src/BlockingQueue/Waiting/Tests.antt =====
-- Calls of BlockingQueue.h that wait.
use parlo_plus_plus.Common.{ℕ, refl, List, [], ◌∷◌}
use native.Mathlib.Decide.{ℕ_discrete}
use parlo_plus_plus.BlockingQueue.{BlockingQueue, add, take_front, front_popped, unless_empty}
use parlo_plus_plus.BlockingQueue.Waiting.{
  Crowd, not_full_heard, adds, waits, takes, Crowds, here, added, taken_from, not_empty_unheard,
}
use parlo_plus_plus.BlockingQueue.Waiting.Wakeups.{IsServed, Crowds-IsServed}

abbrev one_place : BlockingQueue ℕ
one_place = record { queue = []; capacity = 1 }

abbrev pop_front : List ℕ → List ℕ
pop_front [] = []
pop_front (x ∷ xs) = xs

-- One item is added, two more calls of `add` wait, and a call of `take` wakes one of them.
abbrev crowd : (c : Crowd ℕ) × Crowds ℕ_discrete pop_front one_place c
unfolding add take_front front_popped unless_empty
crowd = (
  _,
  taken_from
      (added (added (added here (adds 5 _ refl (not_empty_unheard _ refl))) (waits 6 refl))
        (waits 7 refl))
      (takes 5 _ refl (not_full_heard _ (7 ∷ []) 6 [] refl)),
)

Crowds-IsServed_example : IsServed crowd.0
Crowds-IsServed_example = Crowds-IsServed ℕ_discrete pop_front (λ a l. refl) crowd.1
