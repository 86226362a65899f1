-- ===== src/BlockingQueue/Tests.antt =====
-- Runs of BlockingQueue.h.
use parlo_plus_plus.Common.{ℕ, ◌≤◌, ◌≡◌, refl, length, List, [], ◌∷◌, ◌++◌, arith}
use mathlib.Core.List.Sublist
use native.Mathlib.Decide.{ℕ_discrete}
use parlo_plus_plus.BlockingQueue.{BlockingQueue}
use parlo_plus_plus.BlockingQueue.Fifo.{Call, puts, gets, tries, exchange, exchange_fifo}
use parlo_plus_plus.BlockingQueue.Runs.{
  Operation, adds, takes, run_calls, offered, InOrder, run_calls-InOrder,
}

abbrev three : BlockingQueue ℕ
three = record { queue = 5 ∷ 7 ∷ 5 ∷ []; capacity = 4 }

abbrev calls : List (Operation ℕ)
calls = adds 9 ∷ adds 8 ∷ takes 5 ∷ adds 7 ∷ []

three-InOrder : InOrder three.queue three
three-InOrder = record { sublist = Sublist.refl three.queue; bounded = omega arith }

run_calls-InOrder_example :
    InOrder (three.queue ++ offered calls) (run_calls ℕ_discrete calls three)
run_calls-InOrder_example = run_calls-InOrder ℕ_discrete calls three.queue three three-InOrder

abbrev pop_front : List ℕ → List ℕ
pop_front [] = []
pop_front (x ∷ xs) = xs

abbrev trade : List (Call ℕ)
trade = puts 9 ∷ gets ∷ puts 8 ∷ tries ∷ gets ∷ gets ∷ gets ∷ []

exchange_fifo_example :
    let x = exchange pop_front trade (record { left = three; added = []; given = [] }) in
    (x.given ++ x.left.queue ≡ three.queue ++ x.added) × (length x.left.queue ≤ x.left.capacity)
exchange_fifo_example = exchange_fifo pop_front trade three (λ a l. refl) (omega arith)
