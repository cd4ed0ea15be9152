-- ===== src/Demo/Eviction/Tests.antt =====
-- Runs of the eviction policies, and uses of their theorems.
use orpc_prototype.Prelude.{ℕ, ◌-◌, ◌≡◌, refl, true, List, [], ◌∷◌, ◌++◌}
use orpc_prototype.Demo.Eviction.{
  Policy, select_oldest, Step, select, insert_block, receive, run, step, known, inserted,
  receive_one, after_select, after_insert,
}
use orpc_prototype.Demo.Eviction.Order.{run-order}

abbrev policy : Policy
policy = record { blocks_in_cache = 1 ∷ 2 ∷ []; insertion_oqueue = 3 ∷ [] }

abbrev steps : List Step
steps = select ∷ insert_block 4 ∷ select ∷ receive ∷ select ∷ select ∷ []

-- The fourth selection fails, as the thread has not taken block 4 yet.
run_test :
    run select_oldest true policy steps
    ≡ ((1 ∷ 2 ∷ 3 ∷ [], 4 ∷ []), record { blocks_in_cache = []; insertion_oqueue = 4 ∷ [] })
unfolding run step select_oldest inserted receive_one after_select after_insert
run_test = refl

run-order_example :
    (run select_oldest true policy steps).0.0 ++ known (run select_oldest true policy steps).1
    ≡ (1 ∷ 2 ∷ 3 ∷ []) ++ (run select_oldest true policy steps).0.1
run-order_example = run-order true policy steps

-- A generator that takes the last element.
abbrev last_of : ℕ → ℕ
last_of n = n - 1
