-- ===== src/Sync/Tests.antt =====
-- Runs of `block_on`, and uses of its theorems.
use orpc_prototype.Prelude.{◌≡◌, refl, true, false, [], ◌∷◌, ◌++◌, done}
use orpc_prototype.Sync.{
  Tasks, running, blocking, update, add_task, block_on, settle, prepare_each, finish_waits,
  remove_task, retry,
}
use orpc_prototype.Sync.BlockOn.{entered, none_ready, block_on-returns}

abbrev tasks : Tasks
tasks t = running

-- Three blockers, of which the second is ready: the task 7 stays in the list of the first.
retry_test :
    block_on false 7 (false ∷ true ∷ []) tasks ((3 ∷ []) ∷ (4 ∷ []) ∷ [] ∷ [])
    ≡ done (retry, update tasks 7 blocking, (3 ∷ 7 ∷ []) ∷ (4 ∷ []) ∷ [] ∷ [])
unfolding block_on settle prepare_each finish_waits remove_task add_task
retry_test = refl

block_on-returns_example :
    block_on false 7
      (none_ready ((3 ∷ []) ∷ []) ++ (true ∷ []))
      tasks
      (((3 ∷ []) ∷ []) ++ ((4 ∷ []) ∷ [] ∷ []))
    ≡ done (retry, update tasks 7 blocking, entered 7 ((3 ∷ []) ∷ []) ++ ((4 ∷ []) ∷ [] ∷ []))
block_on-returns_example = block_on-returns 7 tasks ((3 ∷ []) ∷ []) (4 ∷ []) ([] ∷ []) [] refl
