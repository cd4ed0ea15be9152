-- ===== src/Sync.antt =====
-- orpc/src/sync: tasks and their states, the wait lists of blockers, and one call of `block_on`
-- as the calling task runs it. `finished` is the end of a loop, and `spinning t` that it goes round
-- for as long as task `t` is in the state `Blocking`, which only `t` itself can leave.
pub mod WaitList
pub mod BlockOn
pub mod Select
pub mod Wakeup
pub mod Mutex
mod Tests
use orpc_prototype.Prelude.{
  ℕ, zero, suc, ◌+◌, Bool, false, ◌||◌, none, some, List, [], ◌∷◌, ◌++◌, Outcome, done, panic,
  assertion_failed, ◌>>=◌, ◌==◌, if◌then◌else◌, get_elem?, set,
}

pub data TaskState : Type 0 where
  running blocking blocked : TaskState

-- The states of all tasks; `Task::current` enters a new task as running.
abbrev pub Tasks : Type 0
Tasks = ℕ → TaskState

abbrev pub update {ℓ} : {A : Type ℓ} → (ℕ → A) → ℕ → A → ℕ → A
update f i a j = if i == j then a else f j

pub data Loop {ℓ} (A : Type ℓ) : Type ℓ where
  finished : A → Loop A
  spinning : ℕ → Loop A

-- `Task::unpark`
unfoldable pub unpark : Tasks → ℕ → Loop Tasks
unpark tasks t = elim (tasks t) [ blocking ↦ spinning t | _ ↦ finished (update tasks t running) ]

-- The loops of `wake_all` and of `ServerBase::abort` over a list of tasks.
unfoldable pub unpark_each : Tasks → List ℕ → Loop Tasks
unpark_each tasks [] = finished tasks
unpark_each tasks (t ∷ ts) = elim (unpark tasks t) [
  | spinning u ↦ spinning u
  | finished tasks' ↦ unpark_each tasks' ts
]

abbrev pub contains : List ℕ → ℕ → Bool
contains [] t = false
contains (u ∷ us) t = u == t || contains us t

-- `TaskList::add_task`
unfoldable pub add_task : List ℕ → ℕ → List ℕ
add_task tasks t = if contains tasks t then tasks else tasks ++ (t ∷ [])

-- `TaskList::remove_task`: the first entry of the task.
unfoldable pub remove_task : List ℕ → ℕ → List ℕ
remove_task [] t = []
remove_task (u ∷ us) t = if u == t then us else u ∷ remove_task us t

-- `TaskList::wake_all`: the list is taken before its tasks are unparked.
unfoldable pub wake_all : Tasks → List ℕ → Loop Tasks × List ℕ
unfolding unpark_each
wake_all tasks waiting = (unpark_each tasks waiting, [])

-- How `block_on` ends, or that it parks the task.
pub data Blocked : Type 0 where
  retry parked aborted : Blocked

-- The wait list of a blocker. The blockers of one call have lists of their own here; Sync/Wakeup
-- has handles that share a list.
abbrev pub queue_at : List (List ℕ) → ℕ → List ℕ
queue_at lists i = elim (get_elem? lists i) [ none ↦ [] | some l ↦ l ]

-- The loop `for _ in 0..=i`, which goes `n` times and names `blockers[i]` each time.
unfoldable pub finish_waits : ℕ → ℕ → ℕ → List (List ℕ) → List (List ℕ)
unfolding remove_task
finish_waits zero i t lists = lists
finish_waits (suc n) i t lists = finish_waits n i t (set lists i (remove_task (queue_at lists i) t))

-- The loop of `block_on` from blocker `i` on. The list says what `should_try` of each answers when
-- it is asked.
unfoldable pub prepare_each : ℕ → ℕ → List Bool → List (List ℕ) → Blocked × List (List ℕ)
unfolding finish_waits add_task
prepare_each t i [] lists = (parked, lists)
prepare_each t i (ready ∷ others) lists =
    let lists' = set lists i (add_task (queue_at lists i) t) in
    let rest = prepare_each t (i + 1) others lists' in
    if ready then (retry, finish_waits (i + 1) i t lists') else rest

-- `park`, up to the wait on the condition variable.
unfoldable pub park : Tasks → ℕ → Outcome Tasks
park tasks t = elim (tasks t) [
  | blocking ↦ done (update tasks t blocked)
  | _ ↦ panic assertion_failed
]

unfoldable pub settle :
    ℕ → Tasks → Blocked × List (List ℕ) → Outcome (Blocked × Tasks × List (List ℕ))
unfolding park
settle t tasks (parked, lists) = do tasks' ← park tasks t; done (parked, tasks', lists)
settle t tasks (retry, lists) = done (retry, tasks, lists)
settle t tasks (aborted, lists) = done (aborted, tasks, lists)

-- `block_on` by task `t`, up to where it returns, unwinds or waits. `is_aborted` is what the first
-- `abort_point` finds.
unfoldable pub block_on :
    Bool → ℕ → List Bool → Tasks → List (List ℕ) → Outcome (Blocked × Tasks × List (List ℕ))
unfolding settle prepare_each
block_on is_aborted t answers tasks lists =
    let entered = update tasks t blocking in
    settle t entered (if is_aborted then (aborted, lists) else prepare_each t 0 answers lists)
