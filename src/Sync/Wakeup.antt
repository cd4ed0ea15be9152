-- ===== src/Sync/Wakeup.antt =====
-- orpc/src/sync/blocker.rs and task.rs: the interleavings of any number of tasks that operate on
-- shared queues, wake those that wait for them, and call `block_on` on any number of handles. A step
-- runs what happens under one lock: the task's state, a wait list or a queue. No server is aborted
-- here (Rpc/Aborts has the interleavings of an abort), so that abort points do nothing.
pub mod Invariant
pub mod Steps
pub mod Wakes
pub mod Safety
pub mod Progress
use orpc_prototype.Prelude.{
  ℕ, zero, suc, ◌+◌, ◌≡◌, ◌≢◌, Bool, Option, none, some, List, [], ◌∷◌, if◌then◌else◌, length,
}
use orpc_prototype.Sync.{
  Tasks, TaskState, running, blocking, blocked, update, contains, add_task, remove_task,
}

-- Where a task is.
pub data Pc {η} (Handle : Type η) : Type η where
  -- Outside `block_on` and outside an operation.
  idle : Pc Handle
  -- In `block_on`, before `prepare_to_wait` of the first of the handles that are left, or before
  -- `park` if none is; the handles that were asked so far, the last of them first.
  preparing : List Handle → List Handle → Pc Handle
  -- After `prepare_to_wait` of a handle, between those that were asked and those that are left.
  registered : List Handle → Handle → List Handle → Pc Handle
  -- In the loop that calls `finish_wait` of the handle, with the number of calls that are left.
  unregistering : Handle → ℕ → Pc Handle
  -- In `park`, waiting for the handles.
  parked : List Handle → Pc Handle
  -- After an operation that wakes, before `wake_all` takes the list of that number.
  notifying : ℕ → Pc Handle
  -- In the loop of `wake_all`, with the tasks still to unpark.
  waking : List ℕ → Pc Handle

pub record System {ℓ η} (Q : Type ℓ) (Handle : Type η) : Type (ℓ ⊔ η) where
  pub shared : Q
  pub wait_lists : ℕ → List ℕ
  pub pc : ℕ → Pc Handle
  pub tasks : Tasks

-- Where an operation leaves its task, by the list that it wakes.
abbrev pub after_operation {η} : {Handle : Type η} → Option ℕ → Pc Handle
after_operation none = idle
after_operation (some i) = notifying i

-- The operations on the shared queues, with those that are allowed in a state: what each makes of them, and the list on which it calls
-- `wake_all`. The handles that a task may wait for: the list of each, and its `should_try`.
module _ {ℓ κ η ι} {Q : Type ℓ} {Op : Type κ} {Handle : Type η} (allowed : Q → Op → Type ι)
    (apply : Q → Op → Q) (wakes : Q → Op → Option ℕ) (list_of : Handle → ℕ)
    (should_try : Q → Handle → Bool) where
  pub data Step (s : System Q Handle) : System Q Handle → Type (ℓ ⊔ κ ⊔ η ⊔ ι) where
    operate :
        (t : ℕ) (o : Op)
        → s.pc t ≡ idle
        → allowed s.shared o
        → Step s (record s {
          shared = apply s.shared o;
          pc = update s.pc t (after_operation (wakes s.shared o));
        })
    take_list :
        (t i : ℕ)
        → s.pc t ≡ notifying i
        → Step s (record s {
          wait_lists = update s.wait_lists i [];
          pc = update s.pc t (waking (s.wait_lists i));
        })
    -- `unpark` goes round while the task's state is `Blocking`.
    unpark_next :
        (t u : ℕ) (l : List ℕ)
        → s.pc t ≡ waking (u ∷ l)
        → s.tasks u ≢ blocking
        → Step s (record s { pc = update s.pc t (waking l); tasks = update s.tasks u running })
    all_woken : (t : ℕ) → s.pc t ≡ waking [] → Step s (record s { pc = update s.pc t idle })
    enter :
        (t : ℕ) (hs : List Handle)
        → s.pc t ≡ idle
        → Step s
            (record s { pc = update s.pc t (preparing [] hs); tasks = update s.tasks t blocking })
    prepare_to_wait :
        (t : ℕ) (hs : List Handle) (h : Handle) (rest : List Handle)
        → s.pc t ≡ preparing hs (h ∷ rest)
        → Step s (record s {
          wait_lists = update s.wait_lists (list_of h) (add_task (s.wait_lists (list_of h)) t);
          pc = update s.pc t (registered hs h rest);
        })
    -- If the handle should be tried, `finish_wait` of it is called once for each handle so far.
    check :
        (t : ℕ) (hs : List Handle) (h : Handle) (rest : List Handle)
        → s.pc t ≡ registered hs h rest
        → Step s (record s {
          pc = update s.pc t (
              if should_try s.shared h
              then unregistering h (length hs + 1)
              else preparing (h ∷ hs) rest);
        })
    finish_wait :
        (t : ℕ) (h : Handle) (n : ℕ)
        → s.pc t ≡ unregistering h (suc n)
        → Step s (record s {
          wait_lists = update s.wait_lists (list_of h) (remove_task (s.wait_lists (list_of h)) t);
          pc = update s.pc t (unregistering h n);
        })
    return_ready :
        (t : ℕ) (h : Handle)
        → s.pc t ≡ unregistering h 0
        → Step s (record s { pc = update s.pc t idle })
    park :
        (t : ℕ) (hs : List Handle)
        → s.pc t ≡ preparing hs []
        → Step s (record s { pc = update s.pc t (parked hs); tasks = update s.tasks t blocked })
    resume :
        (t : ℕ) (hs : List Handle)
        → s.pc t ≡ parked hs
        → s.tasks t ≡ running
        → Step s (record s { pc = update s.pc t idle })

  -- All tasks are idle and running, and the lists are empty.
  abbrev pub start : Q → System Q Handle
  start q = record { shared = q; wait_lists = λ i. []; pc = λ t. idle; tasks = λ t. running }

  pub data Reachable (q : Q) : System Q Handle → Type (ℓ ⊔ κ ⊔ η ⊔ ι) where
    here : Reachable q (start q)
    later : {s s' : System Q Handle} → Reachable q s → Step s s' → Reachable q s'
