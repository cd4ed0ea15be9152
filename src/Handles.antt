-- ===== src/Handles.antt =====
-- orpc/src/oqueue/locking.rs: the queues around the ring and their handles. A queue is the ring, its
-- size and the two wait lists. An operation of a handle runs one critical section of the ring, wakes
-- the tasks of a wait list if it made room or brought a value, and returns the queue and the tasks.
pub mod Attach
pub mod Blockers
pub mod Wakeups
pub mod Contracts
mod Tests
use orpc_prototype.Prelude.{
  ℕ, zero, suc, Bool, true, Option, none, some, List, [], Outcome, done, ◌>>=◌, if◌then◌else◌,
}
use Prim.Native.String.{String}
use orpc_prototype.Rpc.{Result, ok, err}
use orpc_prototype.Sync.{Tasks, Loop, finished, spinning, wake_all, add_task, remove_task}
use orpc_prototype.Cursor.{Cursor}
use orpc_prototype.Locking.{
  LockingTableInner, new_inner, try_send, can_receive, can_strong_observe, try_strong_observe,
  drop_receiver, release_observer, allocate_observer,
}
use orpc_prototype.Locking
use orpc_prototype.Locking.Blocking.{try_receive_by, sender_should_try}
use orpc_prototype.Locking.Weak.{has_unobserved}
use orpc_prototype.Locking.History.{Mode, moving, cloning}

-- The message of `AllocationFailed`: the `format!` text with its argument.
pub data AllocationMessage : Type 0 where
  self_removed : AllocationMessage
  only_supported : ℕ → AllocationMessage

pub data OQueueAttachError : Type 0 where
  unsupported : String → OQueueAttachError
  allocation_failed : String → AllocationMessage → OQueueAttachError

pub record LockingQueue {ℓ} (T : Type ℓ) : Type ℓ where
  pub inner : LockingTableInner T
  pub buffer_size : ℕ
  pub put_wait_queue : List ℕ
  pub read_wait_queue : List ℕ
  -- Whether `this` can be upgraded.
  pub referenced : Bool

-- `ObservableLockingQueue` has the queue as its only field. The queue kinds differ in how a receiver
-- takes a value and in which attachments they support: `moving` is `LockingQueue`, `cloning` is
-- `ObservableLockingQueue`.
pub new_with_observers {ℓ} : (T : Type ℓ) → ℕ → ℕ → LockingQueue T
new_with_observers T buffer_size max_strong_observers = record {
  inner = new_inner T buffer_size max_strong_observers;
  buffer_size = buffer_size;
  put_wait_queue = [];
  read_wait_queue = [];
  referenced = true;
}

-- `LockingQueue::new`
pub new {ℓ} : (T : Type ℓ) → ℕ → LockingQueue T
unfolding new_with_observers
new T buffer_size = new_with_observers T buffer_size 0

-- What a handle's operation returns: its result, the queue, and the loop over the tasks woken.
abbrev pub Done {ℓ} : Type ℓ → Type ℓ
Done T = Option T × (LockingQueue T × Loop Tasks)

-- The handles, as blockers.
pub data Handle : Type 0 where
  sender : Handle
  receiver : Handle
  strong_observer : ℕ → Handle
  weak_observer : ℕ → Handle

module _ {ℓ} {T : Type ℓ} where
  pub wake_readers : Tasks → LockingQueue T → LockingQueue T × Loop Tasks
  wake_readers tasks q =
      let (woken, waiting) = wake_all tasks q.read_wait_queue in
      (record q { read_wait_queue = waiting }, woken)

  pub wake_senders : Tasks → LockingQueue T → LockingQueue T × Loop Tasks
  wake_senders tasks q =
      let (woken, waiting) = wake_all tasks q.put_wait_queue in
      (record q { put_wait_queue = waiting }, woken)

  after_send : Tasks → LockingQueue T → Option T → Done T
  unfolding wake_readers
  after_send tasks q none = (none, wake_readers tasks q)
  after_send tasks q (some v) = (some v, (q, finished tasks))

  -- `try_send` of `LockingSender`
  pub sender_try_send : Tasks → LockingQueue T → T → Outcome (Done T)
  unfolding after_send
  sender_try_send tasks q v = do
    r ← try_send q.inner v
    done (after_send tasks (record q { inner = r.1 }) r.0)

  after_take : Tasks → LockingQueue T → Option T → Done T
  unfolding wake_senders
  after_take tasks q none = (none, (q, finished tasks))
  after_take tasks q (some v) = (some v, wake_senders tasks q)

  -- `try_receive` of `LockingReceiver` and of `CloningLockingReceiver`
  pub receiver_try_receive : Mode → Tasks → LockingQueue T → Outcome (Done T)
  unfolding after_take
  receiver_try_receive m tasks q = do
    r ← try_receive_by m q.inner
    done (after_take tasks (record q { inner = r.1 }) r.0)

  -- `try_strong_observe` of `LockingStrongObserver`. `locked` says that another thread has the mutex.
  pub observer_try_observe : Bool → ℕ → Tasks → LockingQueue T → Outcome (Done T)
  unfolding after_take
  observer_try_observe locked i tasks q = if locked then done (none, (q, finished tasks)) else (do
    r ← try_strong_observe q.inner i
    done (after_take tasks (record q { inner = r.1 }) r.0))

  -- The `Drop` of the receivers and of the strong observer.
  pub receiver_drop : LockingQueue T → Outcome (LockingQueue T)
  receiver_drop q = do inner ← drop_receiver q.inner; done (record q { inner = inner })

  pub observer_drop : LockingQueue T → ℕ → Outcome (LockingQueue T)
  observer_drop q i = do inner ← release_observer q.inner i; done (record q { inner = inner })
