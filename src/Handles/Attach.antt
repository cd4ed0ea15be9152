-- ===== src/Handles/Attach.antt =====
-- orpc/src/oqueue/locking.rs: the `OQueue` methods, which attach handles, on both kinds of queue.
pub mod Observing
use orpc_prototype.Prelude.{ℕ, Option, none, some, Outcome, done, ◌>>=◌, if◌then◌else◌, length}
use Prim.Native.String.{String}
use orpc_prototype.Rpc.{Result, ok, err}
use orpc_prototype.Locking.{LockingTableInner, allocate_observer}
use orpc_prototype.Locking
use orpc_prototype.Locking.History.{Mode, moving, cloning}
use orpc_prototype.Handles.{
  LockingQueue, OQueueAttachError, unsupported, allocation_failed, self_removed, only_supported,
  Handle, sender, receiver, strong_observer, weak_observer,
}

-- `type_name` is the compiler's text for the type of each kind of queue. The ring is in a plain queue,
-- also that of an observable one.
module _ {ℓ} {T : Type ℓ} (type_name : Mode → String) where
  pub get_this : LockingQueue T → Result (LockingQueue T) OQueueAttachError
  get_this q =
      if q.referenced then ok q else err (allocation_failed (type_name moving) self_removed)

  -- A handle on the queue that `get_this` found, or its error.
  handle_on : Result (LockingQueue T) OQueueAttachError → Handle → Result Handle OQueueAttachError
  handle_on (ok q) h = ok h
  handle_on (err e) h = err e

  pub attach_sender : LockingQueue T → Result Handle OQueueAttachError
  unfolding handle_on get_this
  attach_sender q = handle_on (get_this q) sender

  -- `attach_receiver` of both kinds of queue
  pub attach_receiver : LockingQueue T → Outcome (Result Handle OQueueAttachError × LockingQueue T)
  unfolding get_this
  attach_receiver q = elim (get_this q) [
    | err e ↦ done (err e, q)
    | ok this ↦ do
      inner ← Locking.attach_receiver q.inner
      done (ok receiver, record q { inner = inner })
  ]

  allocated : LockingQueue T → Option ℕ → Result Handle OQueueAttachError
  unfolding get_this handle_on
  allocated q none = err (
      allocation_failed (type_name cloning) (only_supported (length q.inner.strong_observer_heads)))
  allocated q (some i) = handle_on (get_this q) (strong_observer i)

  unfoldable pub attach_strong_observer :
      Mode → LockingQueue T → Outcome (Result Handle OQueueAttachError × LockingQueue T)
  unfolding allocated
  attach_strong_observer moving q = done (err (unsupported (type_name moving)), q)
  attach_strong_observer cloning q = do
    r ← allocate_observer q.inner
    done (allocated q r.0, record q { inner = r.1 })

  pub attach_weak_observer : Mode → LockingQueue T → Result Handle OQueueAttachError
  unfolding get_this handle_on
  attach_weak_observer moving q = err (unsupported (type_name moving))
  attach_weak_observer cloning q = handle_on (get_this q) (weak_observer 0)
