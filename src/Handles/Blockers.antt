-- ===== src/Handles/Blockers.antt =====
-- orpc/src/sync/blocker.rs, the trait `Blocker`, and its implementations by the handles of
-- orpc/src/oqueue/locking.rs; and one round of the loops `send` and `block_until`.
use orpc_prototype.Prelude.{
  ℕ, ◌≡◌, Bool, true, false, none, some, List, [], ◌∷◌, Outcome, done, ◌>>=◌, if◌then◌else◌,
}
use orpc_prototype.Sync.{
  Tasks, blocking, blocked, update, Loop, finished, add_task, remove_task, Blocked, parked,
  block_on, queue_at,
}
use orpc_prototype.Sync.BlockOn.{block_on-parks}
use orpc_prototype.Sync.WaitList.{NoneBlocking}
use orpc_prototype.Locking.{can_receive, can_strong_observe}
use orpc_prototype.Locking.Blocking.{sender_should_try}
use orpc_prototype.Locking.Effects.{sent}
use orpc_prototype.Locking.Weak.{has_unobserved}
use orpc_prototype.Locking.History.{Mode, Stores}
use orpc_prototype.Handles.{LockingQueue, Done, sender_try_send}
use orpc_prototype.Handles.Contracts.{Woken, sender_try_send_lem}

-- A blocker, as a handle on a queue. Tasks are named by numbers.
pub record Blocker {ℓ} (T : Type ℓ) : Type ℓ where
  pub should_try : LockingQueue T → Outcome Bool
  pub prepare_to_wait : LockingQueue T → ℕ → LockingQueue T
  pub finish_wait : LockingQueue T → ℕ → LockingQueue T

module _ {ℓ} {T : Type ℓ} where
  -- `LockingSender`
  pub sender_blocker : Blocker T
  sender_blocker = record {
    should_try = λ q. sender_should_try q.inner;
    prepare_to_wait = λ q t. record q { put_wait_queue = add_task q.put_wait_queue t };
    finish_wait = λ q t. record q { put_wait_queue = remove_task q.put_wait_queue t };
  }

  -- `LockingReceiver`
  pub receiver_blocker : Blocker T
  receiver_blocker = record {
    should_try = λ q. done (can_receive q.inner);
    prepare_to_wait = λ q t. record q { read_wait_queue = add_task q.read_wait_queue t };
    finish_wait = λ q t. record q { read_wait_queue = remove_task q.read_wait_queue t };
  }

  -- `CloningLockingReceiver`
  pub cloning_receiver_blocker : Blocker T
  cloning_receiver_blocker = record {
    should_try = λ q. done (can_receive q.inner);
    prepare_to_wait = λ q t. record q { read_wait_queue = add_task q.read_wait_queue t };
    finish_wait = λ q t. record q { read_wait_queue = remove_task q.read_wait_queue t };
  }

  -- `LockingStrongObserver` with its index
  pub strong_observer_blocker : ℕ → Blocker T
  strong_observer_blocker i = record {
    should_try = λ q. can_strong_observe q.inner i;
    prepare_to_wait = λ q t. record q { read_wait_queue = add_task q.read_wait_queue t };
    finish_wait = λ q t. record q { read_wait_queue = remove_task q.read_wait_queue t };
  }

  -- `LockingWeakObserver` with its `max_observed_tail`
  pub weak_observer_blocker : ℕ → Blocker T
  weak_observer_blocker seen = record {
    should_try = λ q. done (has_unobserved q.inner seen);
    prepare_to_wait = λ q t. record q { read_wait_queue = add_task q.read_wait_queue t };
    finish_wait = λ q t. record q { read_wait_queue = remove_task q.read_wait_queue t };
  }

-- How a round of a blocking loop ends: the loop returns, or `block_on` was called and ended so.
pub data Round {ℓ} (R : Type ℓ) : Type ℓ where
  returned : R → Round R
  waited : Blocked → Round R

module _ {ℓ} {T : Type ℓ} (is_aborted : Bool) (t : ℕ) where
  wait_to_send :
      Tasks → T → LockingQueue T → Outcome (Round (Unit {0}) × (LockingQueue T × Loop Tasks))
  unfolding sender_blocker
  wait_to_send tasks v q = do
    ready ← sender_blocker.should_try q
    r ← block_on is_aborted t (ready ∷ []) tasks (q.put_wait_queue ∷ [])
    done (waited r.0, (record q { put_wait_queue = queue_at r.2 0 }, finished r.1))

  sending : Tasks → Done T → Outcome (Round (Unit {0}) × (LockingQueue T × Loop Tasks))
  unfolding wait_to_send
  sending tasks (none, out) = done (returned tt, out)
  sending tasks (some v, (q, woken)) = wait_to_send tasks v q

  -- One round of the loop of `send` by task `t`.
  pub send_round :
      Tasks → LockingQueue T → T → Outcome (Round (Unit {0}) × (LockingQueue T × Loop Tasks))
  unfolding sending
  send_round tasks q v = do r ← sender_try_send tasks q v; sending tasks r

  reading : Tasks → Outcome Bool → Done T → Outcome (Round T × (LockingQueue T × Loop Tasks))
  reading tasks should_try (some v, out) = done (returned v, out)
  reading tasks should_try (none, (q, woken)) = do
    ready ← should_try
    r ← block_on is_aborted t (ready ∷ []) tasks (q.read_wait_queue ∷ [])
    done (waited r.0, (record q { read_wait_queue = queue_at r.2 0 }, finished r.1))

  -- One round of the loop of `block_until` on a receiver or a strong observer: `receive` and
  -- `strong_observe` are `block_until` with `cond` the `try_` method.
  pub block_until_round :
      Blocker T
      → (cond : Tasks → LockingQueue T → Outcome (Done T)) → Tasks
      → LockingQueue T
      → Outcome (Round T × (LockingQueue T × Loop Tasks))
  unfolding reading
  block_until_round blocker cond tasks q = do
    r ← cond tasks q
    reading tasks (blocker.should_try r.1.0) r

module _ {ℓ} {T : Type ℓ} (log : List T) (q : LockingQueue T) (tasks : Tasks) where
  -- A round of `send` by task `t` on a queue that stores a history, of a server that is not aborted,
  -- when no task that waits to read is in the state `Blocking`, and no other task runs in between:
  -- if there is room, it puts the value, wakes the readers and returns; if not, the task is parked,
  -- in the wait list of senders and in the state `Blocked`.
  pub send_round_lem :
      (t : ℕ) (m : Mode)
      → Stores m log q.inner
      → NoneBlocking tasks q.read_wait_queue
      → (x : T)
      → (b : Bool) × (tasks' : Tasks) × (sender_should_try q.inner ≡ done b)
        × (send_round false t tasks q x
            ≡ done (
                if b
                then (
                  returned tt,
                  (record q { inner = sent q.inner x; read_wait_queue = [] }, finished tasks'),
                )
                else (
                  waited parked,
                  (
                    record q { put_wait_queue = add_task q.put_wait_queue t },
                    finished (update (update tasks t blocking) t blocked),
                  ),
                )))
        × Woken tasks q.read_wait_queue tasks'
  unfolding send_round sending wait_to_send sender_blocker
  send_round_lem t m s h x =
      let (b, tasks', ready, sends, f) = sender_try_send_lem log q tasks m s h x in
      (b, tasks', ready, by_cases b tasks' ready sends, f)
    where
      by_cases :
          (b : Bool) (tasks' : Tasks)
          → sender_should_try q.inner ≡ done b
          → sender_try_send tasks q x
            ≡ done (
                if b
                then (
                  none,
                  (record q { inner = sent q.inner x; read_wait_queue = [] }, finished tasks'),
                )
                else (some x, (q, finished tasks)))
          → send_round false t tasks q x
            ≡ done (
                if b
                then (
                  returned tt,
                  (record q { inner = sent q.inner x; read_wait_queue = [] }, finished tasks'),
                )
                else (
                  waited parked,
                  (
                    record q { put_wait_queue = add_task q.put_wait_queue t },
                    finished (update (update tasks t blocking) t blocked),
                  ),
                ))
      by_cases true tasks' ready sends = rw sends
      by_cases false tasks' ready sends =
          rw (sends, ready, block_on-parks t tasks (q.put_wait_queue ∷ []))
