-- ===== src/Handles/Contracts.antt =====
-- What the handles' operations do to the ring, to the wait lists and to the tasks that wait.
use orpc_prototype.Prelude.{
  ℕ, ◌<◌, ◌≡◌, refl, ap, arith, Bool, true, false, not, ◌&&◌, Option, none, some, List, [], Outcome,
  done, usize_max, ◌==◌, if◌then◌else◌, get_elem?, any,
}
use orpc_prototype.Sync.{Tasks, running, finished, wake_all, contains}
use orpc_prototype.Sync.WaitList.{NoneBlocking, unpark_each_lem}
use orpc_prototype.Locking.{LockingTableInner, can_receive, try_send, can_strong_observe}
use orpc_prototype.Locking.Invariant.{holds_back, can_send_lem}
use orpc_prototype.Locking.Effects.{sent, observed, left, drop_receiver-done}
use orpc_prototype.Locking.Preserve.{left-IsValid}
use orpc_prototype.Locking.History.{Mode, cloning, Stores}
use orpc_prototype.Locking.Calls.{view}
use orpc_prototype.Locking.Blocking.{
  received, sender_should_try, sender_contract, receiver_contract, observer_contract, is_some,
}
use orpc_prototype.Handles.{
  LockingQueue, Done, sender_try_send, receiver_try_receive, observer_try_observe, receiver_drop,
  wake_readers, wake_senders, after_send, after_take,
}

-- The tasks of the list are running, and the others are as before.
abbrev pub Woken : Tasks → List ℕ → Tasks → Type 0
Woken tasks l tasks' = (u : ℕ) → tasks' u ≡ (if contains l u then running else tasks u)

wake_all_lem :
    (tasks : Tasks) (l : List ℕ)
    → NoneBlocking tasks l
    → (tasks' : Tasks) × (wake_all tasks l ≡ (finished tasks', [])) × Woken tasks l tasks'
unfolding wake_all
wake_all_lem tasks l h = let (tasks', e, f) = unpark_each_lem tasks l h in (tasks', rw e, f)

module _ {ℓ} {T : Type ℓ} where
  abbrev pub put : LockingQueue T → LockingTableInner T → LockingQueue T
  put q inner = record q { inner = inner }

  after_send-split :
      (b : Bool) (tasks tasks' : Tasks) (q : LockingQueue T) (inner' : LockingTableInner T) (x : T)
      → wake_all tasks q.read_wait_queue ≡ (finished tasks', [])
      → (r : Option T × LockingTableInner T) → r ≡ (if b then (none, inner') else (some x, q.inner))
      → after_send tasks (put q r.1) r.0 ≡ (
          if b
          then (none, (record q { inner = inner'; read_wait_queue = [] }, finished tasks'))
          else (some x, (q, finished tasks)))
  unfolding after_send wake_readers
  after_send-split true tasks tasks' q inner' x woken r e = rw (e, woken)
  after_send-split false tasks tasks' q inner' x woken r e = rw e

  after_take-split :
      (o : Option T) (b : Bool) (tasks tasks' : Tasks) (q : LockingQueue T)
      (inner' : LockingTableInner T)
      → is_some o ≡ b
      → wake_all tasks q.put_wait_queue ≡ (finished tasks', [])
      → after_take tasks (put q (if b then inner' else q.inner)) o ≡ (
        o,
        if b
            then (record q { inner = inner'; put_wait_queue = [] }, finished tasks')
            else (q, finished tasks),
      )
  unfolding after_take wake_senders
  after_take-split none true tasks tasks' q inner' e woken = cc
  after_take-split none false tasks tasks' q inner' e woken = refl
  after_take-split (some x) true tasks tasks' q inner' e woken = rw woken
  after_take-split (some x) false tasks tasks' q inner' e woken = cc

  -- The queue and the tasks after an operation of a reader on a ring that it left as `inner'` if
  -- there was a value: then the senders that waited are running, and no task is left in their list.
  abbrev pub AfterTake :
      LockingQueue T → Tasks → Outcome (Done T) → Option T → Bool → LockingTableInner T → Type ℓ
  AfterTake q tasks out o b inner' =
      (tasks' : Tasks) × (out
        ≡ done (
          o,
          if b
              then (record q { inner = inner'; put_wait_queue = [] }, finished tasks')
              else (q, finished tasks),
        ))
      × Woken tasks q.put_wait_queue tasks'

  module _ (log : List T) (q : LockingQueue T) (tasks : Tasks) where
    -- On a queue that stores a history, if no task that waits to read is in the state `Blocking`,
    -- then `try_send` of a sender that should try puts the value, wakes all tasks that wait to read
    -- and empties their list; of one that should not, it returns the value and changes nothing.
    pub sender_try_send_lem :
        (m : Mode)
        → Stores m log q.inner
        → NoneBlocking tasks q.read_wait_queue
        → (x : T)
        → (b : Bool) × (tasks' : Tasks) × (sender_should_try q.inner ≡ done b)
          × (sender_try_send tasks q x
              ≡ done (
                  if b
                  then (
                    none,
                    (record q { inner = sent q.inner x; read_wait_queue = [] }, finished tasks'),
                  )
                  else (some x, (q, finished tasks))))
          × Woken tasks q.read_wait_queue tasks'
    unfolding sender_try_send
    sender_try_send_lem m s h x =
        let (tasks', woken, f) = wake_all_lem tasks q.read_wait_queue h in
        let (b, ready, sends) = sender_contract log q.inner m s x in
        (b, tasks', ready, joins b sends woken, f)
      where
        joins :
            {tasks' : Tasks} (b : Bool)
            → try_send q.inner x ≡ done (if b then (none, sent q.inner x) else (some x, q.inner))
            → wake_all tasks q.read_wait_queue ≡ (finished tasks', [])
            → sender_try_send tasks q x
              ≡ done (
                  if b
                  then (
                    none,
                    (record q { inner = sent q.inner x; read_wait_queue = [] }, finished tasks'),
                  )
                  else (some x, (q, finished tasks)))
        joins {tasks'} b sends woken = rw sends (
            ap (λ (d : Done T). done d)
              (after_send-split b tasks tasks' q (sent q.inner x) x woken
                (if b then (none, sent q.inner x) else (some x, q.inner)) refl))

    -- On a queue that stores a history, if no task that waits to send is in the state `Blocking`,
    -- then `try_receive` of an attached receiver returns the value of the history at the receivers'
    -- position and wakes all tasks that wait to send; if there is no value, it changes nothing.
    pub receiver_try_receive_lem :
        (m : Mode)
        → Stores m log q.inner
        → 0 < q.inner.n_receivers
        → NoneBlocking tasks q.put_wait_queue
        → AfterTake q tasks
            (receiver_try_receive m tasks q)
            (get_elem? log q.inner.head_index)
            (can_receive q.inner)
            (received m q.inner)
    unfolding receiver_try_receive
    receiver_try_receive_lem m s here h =
        let (tasks', woken, f) = wake_all_lem tasks q.put_wait_queue h in
        let (takes, ready) = receiver_contract log q.inner m s here in
        (
          tasks',
          rw takes (
              ap (λ (d : Done T). done d)
                (after_take-split _ _ tasks tasks' q (received m q.inner) ready woken)),
          f,
        )

    -- On an observable queue that stores a history, if no task that waits to send is in the state
    -- `Blocking` and no other thread has the mutex, then `try_strong_observe` of a strong observer
    -- returns the value of the history at its position and wakes all tasks that wait to send; if
    -- there is no value, it changes nothing. If another thread has the mutex, it returns none and
    -- changes nothing.
    pub observer_try_observe_lem :
        Stores cloning log q.inner
        → (i c : ℕ) → get_elem? (view log q.inner).observers i ≡ some (some c)
        → NoneBlocking tasks q.put_wait_queue
        → (observer_try_observe true i tasks q ≡ done (none, (q, finished tasks)))
          × ((b : Bool) × (can_strong_observe q.inner i ≡ done b)
              × AfterTake q tasks
                  (observer_try_observe false i tasks q)
                  (get_elem? log c)
                  b
                  (observed q.inner i c))
    unfolding observer_try_observe
    observer_try_observe_lem s i c e h =
        let (tasks', woken, f) = wake_all_lem tasks q.put_wait_queue h in
        let (b, can, takes, ready) = observer_contract log q.inner s i c e in
        (
          refl,
          (
            b,
            can,
            (
              tasks',
              rw takes (
                  ap (λ (d : Done T). done d)
                    (after_take-split _ _ tasks tasks' q (observed q.inner i c) ready woken)),
              f,
            ),
          ),
        )

  module _ (log : List T) (q : LockingQueue T) where
    -- When the last receiver of a queue that stores a history goes and no strong observer holds the
    -- senders back, a sender should try, but no sender that waits is woken: the wait lists are as
    -- they were.
    pub receiver_drop-unwoken :
        (m : Mode)
        → Stores m log q.inner
        → q.inner.n_receivers ≡ 1
        → any (λ h. not (h == usize_max) && holds_back q.inner h) q.inner.strong_observer_heads
          ≡ false
        → (q' : LockingQueue T) × (receiver_drop q ≡ done q')
          × (sender_should_try q'.inner ≡ done true)
          × (q'.put_wait_queue ≡ q.put_wait_queue)
          × (q'.read_wait_queue ≡ q.read_wait_queue)
    unfolding receiver_drop sender_should_try
    receiver_drop-unwoken m s one free =
        let v = left-IsValid q.inner s.valid in
        (
          put q (left q.inner),
          rw (drop_receiver-done q.inner (omega arith)),
          rw (can_send_lem (left q.inner) v, one, free),
          refl,
          refl,
        )
