-- ===== src/Handles/Tests.antt =====
-- Handles on a full queue of two slots, and uses of the theorems about them.
use orpc_prototype.Prelude.{
  ℕ, zero, suc, ◌%◌, ◌≤◌, ◌<◌, ◌≡◌, ◌⊎◌, refl, arith, Bool, true, false, none, some, [], ◌∷◌,
  Outcome, done, ◌>>=◌, if◌then◌else◌, get_elem?,
}
use Prim.Native.String.{String}
use orpc_prototype.Rpc.{Result, err}
use orpc_prototype.Sync.{Tasks, blocked, finished}
use orpc_prototype.Locking.{LockingTableInner, can_receive}
use orpc_prototype.Locking.Effects.{sent}
use orpc_prototype.Locking.History.{Mode, moving, cloning, Stores}
use orpc_prototype.Locking.Blocking.{received, sender_should_try}
use orpc_prototype.Locking.Tests.{log3, ring, ring-Stores}
use orpc_prototype.Handles.{
  LockingQueue, new, Handle, OQueueAttachError, unsupported, sender_try_send, receiver_try_receive,
  receiver_drop,
}
use orpc_prototype.Sync.{blocking, update, parked, add_task}
use orpc_prototype.Handles.Blockers.{returned, waited, send_round, send_round_lem}
use orpc_prototype.Handles.Attach.{attach_strong_observer}
use orpc_prototype.Handles.Attach.Observing.{Refused, Attached, attach_strong_observer_lem}
use orpc_prototype.Handles.Contracts.{
  Woken, AfterTake, sender_try_send_lem, receiver_try_receive_lem, receiver_drop-unwoken,
}

-- Task 8 waits to send, and the tasks 4 and 5 wait to read.
abbrev queue : LockingQueue ℕ
queue = record {
  inner = ring;
  buffer_size = 2;
  put_wait_queue = 8 ∷ [];
  read_wait_queue = 4 ∷ 5 ∷ [];
  referenced = true;
}

abbrev tasks : Tasks
tasks t = blocked

sender_try_send_lem_example :
    (b : Bool) × (tasks' : Tasks) × (sender_should_try ring ≡ done b)
    × (sender_try_send tasks queue 45
        ≡ done (
            if b
            then (
              none,
              (record queue { inner = sent ring 45; read_wait_queue = [] }, finished tasks'),
            )
            else (some 45, (queue, finished tasks))))
    × Woken tasks (4 ∷ 5 ∷ []) tasks'
sender_try_send_lem_example =
    sender_try_send_lem log3 queue tasks cloning ring-Stores ((λ p. cc), ((λ p. cc), tt)) 45

receiver_try_receive_lem_example :
    AfterTake queue tasks
      (receiver_try_receive cloning tasks queue)
      (some 44)
      (can_receive ring)
      (received cloning ring)
receiver_try_receive_lem_example =
    receiver_try_receive_lem log3 queue tasks cloning ring-Stores (omega arith) ((λ p. cc), tt)

-- A plain queue whose one receiver is a turn behind.
abbrev full_ring : LockingTableInner ℕ
full_ring = record {
  buffer = some 7 ∷ none ∷ [];
  n_receivers = 1;
  head_index = 0;
  tail_index = 1;
  strong_observer_heads = [];
  free_strong_observer_heads = [];
}

full_ring-kept :
    (i x : ℕ) → get_elem? (7 ∷ []) i ≡ some x → get_elem? full_ring.buffer (i % 2) ≡ some (some x)
full_ring-kept zero x e = cc
full_ring-kept (suc i) x e = absurd (cc)

full_ring-blank : (i : ℕ) → 1 ≤ i → i < 2 → get_elem? full_ring.buffer i ≡ some none
full_ring-blank zero le lt = absurd (omega arith)
full_ring-blank (suc zero) le lt = refl
full_ring-blank (suc (suc i)) le lt = absurd (omega arith)

full_ring-Stores : Stores moving (7 ∷ []) full_ring
full_ring-Stores = record {
  valid = record {
    capacity = omega arith;
    bounded = omega arith;
    counted = omega arith;
    receiver = λ h. omega arith;
    detached = λ e. absurd (omega arith);
    observers = tt;
    free_slots = tt;
  };
  total = refl;
  kept = λ i x e near k. full_ring-kept i x e;
  blank = full_ring-blank;
  unobserved = λ e. (refl, refl);
}

receiver_drop-unwoken_example :
    (q' : LockingQueue ℕ) × (receiver_drop (record queue { inner = full_ring }) ≡ done q')
    × (sender_should_try q'.inner ≡ done true)
    × (q'.put_wait_queue ≡ 8 ∷ [])
    × (q'.read_wait_queue ≡ 4 ∷ 5 ∷ [])
receiver_drop-unwoken_example =
    receiver_drop-unwoken (7 ∷ []) (record queue { inner = full_ring }) moving full_ring-Stores refl
      refl

send_round_lem_example :
    (b : Bool) × (tasks' : Tasks) × (sender_should_try ring ≡ done b)
    × (send_round false 9 tasks queue 45
        ≡ done (
            if b
            then (
              returned tt,
              (record queue { inner = sent ring 45; read_wait_queue = [] }, finished tasks'),
            )
            else (
              waited parked,
              (
                record queue { put_wait_queue = 8 ∷ 9 ∷ [] },
                finished (update (update tasks 9 blocking) 9 blocked),
              ),
            )))
    × Woken tasks (4 ∷ 5 ∷ []) tasks'
unfolding add_task
send_round_lem_example =
    send_round_lem log3 queue tasks 9 cloning ring-Stores ((λ p. cc), ((λ p. cc), tt)) 45

abbrev type_name : Mode → String
type_name moving = "LockingQueue"
type_name cloning = "ObservableLockingQueue"

-- What an attachment returns.
attachment :
    Outcome (Result Handle OQueueAttachError × LockingQueue ℕ)
    → Outcome (Result Handle OQueueAttachError)
attachment m = do r ← m; done r.0

plain_test :
    attachment (attach_strong_observer type_name moving (new ℕ 2))
    ≡ done (err (unsupported "LockingQueue"))
unfolding attachment attach_strong_observer
plain_test = refl

attach_strong_observer_lem_example :
    (attach_strong_observer type_name moving queue ≡ done (err (unsupported "LockingQueue"), queue))
    × (Refused type_name log3 queue ⊎ Attached type_name log3 queue)
attach_strong_observer_lem_example =
    attach_strong_observer_lem type_name log3 queue ring-Stores refl
