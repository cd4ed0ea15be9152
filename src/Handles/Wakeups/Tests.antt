-- ===== src/Handles/Wakeups/Tests.antt =====
-- A reader and a sender that park, and the wake-ups that are pending for them.
use orpc_prototype.Prelude
use orpc_prototype.Prelude.{ℕ, ◌≡◌, ◌≢◌, refl, some, [], ◌∷◌, ℕ_discrete, ==-false, ==-refl}
use orpc_prototype.Sync.{running, blocking, blocked, update, add_task, remove_task}
use orpc_prototype.Sync.Wakeup.{
  System, Reachable, idle, preparing, registered, unregistering, parked, notifying, waking, here,
  later, operate, take_list, enter, prepare_to_wait, check, finish_wait, return_ready, park,
}
use orpc_prototype.Sync.Wakeup.Invariant.{Pending}
use orpc_prototype.Sync.Wakeup.Progress.{Rests, at_rest, then_on, Stalled, waker_spins}
use orpc_prototype.Locking.Spec
use orpc_prototype.Locking.Spec.{Spec, Op}
use orpc_prototype.Locking.Reading.{receivers}
use orpc_prototype.Handles.Wakeups.{
  AnyCall, QueueHandle, reader, sender, read_list, put_list, list_of, apply, wakes,
  handle_should_try,
}
use orpc_prototype.Handles.Wakeups.Readers.{no_reader_missed}
use orpc_prototype.Handles.Wakeups.Senders.{receive, apply_traffic, wakes_traffic, no_sender_missed}

-- All queues have two slots, and a receiver that has read all.
abbrev turns : ℕ → ℕ
turns k = 2

abbrev empty : Spec ℕ
empty = record { log = 41 ∷ []; receivers = 1; next = some 1; observers = []; free = [] }

-- The second handle that task 1 waits for is the given one, the first a reader of queue 0.
abbrev first : QueueHandle
first = reader 0 receivers

abbrev Queues : Type 0
Queues = ℕ → Spec ℕ

-- Task 1 waits for the two handles until task 2 has done something.
abbrev asleep : Queues → QueueHandle → System Queues QueueHandle
asleep qs h = record {
  shared = qs;
  wait_lists = update (update (λ i. []) 0 (1 ∷ [])) (list_of h) (1 ∷ []);
  pc =
      update
        (update
          (update
            (update
              (update (update (λ t. idle) 1 (preparing [] (first ∷ h ∷ []))) 1
                (registered [] first (h ∷ [])))
              1 (preparing (first ∷ []) (h ∷ [])))
            1 (registered (first ∷ []) h []))
          1 (preparing (h ∷ first ∷ []) []))
        1 (parked (h ∷ first ∷ []));
  tasks = update (update (λ t. running) 1 blocking) 1 blocked;
}

abbrev idle_queues : Queues
idle_queues k = empty

abbrev sent : System Queues QueueHandle
sent = record (asleep idle_queues (reader 1 receivers)) {
  shared = update idle_queues 1 (record empty { log = 41 ∷ 42 ∷ [] });
  pc = update (asleep idle_queues (reader 1 receivers)).pc 2 (notifying 2);
}

sent-Reachable :
    Reachable AnyCall (apply turns) (wakes turns) list_of (handle_should_try turns) idle_queues sent
unfolding Spec.step add_task
sent-Reachable =
    later
      (later
        (later
          (later
            (later
              (later (later here (enter 1 (first ∷ reader 1 receivers ∷ []) refl))
                (prepare_to_wait 1 [] first (reader 1 receivers ∷ []) refl))
              (check 1 [] first (reader 1 receivers ∷ []) refl))
            (prepare_to_wait 1 (first ∷ []) (reader 1 receivers) [] refl))
          (check 1 (first ∷ []) (reader 1 receivers) [] refl))
        (park 1 (reader 1 receivers ∷ first ∷ []) refl))
      (operate 2 (1, Op.send 42) refl tt)

sent-Pending : Pending sent 1 (read_list 1)
sent-Pending =
    no_reader_missed turns idle_queues sent 1 (reader 1 receivers ∷ first ∷ []) 1 receivers
      sent-Reachable refl refl (Prelude.here refl) refl

-- Queue 1 is full, and the receiver takes the value.
abbrev filled : Spec ℕ
filled = record empty { log = 41 ∷ 42 ∷ [] }

abbrev full_queue : Queues
full_queue = update idle_queues 1 filled

abbrev taken : System Queues QueueHandle
taken = record (asleep full_queue (sender 1)) {
  shared = update full_queue 1 (record filled { next = some 2 });
  pc = update (asleep full_queue (sender 1)).pc 2 (notifying 3);
}

taken-Reachable :
    Reachable AnyCall
      (apply_traffic turns)
      (wakes_traffic turns)
      list_of
      (handle_should_try turns)
      full_queue
      taken
unfolding Spec.step add_task
taken-Reachable =
    later
      (later
        (later
          (later
            (later
              (later (later here (enter 1 (first ∷ sender 1 ∷ []) refl))
                (prepare_to_wait 1 [] first (sender 1 ∷ []) refl))
              (check 1 [] first (sender 1 ∷ []) refl))
            (prepare_to_wait 1 (first ∷ []) (sender 1) [] refl))
          (check 1 (first ∷ []) (sender 1) [] refl))
        (park 1 (sender 1 ∷ first ∷ []) refl))
      (operate 2 (1, receive) refl tt)

taken-Pending : Pending taken 1 (put_list 1)
taken-Pending =
    no_sender_missed turns full_queue taken 1 (sender 1 ∷ first ∷ []) 1 taken-Reachable refl refl
      (Prelude.here refl) refl

-- Task 1 begins to wait on queue 0 just before task 2 sends a value there and takes the wait list;
-- task 1 then finds the value and returns from `block_on`.
abbrev slow : System Queues QueueHandle
slow = record {
  shared = update idle_queues 0 (record empty { log = 41 ∷ 42 ∷ [] });
  wait_lists = update (update (update (λ i. []) 0 (1 ∷ [])) 0 []) 0 [];
  pc =
      update
        (update
          (update
            (update
              (update
                (update (update (λ t. idle) 1 (preparing [] (first ∷ []))) 1
                  (registered [] first []))
                2 (notifying 0))
              2 (waking (1 ∷ [])))
            1 (unregistering first 1))
          1 (unregistering first 0))
        1 idle;
  tasks = update (λ t. running) 1 blocking;
}

slow-Reachable :
    Reachable AnyCall (apply turns) (wakes turns) list_of (handle_should_try turns) idle_queues slow
unfolding Spec.step add_task remove_task
slow-Reachable =
    later
      (later
        (later
          (later
            (later
              (later (later here (enter 1 (first ∷ []) refl)) (prepare_to_wait 1 [] first [] refl))
              (operate 2 (0, Op.send 42) refl tt))
            (take_list 2 0 refl))
          (check 1 [] first [] refl))
        (finish_wait 1 first 0 refl))
      (return_ready 1 first refl)

-- Task 3 sends a value on queue 1.
abbrev slower : System Queues QueueHandle
slower = record slow {
  shared = update slow.shared 1 (record empty { log = 41 ∷ 43 ∷ [] });
  pc = update slow.pc 3 (notifying 2);
}

slow-Rests :
    Rests AnyCall (apply turns) (wakes turns) list_of (handle_should_try turns) 1 slow slower
unfolding Spec.step
slow-Rests = then_on at_rest refl (operate 3 (1, Op.send 43) refl tt)

waker_spins_example : Stalled slower 2 1
waker_spins_example =
    waker_spins AnyCall (apply turns) (wakes turns) list_of (handle_should_try turns) slow 2 1
      slower slow-Rests (refl, (1 ∷ [], refl, refl))
