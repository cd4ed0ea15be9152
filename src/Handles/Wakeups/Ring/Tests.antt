-- ===== src/Handles/Wakeups/Ring/Tests.antt =====
-- A reader and a sender of rings that park, and the wake-ups that are pending for them.
use orpc_prototype.Prelude
use orpc_prototype.Prelude.{
  ℕ, ◌+◌, ◌<◌, ◌≡◌, ◌≢◌, refl, true, arith, ℕ_discrete, ==-false, ==-refl, List, [], ◌∷◌, usize_max,
  length,
}
use orpc_prototype.Sync.{running, blocking, blocked, update, add_task}
use orpc_prototype.Sync.Wakeup.{
  System, Reachable, idle, preparing, registered, parked, notifying, here, later, operate, enter,
  prepare_to_wait, check, park,
}
use orpc_prototype.Sync.Wakeup.Invariant.{Pending}
use orpc_prototype.Sync.Wakeup.Progress.{WakeRun}
use orpc_prototype.Locking
use orpc_prototype.Locking.{
  LockingTableInner, new_inner, can_receive, can_send, blocks, any_blocks, mod_len, try_send,
  put_at, try_take_for_head, try_receive_clone, try_strong_observe, receive_clone_from,
  observe_from,
}
use orpc_prototype.Locking.History.{cloning, new_inner-Stores}
use orpc_prototype.Locking.Spec.{Op}
use orpc_prototype.Locking.Calls.{step, give, keep}
use orpc_prototype.Locking.Blocking.{sender_should_try}
use orpc_prototype.Locking.Reading.{receivers}
use orpc_prototype.Locking.Tests.{ring, log3, ring-Stores}
use orpc_prototype.Handles.Wakeups.{QueueHandle, reader, sender, read_list, put_list, list_of}
use orpc_prototype.Handles.Wakeups.Senders.{receive, observe}
use orpc_prototype.Handles.Wakeups.Ring.{
  apply_ring, ring_wakes, ring_should_try, StoresSome, PermittedCall,
}
use orpc_prototype.Handles.Wakeups.Ring.Readers.{has_more, no_value_missed, reader_wakes}
use orpc_prototype.Handles.Wakeups.Ring.Senders.{
  apply_ring_traffic, ring_traffic_wakes, PermittedTraffic, no_room_missed,
}

abbrev Rings : Type 0
Rings = ℕ → LockingTableInner ℕ

-- Task 1 waits for the handle.
abbrev asleep : Rings → QueueHandle → System Rings QueueHandle
asleep qs h = record {
  shared = qs;
  wait_lists = update (λ i. []) (list_of h) (1 ∷ []);
  pc =
      update
        (update
          (update (update (update (λ t. idle) 3 idle) 1 (preparing [] (h ∷ []))) 1
            (registered [] h []))
          1 (preparing (h ∷ []) []))
        1 (parked (h ∷ []));
  tasks = update (update (λ t. running) 1 blocking) 1 blocked;
}

-- New queues; task 3 attaches a receiver to queue 1, and task 2 sends a value there.
abbrev new_rings : Rings
new_rings k = new_inner ℕ 2 5

new_rings-StoresSome : StoresSome cloning new_rings
new_rings-StoresSome k = ([], new_inner-Stores ℕ cloning 2 5 (omega arith) (λ e. absurd (cc)))

abbrev joined_rings : Rings
joined_rings = apply_ring cloning new_rings (1, Op.attach_receiver)

abbrev sent : System Rings QueueHandle
sent = record (asleep joined_rings (reader 1 receivers)) {
  shared = apply_ring cloning joined_rings (1, Op.send 42);
  pc = update (asleep joined_rings (reader 1 receivers)).pc 2 (notifying 2);
}

sent-Reachable :
    Reachable
      (PermittedCall cloning)
      (apply_ring cloning)
      (ring_wakes cloning)
      list_of
      ring_should_try
      new_rings
      sent
unfolding step give keep new_inner can_receive can_send blocks any_blocks mod_len try_send put_at
    add_task Locking.attach_receiver
sent-Reachable =
    later
      (later
        (later
          (later
            (later (later here (operate 3 (1, Op.attach_receiver) refl (λ log s. omega arith)))
              (enter 1 (reader 1 receivers ∷ []) refl))
            (prepare_to_wait 1 [] (reader 1 receivers) [] refl))
          (check 1 [] (reader 1 receivers) [] refl))
        (park 1 (reader 1 receivers ∷ []) refl))
      (operate 2 (1, Op.send 42) refl (λ log s. let e = s.total in omega arith))

sent-has_more : has_more (sent.shared 1) receivers ≡ true
unfolding step give keep new_inner can_receive can_send blocks any_blocks mod_len try_send put_at
    add_task Locking.attach_receiver
sent-has_more = refl

no_value_missed_example : Pending sent 1 (read_list 1)
no_value_missed_example =
    no_value_missed cloning new_rings sent 1 (reader 1 receivers ∷ []) 1 receivers
      new_rings-StoresSome sent-Reachable refl refl (Prelude.here refl) sent-has_more

-- No task is in the state `Blocking` when the value was sent.
sent_awake : (u : ℕ) → sent.tasks u ≢ blocking
sent_awake u e = elim (ℕ_discrete 1 u) [
  | yes q ↦ let f = rw (q, ==-refl u) at e in cc
  | no n ↦ let f = rw (==-false 1 u n) at e in cc
]

reader_wakes_example :
    (w : ℕ) × (s' : System Rings QueueHandle) × WakeRun w sent s' × (s'.tasks 1 ≡ running)
reader_wakes_example =
    reader_wakes cloning new_rings sent 1 (reader 1 receivers ∷ []) 1 receivers new_rings-StoresSome
      sent-Reachable refl refl (Prelude.here refl) sent-has_more sent_awake

-- A full queue; task 2 receives the value that holds the senders back, and then task 3 observes it.
abbrev full_rings : Rings
full_rings k = ring

full_rings-StoresSome : StoresSome cloning full_rings
full_rings-StoresSome k = (log3, ring-Stores)

abbrev received_rings : Rings
received_rings = apply_ring_traffic cloning full_rings (1, receive)

abbrev taken : System Rings QueueHandle
taken = record {
  shared = apply_ring_traffic cloning received_rings (1, observe 0);
  wait_lists = update (λ i. []) 3 (1 ∷ []);
  pc =
      update
        (update
          (update
            (update
              (update (update (λ t. idle) 1 (preparing [] (sender 1 ∷ []))) 1
                (registered [] (sender 1) []))
              1 (preparing (sender 1 ∷ []) []))
            1 (parked (sender 1 ∷ [])))
          2 (notifying 3))
        3 (notifying 3);
  tasks = update (update (λ t. running) 1 blocking) 1 blocked;
}

taken-Reachable :
    Reachable
      (PermittedTraffic cloning)
      (apply_ring_traffic cloning)
      (ring_traffic_wakes cloning)
      list_of
      ring_should_try
      full_rings
      taken
unfolding step give keep can_send blocks any_blocks mod_len add_task sender_should_try
    try_take_for_head try_receive_clone receive_clone_from try_strong_observe observe_from
taken-Reachable =
    later
      (later
        (later
          (later
            (later (later here (enter 1 (sender 1 ∷ []) refl))
              (prepare_to_wait 1 [] (sender 1) [] refl))
            (check 1 [] (sender 1) [] refl))
          (park 1 (sender 1 ∷ []) refl))
        (operate 2 (1, receive) refl (λ log s. omega arith)))
      (operate 3 (1, observe 0) refl (λ log s. (2, refl)))

taken-room : ring_should_try taken.shared (sender 1) ≡ true
unfolding step give keep can_send blocks any_blocks mod_len sender_should_try try_take_for_head
    try_receive_clone receive_clone_from try_strong_observe observe_from
taken-room = refl

no_room_missed_example : Pending taken 1 (put_list 1)
no_room_missed_example =
    no_room_missed cloning full_rings taken 1 (sender 1 ∷ []) 1 full_rings-StoresSome
      taken-Reachable refl refl (Prelude.here refl) taken-room
