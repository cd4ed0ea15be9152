-- ===== src/Handles/Wakeups/Ring/Senders.antt =====
-- No sender misses that there is room in a ring, as long as no handle is dropped or attached.
use orpc_prototype.Prelude.{
  ℕ, ◌≡◌, ◌≢◌, refl, sym, ◌∙◌, subst, inl, inr, Bool, true, false, Option, some, List, done, length,
  Bool-cases, In, ==-refl, ==-false, ℕ_discrete,
}
use orpc_prototype.Sync.{blocked}
use orpc_prototype.Sync.Wakeup.{System, Reachable, parked}
use orpc_prototype.Sync.Wakeup.Invariant.{Pending}
use orpc_prototype.Sync.Wakeup.Safety.{no_lost_wakeup}
use orpc_prototype.Locking.{LockingTableInner}
use orpc_prototype.Locking.History.{Mode, Stores}
use orpc_prototype.Locking.Spec
use orpc_prototype.Locking.Spec.{Spec, Op, Reply, Permitted, is_full}
use orpc_prototype.Locking.Calls.{step, view}
use orpc_prototype.Locking.Refine.{step-Refines}
use orpc_prototype.Locking.Blocking.{sender_should_try}
use orpc_prototype.Handles.Wakeups.{QueueHandle, reader, sender, list_of}
use orpc_prototype.Handles.Wakeups.Ring.{
  answers_true, ring_after, apply_ring, took_value, ring_wakes, ring_should_try, StoresSome,
  PermittedCall, apply-StoresSome,
}
use orpc_prototype.Locking.Invariant.{can_send_lem}
use orpc_prototype.Locking.Invariant
use orpc_prototype.Locking.Receivers.{is_full-view}
use orpc_prototype.Handles.Wakeups.{should_send, wakes_senders, put_list}
use orpc_prototype.Handles.Wakeups.Senders.{Traffic, put, receive, observe, op_of, traffic-Quiet}

module _ {ℓ} {T : Type ℓ} where
  -- The calls that move values, on rings.
  abbrev pub apply_ring_traffic :
      Mode → (ℕ → LockingTableInner T) → ℕ × Traffic T → ℕ → LockingTableInner T
  apply_ring_traffic m qs (k, o) = apply_ring m qs (k, op_of o)

  abbrev pub ring_traffic_wakes : Mode → (ℕ → LockingTableInner T) → ℕ × Traffic T → Option ℕ
  ring_traffic_wakes m qs (k, o) = ring_wakes m qs (k, op_of o)

  abbrev pub PermittedTraffic : Mode → (ℕ → LockingTableInner T) → ℕ × Traffic T → Type ℓ
  PermittedTraffic m qs (k, o) = PermittedCall m qs (k, op_of o)

  -- Whether there is room for the sender, if the handle is that of one.
  abbrev pub sender_has_room : (ℕ → LockingTableInner T) → QueueHandle → Bool
  sender_has_room qs (reader k r) = false
  sender_has_room qs (sender k) = answers_true (sender_should_try (qs k))

  sender_has_room-should_try :
      (qs : ℕ → LockingTableInner T) (h : QueueHandle)
      → sender_has_room qs h ≡ true
      → ring_should_try qs h ≡ true
  sender_has_room-should_try qs (reader k r) e = absurd (cc)
  sender_has_room-should_try qs (sender k) e = e

  view-room :
      (m : Mode) (log : List T) (q : LockingTableInner T)
      → Stores m log q
      → answers_true (sender_should_try q) ≡ should_send (length q.buffer) (view log q)
  unfolding sender_should_try
  view-room m log q s = elim (Bool-cases (Invariant.is_full q)) [
    | inl e ↦ rw (can_send_lem q s.valid, ← is_full-view log q s.total, e) refl
    | inr e ↦ rw (can_send_lem q s.valid, ← is_full-view log q s.total, e) refl
  ]

  untaken :
      (q q' : LockingTableInner T) (log : List T) (o : Traffic T)
      → took_value (op_of o) (done ((Spec.step (length q.buffer) (view log q) (op_of o)).0, q'))
        ≡ false
      → wakes_senders (length q.buffer) (view log q) (op_of o) ≡ false
  untaken q q' log (put x) e = refl
  untaken q q' log receive e = e
  untaken q q' log (observe i) e = e

  not_taken :
      (m : Mode) (qs : ℕ → LockingTableInner T) (k : ℕ) (o : Traffic T)
      → ring_traffic_wakes m qs (k, o) ≢ some (put_list k)
      → took_value (op_of o) (step m (qs k) (op_of o)) ≡ false
  not_taken m qs k (put x) n = refl
  not_taken m qs k receive n =
      elim (Bool-cases (took_value Op.receive (step m (qs k) Op.receive))) [
        | inl f ↦ absurd (n (rw f refl))
        | inr f ↦ f
      ]
  not_taken m qs k (observe i) n =
      elim (Bool-cases (took_value (Op.observe i) (step m (qs k) (Op.observe i)))) [
        | inl f ↦ absurd (n (rw f refl))
        | inr f ↦ f
      ]

  -- A call does not make room without waking the senders.
  room-Quiet :
      (m : Mode) (log : List T) (q : LockingTableInner T) (o : Traffic T)
      → Stores m log q
      → Permitted (view log q) (op_of o)
      → took_value (op_of o) (step m q (op_of o)) ≡ false
      → answers_true (sender_should_try (ring_after q (step m q (op_of o)))) ≡ true
      → answers_true (sender_should_try q) ≡ true
  room-Quiet m log q o s p untook room =
      let (q', runs, same, stores, size) = step-Refines m log q (op_of o) s p in
      let out = Spec.step (length q.buffer) (view log q) (op_of o) in
      let room' : answers_true (sender_should_try q') ≡ true = rw runs at room in
      let seen : should_send (length q'.buffer) (view out.1.log q') ≡ true =
        sym (view-room m out.1.log q' stores) ∙ room' in
      let sized : should_send (length q.buffer) (view out.1.log q') ≡ true =
        subst (λ n. should_send n (view out.1.log q') ≡ true) size seen in
      let spec : should_send (length q.buffer) out.1 ≡ true =
        subst (λ (w : Spec T). should_send (length q.buffer) w ≡ true) same sized in
      view-room m log q s
      ∙ traffic-Quiet (length q.buffer) (view log q) o (untaken q q' log o (rw runs at untook)) spec

  apply-Quiet :
      (m : Mode) (qs : ℕ → LockingTableInner T) (o : ℕ × Traffic T) (h : QueueHandle)
      → StoresSome m qs
      → PermittedTraffic m qs o
      → ring_traffic_wakes m qs o ≢ some (list_of h)
      → sender_has_room (apply_ring_traffic m qs o) h ≡ true
      → sender_has_room qs h ≡ true
  apply-Quiet m qs (k, o) (reader j r) good may n e = absurd (cc)
  apply-Quiet m qs (k, o) (sender j) good may n e = elim (ℕ_discrete k j) [
    | yes p ↦
        let (log, s) = good k in
        let n' : ring_traffic_wakes m qs (k, o) ≢ some (put_list k) =
          subst (λ i. ring_traffic_wakes m qs (k, o) ≢ some (put_list i)) (sym p) n in
        subst (λ i. answers_true (sender_should_try (qs i)) ≡ true) p
          (room-Quiet m log (qs k) o s (may log s) (not_taken m qs k o n')
            (rw (sym p, ==-refl k) at e))
    | no d ↦ rw (==-false k j d) at e
  ]

  -- No sender misses room, in any interleaving of any number of tasks that send, receive and observe
  -- as far as the ownership of handles permits on queues whose rings each store a history at the
  -- start, and that wait with `block_on`, each on any receivers, strong observers and senders, from
  -- a start at which all tasks run and none waits: a task that is parked in the state `Blocked`
  -- although `should_try` holds of one of the senders that it waits for is in the wait list of that
  -- queue's senders and some task is about to take the list, or it is in a list that a task is
  -- unparking. No handle is dropped or attached meanwhile.
  pub no_room_missed :
      (m : Mode) (qs : ℕ → LockingTableInner T) (s : System (ℕ → LockingTableInner T) QueueHandle)
      (t : ℕ) (hs : List QueueHandle) (k : ℕ)
      → StoresSome m qs
      → Reachable
          (PermittedTraffic m)
          (apply_ring_traffic m)
          (ring_traffic_wakes m)
          list_of
          ring_should_try
          qs
          s
      → s.pc t ≡ parked hs
      → s.tasks t ≡ blocked
      → In (sender k) hs
      → ring_should_try s.shared (sender k) ≡ true
      → Pending s t (put_list k)
  no_room_missed m qs s t hs k =
      no_lost_wakeup (PermittedTraffic m) (apply_ring_traffic m) (ring_traffic_wakes m) list_of
        ring_should_try sender_has_room sender_has_room-should_try (StoresSome m)
        (λ q o good may. apply-StoresSome m q (o.0, op_of o.1) good may)
        (λ q o h good may n e. apply-Quiet m q o h good may n e) qs s t hs (sender k)
