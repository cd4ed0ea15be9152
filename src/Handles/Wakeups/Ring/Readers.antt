-- ===== src/Handles/Wakeups/Ring/Readers.antt =====
-- No reader of a ring misses a value.
use orpc_prototype.Prelude.{
  ℕ, zero, suc, ◌≡◌, ◌≢◌, refl, sym, ◌∙◌, subst, inl, inr, Bool, true, false, not, ◌&&◌, Option,
  none, some, List, [], ◌∷◌, map, index-done, done, usize_max, ◌==◌, length, get_elem?, Bool-cases,
  In, ==-refl, ==-false, ℕ_discrete,
}
use orpc_prototype.Sync.{blocked, running, blocking}
use orpc_prototype.Sync.Wakeup.{System, Reachable, parked}
use orpc_prototype.Sync.Wakeup.Invariant.{Pending}
use orpc_prototype.Sync.Wakeup.Safety.{no_lost_wakeup}
use orpc_prototype.Sync.Wakeup.Progress.{WakeRun, waker_wakes}
use orpc_prototype.Locking.{LockingTableInner, can_receive, can_strong_observe}
use orpc_prototype.Locking.History.{Mode, Stores}
use orpc_prototype.Locking.Spec
use orpc_prototype.Locking.Spec.{Spec, Op, Reply, Permitted, is_full}
use orpc_prototype.Locking.Calls.{step, view, position}
use orpc_prototype.Locking.Refine.{step-Refines}
use orpc_prototype.Locking.Reading.{Reader, receivers, observer}
use orpc_prototype.Handles.Wakeups.{
  QueueHandle, reader, sender, read_list, list_of, is_behind, should_read, wakes_readers,
}
use orpc_prototype.Handles.Wakeups.Quiet.{Quiet, step-Quiet}
use orpc_prototype.Handles.Wakeups.Ring.{
  answers_true, ring_after, apply_ring, put_value, ring_wakes, ring_should_try, StoresSome,
  PermittedCall, apply-StoresSome,
}

-- Whether a head is in use and before the tail.
abbrev pub is_short_of : ℕ → Option ℕ → Bool
is_short_of tail none = false
is_short_of tail (some h) = not (h == usize_max) && not (h == tail)

heads-view :
    (tail : ℕ) (heads : List ℕ) (i : ℕ)
    → is_behind tail (get_elem? (map position heads) i) ≡ is_short_of tail (get_elem? heads i)
heads-view tail [] i = refl
heads-view tail (h ∷ hs) zero = elim (Bool-cases (h == usize_max)) [
  | inl e ↦ rw e refl
  | inr e ↦ rw e refl
]
heads-view tail (h ∷ hs) (suc i) = heads-view tail hs i

and_right : (b c : Bool) → (b && c) ≡ true → c ≡ true
and_right true c e = e
and_right false c e = absurd (cc)

module _ {ℓ} {T : Type ℓ} where
  -- Whether there is a value for a reader that is attached.
  abbrev pub has_more : LockingTableInner T → Reader → Bool
  has_more q receivers = not (q.n_receivers == 0) && can_receive q
  has_more q (observer i) = is_short_of q.tail_index (get_elem? q.strong_observer_heads i)

  view-has_more :
      (m : Mode) (log : List T) (q : LockingTableInner T) (r : Reader)
      → Stores m log q
      → should_read (view log q) r ≡ has_more q r
  unfolding can_receive
  view-has_more m log q receivers s = elim (Bool-cases (q.n_receivers == 0)) [
    | inl e ↦ rw e refl
    | inr e ↦ rw (e, s.total) refl
  ]
  view-has_more m log q (observer i) s =
      rw s.total (heads-view q.tail_index q.strong_observer_heads i)

  has_more-should_try :
      (qs : ℕ → LockingTableInner T) (k : ℕ) (r : Reader)
      → has_more (qs k) r ≡ true
      → ring_should_try qs (reader k r) ≡ true
  unfolding can_strong_observe
  has_more-should_try qs k receivers e =
      and_right (not ((qs k).n_receivers == 0)) (can_receive (qs k)) e
  has_more-should_try qs k (observer i) e = go (get_elem? (qs k).strong_observer_heads i) refl
    where
      go :
          (p : Option ℕ)
          → get_elem? (qs k).strong_observer_heads i ≡ p
          → answers_true (can_strong_observe (qs k) i) ≡ true
      go none f = absurd (let g : false ≡ true = rw f at e in cc)
      go (some h) f =
          let g : (not (h == usize_max) && not (h == (qs k).tail_index)) ≡ true = rw f at e in
          rw (index-done (qs k).strong_observer_heads i h f)
            (and_right (not (h == usize_max)) (not (h == (qs k).tail_index)) g)

  -- Whether there is a value for the reader, if the handle is that of one.
  abbrev pub reader_has_more : (ℕ → LockingTableInner T) → QueueHandle → Bool
  reader_has_more qs (reader k r) = has_more (qs k) r
  reader_has_more qs (sender k) = false

  reader_has_more-should_try :
      (qs : ℕ → LockingTableInner T) (h : QueueHandle)
      → reader_has_more qs h ≡ true
      → ring_should_try qs h ≡ true
  reader_has_more-should_try qs (reader k r) e = has_more-should_try qs k r e
  reader_has_more-should_try qs (sender k) e = absurd (cc)

  unwoken :
      (m : Mode) (log : List T) (q q' : LockingTableInner T) (o : Op T)
      → put_value o (done ((Spec.step (length q.buffer) (view log q) o).0, q')) ≡ false
      → wakes_readers (length q.buffer) (view log q) o ≡ false
  unfolding Spec.step
  unwoken m log q q' (Op.send x) e = elim (Bool-cases (is_full (length q.buffer) (view log q))) [
    | inl f ↦ rw f refl
    | inr f ↦ absurd (let g : true ≡ false = rw (f, Spec.send_value) at e in cc)
  ]
  unwoken m log q q' Op.receive e = refl
  unwoken m log q q' (Op.observe i) e = refl
  unwoken m log q q' Op.attach_receiver e = refl
  unwoken m log q q' Op.drop_receiver e = refl
  unwoken m log q q' Op.attach_observer e = refl
  unwoken m log q q' (Op.drop_observer i) e = refl

  not_put :
      (m : Mode) (qs : ℕ → LockingTableInner T) (k : ℕ) (o : Op T)
      → ring_wakes m qs (k, o) ≢ some (read_list k)
      → put_value o (step m (qs k) o) ≡ false
  not_put m qs k o n = elim (Bool-cases (put_value o (step m (qs k) o))) [
    | inl f ↦ absurd (n (rw f refl))
    | inr f ↦ f
  ]

  -- A call does not make a reader ready without waking the readers.
  ring-Quiet :
      (m : Mode) (log : List T) (q : LockingTableInner T) (o : Op T) (r : Reader)
      → Stores m log q
      → Permitted (view log q) o
      → put_value o (step m q o) ≡ false
      → has_more (ring_after q (step m q o)) r ≡ true
      → has_more q r ≡ true
  unfolding Quiet
  ring-Quiet m log q o r s p unput more =
      let (q', runs, same, stores, size) = step-Refines m log q o s p in
      let out = Spec.step (length q.buffer) (view log q) o in
      let more' : has_more q' r ≡ true = rw runs at more in
      let seen : should_read out.1 r ≡ true =
        subst (λ (w : Spec T). should_read w r ≡ true) same
          (view-has_more m out.1.log q' r stores ∙ more') in
      sym (view-has_more m log q r s)
      ∙ step-Quiet (length q.buffer) (view log q) o (unwoken m log q q' o (rw runs at unput)) r seen

  apply-Quiet :
      (m : Mode) (qs : ℕ → LockingTableInner T) (o : ℕ × Op T) (h : QueueHandle)
      → StoresSome m qs
      → PermittedCall m qs o
      → ring_wakes m qs o ≢ some (list_of h)
      → reader_has_more (apply_ring m qs o) h ≡ true
      → reader_has_more qs h ≡ true
  apply-Quiet m qs (k, o) (sender j) good may n e = absurd (cc)
  apply-Quiet m qs (k, o) (reader j r) good may n e = elim (ℕ_discrete k j) [
    | yes p ↦
        let (log, s) = good k in
        let n' : ring_wakes m qs (k, o) ≢ some (read_list k) =
          subst (λ i. ring_wakes m qs (k, o) ≢ some (read_list i)) (sym p) n in
        subst (λ i. has_more (qs i) r ≡ true) p
          (ring-Quiet m log (qs k) o r s (may log s) (not_put m qs k o n')
            (rw (sym p, ==-refl k) at e))
    | no d ↦ rw (==-false k j d) at e
  ]

  -- No reader misses a value, in any interleaving of any number of tasks that make permitted calls
  -- on queues whose rings each store a history at the start, and that wait with `block_on`, each on
  -- any receivers, strong observers and senders, from a start at which all tasks run and none waits:
  -- a task that is parked in the state `Blocked` although there is a value for one of the readers
  -- that it waits for is in the wait list of that queue's readers and some task is about to take the
  -- list, or it is in a list that a task is unparking.
  pub no_value_missed :
      (m : Mode) (qs : ℕ → LockingTableInner T) (s : System (ℕ → LockingTableInner T) QueueHandle)
      (t : ℕ) (hs : List QueueHandle) (k : ℕ) (r : Reader)
      → StoresSome m qs
      → Reachable (PermittedCall m) (apply_ring m) (ring_wakes m) list_of ring_should_try qs s
      → s.pc t ≡ parked hs
      → s.tasks t ≡ blocked
      → In (reader k r) hs
      → has_more (s.shared k) r ≡ true
      → Pending s t (read_list k)
  no_value_missed m qs s t hs k r =
      no_lost_wakeup (PermittedCall m) (apply_ring m) (ring_wakes m) list_of ring_should_try
        reader_has_more reader_has_more-should_try (StoresSome m) (apply-StoresSome m)
        (λ q o h good may n e. apply-Quiet m q o h good may n e) qs s t hs (reader k r)

  -- A reader that is parked although there is a value for it can be woken without any further call
  -- and without any other task: from every state that tasks with permitted calls on queues whose rings
  -- each store a history reach and in which no task is in the state `Blocking`, the steps of the
  -- `wake_all` that one task is in, and no others, lead to a state in which the task that waits for the
  -- reader is running.
  pub reader_wakes :
      (m : Mode) (qs : ℕ → LockingTableInner T) (s : System (ℕ → LockingTableInner T) QueueHandle)
      (t : ℕ) (hs : List QueueHandle) (k : ℕ) (r : Reader)
      → StoresSome m qs
      → Reachable (PermittedCall m) (apply_ring m) (ring_wakes m) list_of ring_should_try qs s
      → s.pc t ≡ parked hs
      → s.tasks t ≡ blocked
      → In (reader k r) hs
      → has_more (s.shared k) r ≡ true
      → ((u : ℕ) → s.tasks u ≢ blocking)
      → (w : ℕ) × (s' : System (ℕ → LockingTableInner T) QueueHandle) × WakeRun w s s'
        × (s'.tasks t ≡ running)
  reader_wakes m qs s t hs k r good reach at b among more awake =
      waker_wakes s t (read_list k) (no_value_missed m qs s t hs k r good reach at b among more)
        awake
