-- ===== src/Handles/Wakeups/Senders.antt =====
-- No sender misses that there is room, as long as no handle is dropped or attached.
use orpc_prototype.Prelude.{
  ℕ, ◌≡◌, ◌≢◌, refl, sym, subst, inl, inr, arith, Bool, true, false, Option, none, some, List,
  get_elem?, Bool-cases, In, ==-refl, ==-false, ℕ_discrete,
}
use orpc_prototype.Sync.{blocked}
use orpc_prototype.Sync.Wakeup.{System, Reachable, parked}
use orpc_prototype.Sync.Wakeup.Invariant.{Pending}
use orpc_prototype.Sync.Wakeup.Safety.{no_lost_wakeup}
use orpc_prototype.Locking.Spec
use orpc_prototype.Locking.Spec.{Spec, Op, Reply, is_full}
use orpc_prototype.Handles.Wakeups.{
  AnyCall, AnyQueues, QueueHandle, reader, sender, put_list, list_of, should_send, wakes_senders,
  has_value, apply, wakes, handle_should_try,
}
use orpc_prototype.Handles.Wakeups.Quiet.{full}

-- The calls that move values.
pub data Traffic {ℓ} (T : Type ℓ) : Type ℓ where
  put : T → Traffic T
  receive : Traffic T
  observe : ℕ → Traffic T

module _ {ℓ} {T : Type ℓ} where
  abbrev pub op_of : Traffic T → Op T
  op_of (put x) = Op.send x
  op_of receive = Op.receive
  op_of (observe i) = Op.observe i

  -- The calls on the queues with these numbers of values.
  abbrev pub apply_traffic : (ℕ → ℕ) → (ℕ → Spec T) → ℕ × Traffic T → ℕ → Spec T
  apply_traffic turns qs (k, o) = apply turns qs (k, op_of o)

  abbrev pub wakes_traffic : (ℕ → ℕ) → (ℕ → Spec T) → ℕ × Traffic T → Option ℕ
  wakes_traffic turns qs (k, o) = wakes turns qs (k, op_of o)

  receive-none :
      (s : Spec T) (p : Option ℕ)
      → has_value (Spec.receive_value s p).0 ≡ false
      → (Spec.receive_value s p).1 ≡ s
  unfolding Spec.step
  receive-none s none e = refl
  receive-none s (some c) e = ground arith

  observe-none :
      (s : Spec T) (i : ℕ) (p : Option (Option ℕ))
      → has_value (Spec.observe_value s i p).0 ≡ false
      → (Spec.observe_value s i p).1 ≡ s
  unfolding Spec.step
  observe-none s i none e = refl
  observe-none s i (some none) e = refl
  observe-none s i (some (some c)) e = ground arith

  pub traffic-Quiet :
      (turn : ℕ) (s : Spec T) (o : Traffic T)
      → wakes_senders turn s (op_of o) ≡ false
      → should_send turn (Spec.step turn s (op_of o)).1 ≡ true
      → should_send turn s ≡ true
  unfolding Spec.step
  traffic-Quiet turn s (put x) e h = elim (Bool-cases (is_full turn s)) [
    | inl f ↦ subst (λ (out : Reply T × Spec T). should_send turn out.1 ≡ true) (full turn s x f) h
    | inr f ↦ rw f
  ]
  traffic-Quiet turn s receive e h =
      subst (λ s'. should_send turn s' ≡ true) (receive-none s s.next e) h
  traffic-Quiet turn s (observe i) e h =
      subst (λ s'. should_send turn s' ≡ true) (observe-none s i (get_elem? s.observers i) e) h

  -- Whether the handle is that of a sender which should try.
  abbrev sender_ready : (ℕ → ℕ) → (ℕ → Spec T) → QueueHandle → Bool
  sender_ready turns qs (reader k r) = false
  sender_ready turns qs (sender k) = should_send (turns k) (qs k)

  sender_ready-handle_should_try :
      (turns : ℕ → ℕ) (qs : ℕ → Spec T) (h : QueueHandle)
      → sender_ready turns qs h ≡ true
      → handle_should_try turns qs h ≡ true
  sender_ready-handle_should_try turns qs (reader k r) e = absurd (cc)
  sender_ready-handle_should_try turns qs (sender k) e = e

  unwoken :
      (turns : ℕ → ℕ) (qs : ℕ → Spec T) (k : ℕ) (o : Traffic T)
      → wakes_traffic turns qs (k, o) ≢ some (put_list k)
      → wakes_senders (turns k) (qs k) (op_of o) ≡ false
  unwoken turns qs k (put x) n = refl
  unwoken turns qs k receive n = elim (Bool-cases (wakes_senders (turns k) (qs k) Op.receive)) [
    | inl f ↦ absurd (n (rw f refl))
    | inr f ↦ f
  ]
  unwoken turns qs k (observe i) n =
      elim (Bool-cases (wakes_senders (turns k) (qs k) (Op.observe i))) [
        | inl f ↦ absurd (n (rw f refl))
        | inr f ↦ f
      ]

  apply-Quiet :
      (turns : ℕ → ℕ) (qs : ℕ → Spec T) (o : ℕ × Traffic T) (h : QueueHandle)
      → wakes_traffic turns qs o ≢ some (list_of h)
      → sender_ready turns (apply_traffic turns qs o) h ≡ true
      → sender_ready turns qs h ≡ true
  apply-Quiet turns qs (k, o) (reader j r) n e = absurd (cc)
  apply-Quiet turns qs (k, o) (sender j) n e = elim (ℕ_discrete k j) [
    | yes p ↦
        subst (λ i. should_send (turns i) (qs i) ≡ true) p
          (traffic-Quiet (turns k) (qs k) o
            (unwoken turns qs k o
              (subst (λ i. wakes_traffic turns qs (k, o) ≢ some (put_list i)) (sym p) n))
            (rw (sym p, ==-refl k) at e))
    | no m ↦ rw (==-false k j m) at e
  ]

  -- No sender misses room, in any interleaving of any number of tasks that send, receive and observe
  -- on any queues, and that wait with `block_on`, each on any receivers, strong observers and
  -- senders, from a start at which all tasks run and none waits: a task that is parked in the state
  -- `Blocked` although there is room for one of the senders that it waits for is in the wait list of
  -- that queue's senders and some reader is about to take the list, or it is in a list that a task
  -- is unparking. No handle is dropped or attached meanwhile.
  pub no_sender_missed :
      (turns : ℕ → ℕ) (qs : ℕ → Spec T) (s : System (ℕ → Spec T) QueueHandle) (t : ℕ)
      (hs : List QueueHandle) (k : ℕ)
      → Reachable AnyCall
          (apply_traffic turns)
          (wakes_traffic turns)
          list_of
          (handle_should_try turns)
          qs
          s
      → s.pc t ≡ parked hs
      → s.tasks t ≡ blocked
      → In (sender k) hs
      → should_send (turns k) (s.shared k) ≡ true
      → Pending s t (put_list k)
  no_sender_missed turns qs s t hs k =
      no_lost_wakeup AnyCall (apply_traffic turns) (wakes_traffic turns) list_of
        (handle_should_try turns) (sender_ready turns) (sender_ready-handle_should_try turns)
        AnyQueues (λ q o g a. tt) (λ q o h g a. apply-Quiet turns q o h) qs s t hs (sender k) tt
