-- ===== src/Handles/Wakeups/Readers.antt =====
-- No reader misses a value, whatever is done with the queues.
use orpc_prototype.Prelude.{
  ℕ, ◌≡◌, ◌≢◌, refl, sym, subst, inl, inr, Bool, true, false, some, List, Bool-cases, ==-false,
  ==-refl, ℕ_discrete, In,
}
use orpc_prototype.Sync.{blocked}
use orpc_prototype.Sync.Wakeup.{System, Reachable, parked}
use orpc_prototype.Sync.Wakeup.Invariant.{Pending}
use orpc_prototype.Sync.Wakeup.Safety.{no_lost_wakeup}
use orpc_prototype.Locking.Spec.{Spec, Op}
use orpc_prototype.Locking.Reading.{Reader}
use orpc_prototype.Handles.Wakeups.Quiet.{Quiet, step-Quiet}
use orpc_prototype.Handles.Wakeups.{
  AnyCall, AnyQueues, QueueHandle, reader, sender, read_list, list_of, should_read, wakes_readers,
  apply, wakes, handle_should_try,
}

module _ {ℓ} {T : Type ℓ} where
  -- Whether the handle is that of a reader which should try.
  abbrev reader_ready : (ℕ → Spec T) → QueueHandle → Bool
  reader_ready qs (reader k r) = should_read (qs k) r
  reader_ready qs (sender k) = false

  reader_ready-handle_should_try :
      (turns : ℕ → ℕ) (qs : ℕ → Spec T) (h : QueueHandle)
      → reader_ready qs h ≡ true
      → handle_should_try turns qs h ≡ true
  reader_ready-handle_should_try turns qs (reader k r) e = e
  reader_ready-handle_should_try turns qs (sender k) e = absurd (cc)

  apply-Quiet :
      (turns : ℕ → ℕ) (qs : ℕ → Spec T) (o : ℕ × Op T) (h : QueueHandle)
      → wakes turns qs o ≢ some (list_of h)
      → reader_ready (apply turns qs o) h ≡ true
      → reader_ready qs h ≡ true
  unfolding Quiet
  apply-Quiet turns qs (k, o) (sender j) n e = absurd (cc)
  apply-Quiet turns qs (k, o) (reader j r) n e = elim (ℕ_discrete k j) [
    | yes p ↦
        subst (λ i. should_read (qs i) r ≡ true) p
          (step-Quiet (turns k) (qs k) o
            (unwoken (subst (λ i. wakes turns qs (k, o) ≢ some (read_list i)) (sym p) n)) r
            (rw (sym p, ==-refl k) at e))
    | no m ↦ rw (==-false k j m) at e
  ]
    where
      unwoken :
          wakes turns qs (k, o) ≢ some (read_list k) → wakes_readers (turns k) (qs k) o ≡ false
      unwoken m = elim (Bool-cases (wakes_readers (turns k) (qs k) o)) [
        | inl f ↦ absurd (m (rw f refl))
        | inr f ↦ f
      ]

  -- No reader misses a value, in any interleaving of any number of tasks that send, receive,
  -- observe, attach and detach on any queues, and that wait with `block_on`, each on any receivers,
  -- strong observers and senders, from a start at which all tasks run and none waits: a task that is
  -- parked in the state `Blocked` although there is a value for one of the readers that it waits
  -- for is in the wait list of that queue's readers and some sender is about to take the list, or it
  -- is in a list that a task is unparking.
  pub no_reader_missed :
      (turns : ℕ → ℕ) (qs : ℕ → Spec T) (s : System (ℕ → Spec T) QueueHandle) (t : ℕ)
      (hs : List QueueHandle) (k : ℕ) (r : Reader)
      → Reachable AnyCall (apply turns) (wakes turns) list_of (handle_should_try turns) qs s
      → s.pc t ≡ parked hs
      → s.tasks t ≡ blocked
      → In (reader k r) hs
      → should_read (s.shared k) r ≡ true
      → Pending s t (read_list k)
  no_reader_missed turns qs s t hs k r =
      no_lost_wakeup AnyCall (apply turns) (wakes turns) list_of (handle_should_try turns)
        reader_ready (reader_ready-handle_should_try turns) AnyQueues (λ q o g a. tt)
        (λ q o h g a. apply-Quiet turns q o h) qs s t hs (reader k r) tt
