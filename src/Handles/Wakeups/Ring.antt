-- ===== src/Handles/Wakeups/Ring.antt =====
-- orpc/src/oqueue/locking.rs: the handles of queues that are rings, as what tasks wait for. The queues
-- are what the mutexes guard, an operation is a call of the handle's method, and `should_try` is the
-- handle's.
pub mod Readers
pub mod Senders
mod Tests
use orpc_prototype.Prelude.{
  ℕ, zero, suc, ◌≡◌, ◌≢◌, refl, sym, ap, ◌∙◌, subst, inl, inr, Bool, true, false, not, ◌&&◌, Option,
  none, some, List, [], ◌∷◌, map, index-done, Outcome, Panic, done, panic, ◌>>=◌, usize_max, ◌==◌,
  if◌then◌else◌, length, get_elem?, Bool-cases, In, ==-refl, ==-false, ℕ_discrete,
}
use orpc_prototype.Sync.{blocked, update}
use orpc_prototype.Sync.Wakeup.{System, Reachable, parked}
use orpc_prototype.Sync.Wakeup.Invariant.{Pending}
use orpc_prototype.Sync.Wakeup.Safety.{no_lost_wakeup}
use orpc_prototype.Locking.{LockingTableInner, can_receive, can_strong_observe}
use orpc_prototype.Locking.History.{Mode, Stores}
use orpc_prototype.Locking.Spec
use orpc_prototype.Locking.Spec.{Spec, Op, Reply, Permitted, is_full}
use orpc_prototype.Locking.Calls.{step, view, position, Refines}
use orpc_prototype.Locking.Refine.{step-Refines}
use orpc_prototype.Locking.Blocking.{sender_should_try}
use orpc_prototype.Locking.Reading.{Reader, receivers, observer, place}
use orpc_prototype.Handles.Wakeups.{
  QueueHandle, reader, sender, read_list, list_of, list_woken, has_value, is_behind, should_read,
  wakes_readers,
}
use orpc_prototype.Handles.Wakeups.Quiet.{Quiet, step-Quiet}

-- What a call that may panic answers.
abbrev pub answers_true : Outcome Bool → Bool
answers_true (done b) = b
answers_true (panic p) = false

module _ {ℓ} {T : Type ℓ} where
  abbrev pub ring_after :
      LockingTableInner T → Outcome (Reply T × LockingTableInner T) → LockingTableInner T
  ring_after q (done (r, q')) = q'
  ring_after q (panic p) = q

  -- The critical section of a call on queue `k`.
  abbrev pub apply_ring : Mode → (ℕ → LockingTableInner T) → ℕ × Op T → ℕ → LockingTableInner T
  apply_ring m qs (k, o) = update qs k (ring_after (qs k) (step m (qs k) o))

  -- Whether `try_send` put its value, and whether a read returned one.
  abbrev pub put_value : Op T → Outcome (Reply T × LockingTableInner T) → Bool
  put_value (Op.send x) (done (Reply.returned none, q)) = true
  put_value o out = false

  abbrev pub took_value : Op T → Outcome (Reply T × LockingTableInner T) → Bool
  took_value Op.receive (done (r, q)) = has_value r
  took_value (Op.observe i) (done (r, q)) = has_value r
  took_value o out = false

  abbrev pub ring_wakes : Mode → (ℕ → LockingTableInner T) → ℕ × Op T → Option ℕ
  ring_wakes m qs (k, o) =
      list_woken k (put_value o (step m (qs k) o)) (took_value o (step m (qs k) o))

  abbrev pub ring_should_try : (ℕ → LockingTableInner T) → QueueHandle → Bool
  ring_should_try qs (reader k receivers) = can_receive (qs k)
  ring_should_try qs (reader k (observer i)) = answers_true (can_strong_observe (qs k) i)
  ring_should_try qs (sender k) = answers_true (sender_should_try (qs k))

  -- The ring stores some history, and the calls are those that the ownership of handles permits.
  abbrev pub StoresSome : Mode → (ℕ → LockingTableInner T) → Type ℓ
  StoresSome m qs = (k : ℕ) → (log : List T) × Stores m log (qs k)

  abbrev pub PermittedCall : Mode → (ℕ → LockingTableInner T) → ℕ × Op T → Type ℓ
  PermittedCall m qs (k, o) = (log : List T) → Stores m log (qs k) → Permitted (view log (qs k)) o

  pub apply-StoresSome :
      (m : Mode) (qs : ℕ → LockingTableInner T) (o : ℕ × Op T)
      → StoresSome m qs
      → PermittedCall m qs o
      → StoresSome m (apply_ring m qs o)
  apply-StoresSome m qs (k, o) good may j = elim (ℕ_discrete k j) [
    | yes p ↦
        let (log, s) = good k in
        let (q', runs, same, stores, size) = step-Refines m log (qs k) o s (may log s) in
        let out = Spec.step (length (qs k).buffer) (view log (qs k)) o in
        (out.1.log, subst (λ q. Stores m out.1.log q) (sym (at_index p q' runs)) stores)
    | no d ↦ rw (==-false k j d) (good j)
  ]
    where
      at_index :
          k ≡ j
          → (q' : LockingTableInner T) → {r : Reply T} → step m (qs k) o ≡ done (r, q')
          → apply_ring m qs (k, o) j ≡ q'
      at_index p q' runs = rw (sym p, ==-refl k, runs) refl
