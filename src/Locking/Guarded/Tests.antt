-- ===== src/Locking/Guarded/Tests.antt =====
-- Calls on a new queue, and a call that panics.
use orpc_prototype.Prelude.{
  ℕ, ◌≡◌, refl, true, arith, List, [], ◌∷◌, map, done, panic, sub_overflow,
}
use orpc_prototype.Sync.Mutex.{new_mutex, lock, release, section}
use orpc_prototype.Locking
use orpc_prototype.Locking.{LockingTableInner, new_inner}
use orpc_prototype.Locking.History.{cloning}
use orpc_prototype.Locking.Spec
use orpc_prototype.Locking.Spec.{Spec, Op, AllPermitted}
use orpc_prototype.Locking.Calls.{step, view}
use orpc_prototype.Locking.Guarded.{locked_call, locked_calls, new_spec, locked_calls_lem}
use orpc_prototype.Locking.Guarded.Poisoned.{poisoned_reply, locked_calls-Panicked}

-- A new queue for two values, with a receiver.
abbrev few_calls : List (Op ℕ)
few_calls = Op.attach_receiver ∷ Op.send 41 ∷ Op.receive ∷ []

few_permitted : AllPermitted 2 (new_spec 5) few_calls
unfolding Spec.step
few_permitted = (omega arith, (omega arith, (omega arith, tt)))

locked_calls_lem_example :
    (q : LockingTableInner ℕ) × (locked_calls cloning (new_mutex (new_inner ℕ 2 5)) few_calls
      ≡ (map (λ r. done r) (Spec.run 2 (new_spec 5) few_calls).0, new_mutex q))
    × (view (Spec.run 2 (new_spec 5) few_calls).1.log q ≡ (Spec.run 2 (new_spec 5) few_calls).1)
locked_calls_lem_example =
    locked_calls_lem cloning 2 5 few_calls (omega arith) (λ e. absurd (cc)) few_permitted

-- A receiver that is dropped although none is attached.
drop_panics :
    (locked_call cloning (new_mutex (new_inner ℕ 2 5)) Op.drop_receiver).0 ≡ panic sub_overflow
unfolding locked_call section lock release step new_inner Locking.drop_receiver
drop_panics = refl

locked_calls-Panicked_example :
    locked_calls cloning (new_mutex (new_inner ℕ 2 5)) (Op.drop_receiver ∷ few_calls) ≡ (
      (locked_call cloning (new_mutex (new_inner ℕ 2 5)) Op.drop_receiver).0
          ∷ map (poisoned_reply cloning) few_calls,
      record (new_mutex (new_inner ℕ 2 5)) { is_poisoned = true },
    )
locked_calls-Panicked_example =
    locked_calls-Panicked cloning (new_mutex (new_inner ℕ 2 5)) Op.drop_receiver few_calls refl
      (sub_overflow, drop_panics)
