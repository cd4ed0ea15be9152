-- ===== src/Locking/Tests.antt =====
-- The ring on concrete inputs, and the theorems at inputs that meet their hypotheses.
use orpc_prototype.Prelude.{
  ℕ, zero, suc, ◌+◌, ◌-◌, ◌%◌, ◌≤◌, ◌≡◌, refl, arith, none, some, List, [], ◌∷◌, ◌++◌, Outcome,
  done, ◌>>=◌, usize_max, ltb, if◌then◌else◌, length, get_elem?, drop,
}
use orpc_prototype.Cursor.{cursor}
use orpc_prototype.Locking.{LockingTableInner, new_inner, try_weak_observe}
use orpc_prototype.Locking.History.{cloning, Stores}
use orpc_prototype.Locking.Spec
use orpc_prototype.Locking.Spec.{Op, Reply}
use orpc_prototype.Locking.Calls.{step, run, view}
use orpc_prototype.Locking
use orpc_prototype.Locking.{
  blocks, any_blocks, mod_len, try_take_for_head, allocate_observer, can_receive, can_send,
  try_send, try_receive_clone, try_strong_observe, can_strong_observe,
}
use orpc_prototype.Locking.Refine.{RunRefines, run-RunRefines}
use orpc_prototype.Locking.Ownership.{FreeSlots}
use orpc_prototype.Locking.Reading.{AllStay, observer, all_read, all_accepted}
use orpc_prototype.Locking.Order.{read_in_order}
use orpc_prototype.Locking.Weak.{
  weak_observe_recent, try_weak_observe_lem, try_weak_observe-tail, weak_observe_recent_lem,
}

-- Three values sent through a ring of two slots; one receiver, one observer.
abbrev pub log3 : List ℕ
log3 = 42 ∷ 43 ∷ 44 ∷ []

abbrev pub ring : LockingTableInner ℕ
ring = record {
  buffer = some 44 ∷ some 43 ∷ [];
  n_receivers = 1;
  head_index = 2;
  tail_index = 3;
  strong_observer_heads = 2 ∷ usize_max ∷ [];
  free_strong_observer_heads = 1 ∷ [];
}

ring-kept :
    (i x : ℕ)
    → get_elem? log3 i ≡ some x
    → 3 ≤ i + 2
    → get_elem? ring.buffer (i % 2) ≡ some (some x)
ring-kept zero x e near = absurd (omega arith)
ring-kept (suc zero) x e near = cc
ring-kept (suc (suc zero)) x e near = cc
ring-kept (suc (suc (suc i))) x e near = absurd (cc)

pub ring-Stores : Stores cloning log3 ring
ring-Stores = record {
  valid = record {
    capacity = omega arith;
    bounded = omega arith;
    counted = omega arith;
    receiver = λ h. omega arith;
    detached = λ e. absurd (omega arith);
    observers = ((λ n. omega arith), ((λ n. absurd (n refl)), tt));
    free_slots = omega arith;
  };
  total = refl;
  kept = λ i x e near k. ring-kept i x e near;
  blank = λ i le lt. absurd (omega arith);
  unobserved = λ e. absurd (cc);
}

ring-FreeSlots : FreeSlots (view log3 ring)
ring-FreeSlots = record { vacant = (refl, tt); distinct = (tt, tt) }

abbrev calls : List (Op ℕ)
calls =
    Op.send 45
    ∷ Op.receive
    ∷ Op.observe 0
    ∷ Op.send 46
    ∷ Op.attach_observer
    ∷ Op.receive
    ∷ Op.observe 0
    ∷ Op.observe 0
    ∷ Op.drop_observer 1
    ∷ []

calls_permitted : Spec.AllPermitted 2 (view log3 ring) calls
unfolding Spec.step
calls_permitted = (
  omega arith,
  (
    omega arith,
    ((2, refl), (omega arith, (tt, (omega arith, ((3, refl), ((4, refl), ((4, refl), tt))))))),
  ),
)

run-RunRefines_example : RunRefines cloning ring calls (Spec.run 2 (view log3 ring) calls)
unfolding Spec.step
run-RunRefines_example = run-RunRefines cloning log3 ring calls ring-Stores calls_permitted

calls_stay : AllStay (observer 0) 2 (view log3 ring) calls
unfolding Spec.step
calls_stay = (tt, (tt, (tt, (tt, (tt, (tt, (tt, (tt, ((λ e. cc), tt)))))))))

read_in_order_example :
    (ys : List (Reply ℕ)) × (q' : LockingTableInner ℕ) × (c' : ℕ) × (run cloning ring calls
      ≡ done (ys, q'))
    × (all_read (observer 0) calls ys ++ drop c' (log3 ++ all_accepted calls ys)
        ≡ drop 2 (log3 ++ all_accepted calls ys))
    × (c' ≤ length (log3 ++ all_accepted calls ys))
read_in_order_example =
    read_in_order cloning log3 ring calls (observer 0) 2 ring-Stores ring-FreeSlots refl
      calls_permitted calls_stay

try_weak_observe_lem_example :
    try_weak_observe ring (cursor 1) ≡ done (if ltb 1 (3 - 2) then none else some 43)
try_weak_observe_lem_example = try_weak_observe_lem log3 ring ring-Stores 1 (λ e. omega arith)

try_weak_observe-tail_example :
    try_weak_observe ring (cursor 3) ≡ done (if ltb 3 2 then none else some 43)
try_weak_observe-tail_example = try_weak_observe-tail log3 ring ring-Stores

weak_observe_recent_lem_example :
    (seen' : ℕ) × (weak_observe_recent ring 0 1 ≡ done (43 ∷ [], seen'))
weak_observe_recent_lem_example =
    weak_observe_recent_lem log3 ring ring-Stores 0 1 (omega arith) (omega arith)

-- The first calls of `test_produce_strong_observe`, on a ring of two slots.
produce_strong_observe : List (Op ℕ)
produce_strong_observe =
    Op.attach_receiver
    ∷ Op.send 42
    ∷ Op.send 42
    ∷ Op.receive
    ∷ Op.receive
    ∷ Op.attach_observer
    ∷ Op.send 42
    ∷ Op.receive
    ∷ Op.send 42
    ∷ Op.observe 4
    ∷ Op.observe 4
    ∷ Op.send 42
    ∷ []

replies_only : Outcome (List (Reply ℕ) × LockingTableInner ℕ) → Outcome (List (Reply ℕ))
replies_only m = do r ← m; done r.0

produce_strong_observe_replies :
    replies_only (run cloning (new_inner ℕ 2 5) produce_strong_observe)
    ≡ done (
        Reply.finished
        ∷ Reply.returned none
        ∷ Reply.returned (some 42)
        ∷ Reply.returned (some 42)
        ∷ Reply.returned none
        ∷ Reply.attached (some 4)
        ∷ Reply.returned none
        ∷ Reply.returned (some 42)
        ∷ Reply.returned (some 42)
        ∷ Reply.returned (some 42)
        ∷ Reply.returned none
        ∷ Reply.returned none
        ∷ [])
unfolding replies_only produce_strong_observe run step new_inner can_send blocks any_blocks mod_len
    try_send try_take_for_head try_receive_clone try_strong_observe Locking.attach_receiver
    allocate_observer
produce_strong_observe_replies = refl
