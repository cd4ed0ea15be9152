-- ===== src/Locking.antt =====
-- orpc/src/oqueue/locking.rs: the mutex-protected ring `LockingTableInner` and its operations, each
-- one critical section. An operation returns its result and the new ring, or the panic that ends it
-- (and poisons the mutex). `usize` is 64 bits wide and overflow is checked.
pub mod Slots
pub mod Invariant
pub mod Effects
pub mod Preserve
pub mod Spec
pub mod History
pub mod Calls
pub mod Receivers
pub mod Observers
pub mod Refine
pub mod Guarded
pub mod Ownership
pub mod Reading
pub mod ReadStep
pub mod Order
pub mod Weak
pub mod Unread
pub mod Blocking
pub mod Tests
use orpc_prototype.Prelude.{
  ℕ, ◌+◌, ◌-◌, Bool, true, false, not, ◌&&◌, ◌||◌, Option, none, some, List, [], ◌∷◌, ◌++◌, Outcome,
  done, panic, ◌>>=◌, expect, assertion_failed, checked_add, checked_sub, checked_rem, index,
  index_set, usize_max, ltb, ◌==◌, if◌then◌else◌, length, replicate, pop,
}
use orpc_prototype.Cursor.{Cursor, index_of}

pub record LockingTableInner {ℓ} (T : Type ℓ) : Type ℓ where
  pub buffer : List (Option T)
  pub n_receivers : ℕ
  pub head_index : ℕ
  pub tail_index : ℕ
  pub strong_observer_heads : List ℕ
  pub free_strong_observer_heads : List ℕ

-- `(0..n).collect()`
abbrev pub range_from : ℕ → ℕ → List ℕ
range_from i ℕ.zero = []
range_from i (ℕ.suc n) = i ∷ range_from (i + 1) n

-- The value that `new_with_observers` puts into the mutex.
unfoldable pub new_inner {ℓ} : (T : Type ℓ) → ℕ → ℕ → LockingTableInner T
new_inner T buffer_size max_strong_observers = record {
  buffer = replicate buffer_size none;
  n_receivers = 0;
  head_index = usize_max;
  tail_index = 0;
  strong_observer_heads = replicate max_strong_observers usize_max;
  free_strong_observer_heads = range_from 0 max_strong_observers;
}

module _ {ℓ} {T : Type ℓ} where
  unfoldable pub mod_len : LockingTableInner T → ℕ → Outcome ℕ
  mod_len q i = checked_rem i (length q.buffer)

  -- The closure of `any` in `can_send`.
  unfoldable pub blocks : LockingTableInner T → ℕ → ℕ → Outcome Bool
  blocks q next_tail_slot h =
      if h == usize_max then done false else do slot ← mod_len q h; done (next_tail_slot == slot)

  unfoldable pub any_blocks : LockingTableInner T → ℕ → List ℕ → Outcome Bool
  any_blocks q next_tail_slot [] = done false
  any_blocks q next_tail_slot (h ∷ hs) = do
    b ← blocks q next_tail_slot h
    let rest = any_blocks q next_tail_slot hs
    if b then done true else rest

  unfoldable pub can_send : LockingTableInner T → Outcome (Option ℕ)
  can_send q = do
    head_slot ← mod_len q q.head_index
    next_tail ← checked_add q.tail_index 1
    next_tail_slot ← mod_len q next_tail
    held ←
        (if ltb 0 q.n_receivers && next_tail_slot == head_slot
          then done true
          else any_blocks q next_tail_slot q.strong_observer_heads)
    done (if held then none else some q.tail_index)

  unfoldable pub put_at :
      LockingTableInner T → T → Option ℕ → Outcome (Option T × LockingTableInner T)
  put_at q v none = done (some v, q)
  put_at q v (some tail_index) = do
    slot ← mod_len q tail_index
    buffer ← index_set q.buffer slot (some v)
    next_tail ← checked_add q.tail_index 1
    done (none, record q { buffer = buffer; tail_index = next_tail })

  unfoldable pub try_send : LockingTableInner T → T → Outcome (Option T × LockingTableInner T)
  unfolding put_at
  try_send q v = do room ← can_send q; put_at q v room

  pub drop_receiver : LockingTableInner T → Outcome (LockingTableInner T)
  drop_receiver q = do
    n ← checked_sub q.n_receivers 1
    done (record q { n_receivers = n; head_index = if n == 0 then usize_max else q.head_index })

  unfoldable pub attach_receiver : LockingTableInner T → Outcome (LockingTableInner T)
  attach_receiver q = do
    n ← checked_add q.n_receivers 1
    done (record q {
      n_receivers = n;
      head_index = if q.n_receivers == 0 then q.tail_index else q.head_index;
    })

  -- The reference to the cell is the cell's slot.
  unfoldable pub try_take_for_head : LockingTableInner T → ℕ → Outcome (Option ℕ)
  try_take_for_head q head_index = do
    head_slot ← mod_len q head_index
    tail_slot ← mod_len q q.tail_index
    if head_slot == tail_slot
        then (if head_index == q.tail_index then done none else panic assertion_failed)
        else (do cell ← index q.buffer head_slot; done (some head_slot))

  unfoldable pub receive_from :
      LockingTableInner T → Option ℕ → Outcome (Option T × LockingTableInner T)
  receive_from q none = done (none, q)
  receive_from q (some slot) = do
    cell ← index q.buffer slot
    res ← expect cell
    buffer ← index_set q.buffer slot none
    head ← checked_add q.head_index 1
    done (some res, record q { buffer = buffer; head_index = head })

  unfoldable pub try_receive : LockingTableInner T → Outcome (Option T × LockingTableInner T)
  unfolding receive_from
  try_receive q = do cell ← try_take_for_head q q.head_index; receive_from q cell

  unfoldable pub can_receive : LockingTableInner T → Bool
  can_receive q = not (q.head_index == q.tail_index)

  unfoldable pub receive_clone_from :
      LockingTableInner T → Option ℕ → Outcome (Option T × LockingTableInner T)
  receive_clone_from q none = done (none, q)
  receive_clone_from q (some slot) = do
    cell ← index q.buffer slot
    res ← expect cell
    head ← checked_add q.head_index 1
    done (some res, record q { head_index = head })

  unfoldable pub try_receive_clone : LockingTableInner T → Outcome (Option T × LockingTableInner T)
  unfolding receive_clone_from
  try_receive_clone q = do cell ← try_take_for_head q q.head_index; receive_clone_from q cell

  unfoldable pub observe_from :
      LockingTableInner T → ℕ → ℕ → Option ℕ → Outcome (Option T × LockingTableInner T)
  observe_from q observer_index h none = done (none, q)
  observe_from q observer_index h (some slot) = do
    cell ← index q.buffer slot
    res ← expect cell
    head ← checked_add h 1
    heads ← index_set q.strong_observer_heads observer_index head
    done (some res, record q { strong_observer_heads = heads })

  unfoldable pub try_strong_observe :
      LockingTableInner T → ℕ → Outcome (Option T × LockingTableInner T)
  unfolding observe_from
  try_strong_observe q observer_index = do
    h ← index q.strong_observer_heads observer_index
    cell ← try_take_for_head q h
    observe_from q observer_index h cell

  unfoldable pub can_strong_observe : LockingTableInner T → ℕ → Outcome Bool
  can_strong_observe q observer_index = do
    h ← index q.strong_observer_heads observer_index
    done (not (h == q.tail_index))

  -- `saturating_sub` is the subtraction of ℕ.
  unfoldable pub try_weak_observe : LockingTableInner T → Cursor → Outcome (Option T)
  try_weak_observe q c =
      if ltb (index_of c) (q.tail_index - length q.buffer) || ltb q.tail_index (index_of c)
      then done none
      else (do slot ← mod_len q (index_of c); index q.buffer slot)

  -- The critical section of `attach_strong_observer`: the slot allocated, or none when all are taken.
  pub allocate_observer : LockingTableInner T → Outcome (Option ℕ × LockingTableInner T)
  allocate_observer q = elim (pop q.free_strong_observer_heads) [
    | none ↦ done (none, q)
    | some (i, free) ↦ do
      heads ← index_set q.strong_observer_heads i q.tail_index
      done (some i, record q { strong_observer_heads = heads; free_strong_observer_heads = free })
  ]

  -- `Drop for LockingStrongObserver`
  pub release_observer : LockingTableInner T → ℕ → Outcome (LockingTableInner T)
  release_observer q i = do
    heads ← index_set q.strong_observer_heads i usize_max
    done (record q {
      strong_observer_heads = heads;
      free_strong_observer_heads = q.free_strong_observer_heads ++ (i ∷ []);
    })
