-- ===== src/Locking/Effects.antt =====
-- What each operation of the ring does when the invariant holds: no panic, and which new ring.
use orpc_prototype.Prelude.{
  ℕ, ◌+◌, ◌-◌, ◌%◌, ◌<◌, ◌≡◌, ◌≢◌, sym, arith, true, false, none, some, List, [], ◌∷◌, ◌++◌, done,
  usize_max, ◌==◌, if◌then◌else◌, length, get_elem?, set, pop, checked_add-done, index-done,
  index_set-done, ==-false, ==-refl, leb-true, get_elem?-some, get_elem?-lt,
}
use native.Mathlib.Nat.{mod-lt}
use orpc_prototype.Locking.{
  LockingTableInner, try_send, try_take_for_head, try_receive, try_receive_clone,
  try_strong_observe, attach_receiver, drop_receiver, allocate_observer, release_observer,
}
use orpc_prototype.Locking.Slots.{mod-injective}
use orpc_prototype.Locking.Invariant.{IsValid, is_full, mod_len-done, can_send_lem}

module _ {ℓ} {T : Type ℓ} where
  -- The slot of a position.
  abbrev pub slot_of : LockingTableInner T → ℕ → ℕ
  slot_of q i = i % length q.buffer

  pub slot-lt : (q : LockingTableInner T) (i : ℕ) → IsValid q → slot_of q i < length q.buffer
  slot-lt q i v = mod-lt i v.capacity

  abbrev pub sent : LockingTableInner T → T → LockingTableInner T
  sent q x = record q {
    buffer = set q.buffer (slot_of q q.tail_index) (some x);
    tail_index = q.tail_index + 1;
  }

  abbrev pub taken : LockingTableInner T → LockingTableInner T
  taken q = record q {
    buffer = set q.buffer (slot_of q q.head_index) none;
    head_index = q.head_index + 1;
  }

  abbrev pub cloned : LockingTableInner T → LockingTableInner T
  cloned q = record q { head_index = q.head_index + 1 }

  abbrev pub observed : LockingTableInner T → ℕ → ℕ → LockingTableInner T
  observed q i h = record q { strong_observer_heads = set q.strong_observer_heads i (h + 1) }

  pub try_send-full :
      (q : LockingTableInner T) (x : T)
      → IsValid q
      → is_full q ≡ true
      → try_send q x ≡ done (some x, q)
  unfolding try_send
  try_send-full q x v e = rw (can_send_lem q v, e)

  pub try_send-room :
      (q : LockingTableInner T) (x : T)
      → IsValid q
      → is_full q ≡ false
      → try_send q x ≡ done (none, sent q x)
  unfolding try_send
  try_send-room q x v e = rw (
    can_send_lem q v,
    e,
    mod_len-done q q.tail_index v.capacity,
    index_set-done q.buffer (slot_of q q.tail_index) (some x) (slot-lt q q.tail_index v),
    checked_add-done q.tail_index 1 (omega (arith, v.bounded)),
  )

  pub take-empty :
      (q : LockingTableInner T) (h : ℕ)
      → IsValid q
      → h ≡ q.tail_index
      → try_take_for_head q h ≡ done none
  unfolding try_take_for_head
  take-empty q h v e = rw (
    e,
    mod_len-done q q.tail_index v.capacity,
    ==-refl (slot_of q q.tail_index),
    ==-refl q.tail_index,
  )

  pub take-some :
      (q : LockingTableInner T) (h : ℕ)
      → IsValid q
      → h < q.tail_index
      → q.tail_index < h + length q.buffer
      → try_take_for_head q h ≡ done (some (slot_of q h))
  unfolding try_take_for_head
  take-some q h v lt near =
      let apart : slot_of q h ≢ slot_of q q.tail_index = λ e.
        omega (arith, mod-injective (length q.buffer) h q.tail_index (omega arith) near (sym e)) in
      let cell = get_elem?-some q.buffer (slot_of q h) (slot-lt q h v) in
      rw (
        mod_len-done q h v.capacity,
        mod_len-done q q.tail_index v.capacity,
        ==-false (slot_of q h) (slot_of q q.tail_index) apart,
        index-done q.buffer (slot_of q h) cell.0 cell.1,
      )

  -- A head in use that is not at the tail, with its cell filled.
  pub record Ready (q : LockingTableInner T) (h : ℕ) (x : T) : Type ℓ where
    pub behind : h < q.tail_index
    pub near : q.tail_index < h + length q.buffer
    pub cell : get_elem? q.buffer (slot_of q h) ≡ some (some x)

  pub try_receive-some :
      (q : LockingTableInner T) (x : T)
      → IsValid q
      → Ready q q.head_index x
      → try_receive q ≡ done (some x, taken q)
  unfolding try_receive
  try_receive-some q x v r = rw (
    take-some q q.head_index v r.behind r.near,
    index-done q.buffer (slot_of q q.head_index) (some x) r.cell,
    index_set-done q.buffer (slot_of q q.head_index) none (slot-lt q q.head_index v),
    checked_add-done q.head_index 1 (omega (arith, v.bounded, r.behind)),
  )

  pub try_receive-empty :
      (q : LockingTableInner T)
      → IsValid q
      → q.head_index ≡ q.tail_index
      → try_receive q ≡ done (none, q)
  unfolding try_receive
  try_receive-empty q v e = rw (take-empty q q.head_index v e)

  pub try_receive_clone-some :
      (q : LockingTableInner T) (x : T)
      → IsValid q
      → Ready q q.head_index x
      → try_receive_clone q ≡ done (some x, cloned q)
  unfolding try_receive_clone
  try_receive_clone-some q x v r = rw (
    take-some q q.head_index v r.behind r.near,
    index-done q.buffer (slot_of q q.head_index) (some x) r.cell,
    checked_add-done q.head_index 1 (omega (arith, v.bounded, r.behind)),
  )

  pub try_receive_clone-empty :
      (q : LockingTableInner T)
      → IsValid q
      → q.head_index ≡ q.tail_index
      → try_receive_clone q ≡ done (none, q)
  unfolding try_receive_clone
  try_receive_clone-empty q v e = rw (take-empty q q.head_index v e)

  pub try_strong_observe-some :
      (q : LockingTableInner T) (i h : ℕ) (x : T)
      → IsValid q
      → get_elem? q.strong_observer_heads i ≡ some h
      → Ready q h x
      → try_strong_observe q i ≡ done (some x, observed q i h)
  unfolding try_strong_observe
  try_strong_observe-some q i h x v at r = rw (
    index-done q.strong_observer_heads i h at,
    take-some q h v r.behind r.near,
    index-done q.buffer (slot_of q h) (some x) r.cell,
    checked_add-done h 1 (omega (arith, v.bounded, r.behind)),
    index_set-done q.strong_observer_heads i (h + 1) (get_elem?-lt q.strong_observer_heads i h at),
  )

  pub try_strong_observe-empty :
      (q : LockingTableInner T) (i h : ℕ)
      → IsValid q
      → get_elem? q.strong_observer_heads i ≡ some h
      → h ≡ q.tail_index
      → try_strong_observe q i ≡ done (none, q)
  unfolding try_strong_observe
  try_strong_observe-empty q i h v at e =
      rw (index-done q.strong_observer_heads i h at, take-empty q h v e)

  abbrev pub joined : LockingTableInner T → LockingTableInner T
  joined q = record q {
    n_receivers = q.n_receivers + 1;
    head_index = if q.n_receivers == 0 then q.tail_index else q.head_index;
  }

  abbrev pub left : LockingTableInner T → LockingTableInner T
  left q = record q {
    n_receivers = q.n_receivers - 1;
    head_index = if q.n_receivers - 1 == 0 then usize_max else q.head_index;
  }

  pub attach_receiver-done :
      (q : LockingTableInner T) → q.n_receivers < usize_max → attach_receiver q ≡ done (joined q)
  unfolding attach_receiver
  attach_receiver-done q h = rw (checked_add-done q.n_receivers 1 (omega arith))

  pub drop_receiver-done :
      (q : LockingTableInner T) → 0 < q.n_receivers → drop_receiver q ≡ done (left q)
  unfolding drop_receiver
  drop_receiver-done q h = rw (leb-true 1 q.n_receivers (omega arith))

  abbrev pub allocated : LockingTableInner T → ℕ → List ℕ → LockingTableInner T
  allocated q i free = record q {
    strong_observer_heads = set q.strong_observer_heads i q.tail_index;
    free_strong_observer_heads = free;
  }

  pub allocate_observer-some :
      (q : LockingTableInner T) (i : ℕ) (free : List ℕ)
      → i < length q.strong_observer_heads
      → pop q.free_strong_observer_heads ≡ some (i, free)
      → allocate_observer q ≡ done (some i, allocated q i free)
  unfolding allocate_observer
  allocate_observer-some q i free lt e =
      rw (e, allocate_observer, index_set-done q.strong_observer_heads i q.tail_index lt)

  pub allocate_observer-none :
      (q : LockingTableInner T)
      → pop q.free_strong_observer_heads ≡ none
      → allocate_observer q ≡ done (none, q)
  unfolding allocate_observer
  allocate_observer-none q e = rw (e, allocate_observer)

  abbrev pub released : LockingTableInner T → ℕ → LockingTableInner T
  released q i = record q {
    strong_observer_heads = set q.strong_observer_heads i usize_max;
    free_strong_observer_heads = q.free_strong_observer_heads ++ (i ∷ []);
  }

  pub release_observer-done :
      (q : LockingTableInner T) (i : ℕ)
      → i < length q.strong_observer_heads
      → release_observer q i ≡ done (released q i)
  unfolding release_observer
  release_observer-done q i lt = rw (index_set-done q.strong_observer_heads i usize_max lt)
