-- ===== src/Locking/Preserve.antt =====
-- Every operation of the ring keeps the representation invariant.
use orpc_prototype.Prelude.{
  ℕ, zero, suc, ◌+◌, ◌-◌, ◌%◌, ◌≤◌, ◌<◌, ◌≡◌, refl, ap, inl, inr, arith, false, not, ◌&&◌, Option,
  none, some, List, [], ◌∷◌, usize_max, ltb, ◌==◌, length, replicate, pop, any, All, All-set,
  All-replicate, Bool-cases, ==-false_ne, ==-false, ==_iff, lt→ltb, length-set, length-replicate,
  or-false, and-false, any-false, All-zip, All-append, All-pop,
}
use orpc_prototype.Locking.{LockingTableInner, new_inner, range_from}
use orpc_prototype.Locking.Invariant.{Follows, IsValid, is_full, holds_back}
use orpc_prototype.Locking.Effects.{
  sent, taken, cloned, observed, joined, left, allocated, released,
}

Follows-unused : (tail turn : ℕ) → Follows tail turn usize_max
Follows-unused tail turn ne = absurd (ne refl)

range_from-below : (n i m : ℕ) → i + n ≤ m → All (λ k. k < m) (range_from i n)
range_from-below zero i m h = tt
range_from-below (suc n) i m h = (omega arith, range_from-below n (i + 1) m (omega arith))

-- A new queue with room for at least one value is valid.
pub new_inner-IsValid {ℓ} :
    (T : Type ℓ) (buffer_size max_strong_observers : ℕ)
    → 0 < buffer_size
    → IsValid (new_inner T buffer_size max_strong_observers)
unfolding new_inner
new_inner-IsValid T n k pos = record {
  capacity = omega (arith, length-replicate {A = Option T} n none);
  bounded = omega arith;
  counted = omega arith;
  receiver = λ h. absurd (omega arith);
  detached = λ _. refl;
  observers =
      All-replicate (Follows 0 (length (replicate {A = Option T} n none))) k usize_max
        (Follows-unused 0 _);
  free_slots =
      range_from-below k 0 (length (replicate k usize_max))
        (omega (arith, length-replicate k usize_max));
}

module _ {ℓ} {T : Type ℓ} (q : LockingTableInner T) (v : IsValid q) where
  -- What `is_full` excludes of each head.
  room_ahead :
      is_full q ≡ false
      → All (λ h. (not (h == usize_max) && holds_back q h) ≡ false) q.strong_observer_heads
  room_ahead e =
      any-false _ q.strong_observer_heads
        (or-false (ltb 0 q.n_receivers && holds_back q q.head_index) _ e).1

  pub receiver_room :
      is_full q ≡ false → 0 < q.n_receivers → q.tail_index + 1 < q.head_index + length q.buffer
  receiver_room e some_receiver =
      let no_turn = ==-false_ne (q.tail_index + 1) (q.head_index + length q.buffer) (
        and-false (ltb 0 q.n_receivers) (holds_back q q.head_index)
          (or-false (ltb 0 q.n_receivers && holds_back q q.head_index)
            (any (λ h. not (h == usize_max) && holds_back q h) q.strong_observer_heads) e).0
          (lt→ltb 0 q.n_receivers some_receiver)) in
      omega (arith, (v.receiver some_receiver).1)

  Follows-sent :
      (h : ℕ)
      → Follows q.tail_index (length q.buffer) h
      → (not (h == usize_max) && holds_back q h) ≡ false
      → Follows (q.tail_index + 1) (length q.buffer) h
  Follows-sent h f e ne =
      let no_turn =
        ==-false_ne (q.tail_index + 1) (h + length q.buffer) (
          and-false (not (h == usize_max)) (holds_back q h) e (ap not (==-false h usize_max ne))) in
      (omega (arith, (f ne).0), omega (arith, (f ne).1))

  pub sent-IsValid : (x : T) → is_full q ≡ false → q.tail_index + 1 < usize_max → IsValid (sent q x)
  sent-IsValid x e small = record {
    capacity = rw (length-set q.buffer (q.tail_index % length q.buffer) (some x)) v.capacity;
    bounded = small;
    counted = v.counted;
    receiver = λ h.
        rw (length-set q.buffer (q.tail_index % length q.buffer) (some x))
          (omega (arith, (v.receiver h).0), receiver_room e h);
    detached = v.detached;
    observers = rw (length-set q.buffer (q.tail_index % length q.buffer) (some x)) (
        All-zip (Follows q.tail_index (length q.buffer))
          (λ h. (not (h == usize_max) && holds_back q h) ≡ false)
          (Follows (q.tail_index + 1) (length q.buffer)) q.strong_observer_heads Follows-sent
          v.observers (room_ahead e));
    free_slots = v.free_slots;
  }

  module _ (here : 0 < q.n_receivers) (behind : q.head_index < q.tail_index) where
    pub cloned-IsValid : IsValid (cloned q)
    cloned-IsValid = record {
      capacity = v.capacity;
      bounded = v.bounded;
      counted = v.counted;
      receiver = λ h. (omega arith, omega (arith, (v.receiver h).1));
      detached = λ e. absurd (omega arith);
      observers = v.observers;
      free_slots = v.free_slots;
    }

    pub taken-IsValid : IsValid (taken q)
    taken-IsValid = record {
      capacity = rw (length-set q.buffer (q.head_index % length q.buffer) none) v.capacity;
      bounded = v.bounded;
      counted = v.counted;
      receiver = λ h.
          rw (length-set q.buffer (q.head_index % length q.buffer) none)
            (omega arith, omega (arith, (v.receiver h).1));
      detached = λ e. absurd (omega arith);
      observers = rw (length-set q.buffer (q.head_index % length q.buffer) none) v.observers;
      free_slots = v.free_slots;
    }

  pub observed-IsValid :
      (i h : ℕ) → h < q.tail_index → q.tail_index < h + length q.buffer → IsValid (observed q i h)
  observed-IsValid i h lt near = record {
    capacity = v.capacity;
    bounded = v.bounded;
    counted = v.counted;
    receiver = v.receiver;
    detached = v.detached;
    observers =
        All-set (Follows q.tail_index (length q.buffer)) q.strong_observer_heads i (h + 1)
          v.observers (λ _. (omega arith, omega arith));
    free_slots = rw (length-set q.strong_observer_heads i (h + 1)) v.free_slots;
  }

  pub joined-IsValid : q.n_receivers < usize_max → IsValid (joined q)
  joined-IsValid small = record {
    capacity = v.capacity;
    bounded = v.bounded;
    counted = omega arith;
    receiver = λ h. elim (Bool-cases (q.n_receivers == 0)) [
      | inl e ↦ rw e (omega arith, omega (arith, v.capacity))
      | inr e ↦ rw e (v.receiver (omega (arith, ==-false_ne q.n_receivers 0 e)))
    ];
    detached = λ e. absurd (omega arith);
    observers = v.observers;
    free_slots = v.free_slots;
  }

  pub left-IsValid : IsValid (left q)
  left-IsValid = record {
    capacity = v.capacity;
    bounded = v.bounded;
    counted = omega (arith, v.counted);
    receiver =
        λ h. rw (==-false (q.n_receivers - 1) 0 (λ e. omega arith)) (v.receiver (omega arith));
    detached = λ e. rw ((==_iff (q.n_receivers - 1) 0).1 e);
    observers = v.observers;
    free_slots = v.free_slots;
  }

  pub allocated-IsValid :
      (i : ℕ) (free : List ℕ)
      → pop q.free_strong_observer_heads ≡ some (i, free)
      → IsValid (allocated q i free)
  allocated-IsValid i free e = record {
    capacity = v.capacity;
    bounded = v.bounded;
    counted = v.counted;
    receiver = v.receiver;
    detached = v.detached;
    observers =
        All-set (Follows q.tail_index (length q.buffer)) q.strong_observer_heads i q.tail_index
          v.observers (λ _. (omega arith, omega (arith, v.capacity)));
    free_slots =
        rw (length-set q.strong_observer_heads i q.tail_index)
          (All-pop (λ k. k < length q.strong_observer_heads) q.free_strong_observer_heads free i
            v.free_slots e).1;
  }

  pub released-IsValid : (i : ℕ) → i < length q.strong_observer_heads → IsValid (released q i)
  released-IsValid i lt = record {
    capacity = v.capacity;
    bounded = v.bounded;
    counted = v.counted;
    receiver = v.receiver;
    detached = v.detached;
    observers =
        All-set (Follows q.tail_index (length q.buffer)) q.strong_observer_heads i usize_max
          v.observers (Follows-unused q.tail_index (length q.buffer));
    free_slots = rw (length-set q.strong_observer_heads i usize_max) (
        All-append (λ k. k < length q.strong_observer_heads) q.free_strong_observer_heads (i ∷ [])
          v.free_slots (lt, tt));
  }
