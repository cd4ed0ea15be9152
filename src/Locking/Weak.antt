-- ===== src/Locking/Weak.antt =====
-- orpc/src/oqueue/locking.rs and mod.rs: looking into the history without a position, and what the
-- answers say of the values sent. The queue does not change between the calls of a loop here.
use orpc_prototype.Prelude.{
  ℕ, zero, suc, ◌+◌, ◌-◌, ◌≤◌, ◌<◌, ◌≡◌, ◌≢◌, refl, sym, ap, ◌∙◌, ◌⊎◌, inl, inr, arith, Bool, false,
  Option, none, some, List, [], ◌∷◌, Outcome, done, ◌>>=◌, ltb, if◌then◌else◌, length, get_elem?,
  drop, take, Bool-cases, checked_sub, index-done, ltb→lt, lt→ltb, ltb-false, leb-true,
  get_elem?-some, drop-cons, get_elem?-none, dec_lt,
}
use native.Mathlib.Nat.{mod-eq_of_lt, mod-eq-sub-mod}
use orpc_prototype.Cursor.{Cursor, cursor, index_of, sub}
use orpc_prototype.Locking.{LockingTableInner, try_weak_observe}
use orpc_prototype.Locking.Invariant.{IsValid, mod_len-done}
use orpc_prototype.Locking.Effects.{slot_of}
use orpc_prototype.Locking.History.{cloning, Stores}

module _ {ℓ} {T : Type ℓ} where
  -- `recent_cursor`
  pub recent_cursor : LockingTableInner T → Cursor
  recent_cursor q = cursor (q.tail_index - 1)

  -- `oldest_cursor`; the queue's `buffer_size` is the length of the ring.
  pub oldest_cursor : LockingTableInner T → Outcome Cursor
  unfolding recent_cursor
  oldest_cursor q =
      let i = index_of (recent_cursor q) in
      if ltb i (length q.buffer)
      then done (cursor 0)
      else do turn ← checked_sub (length q.buffer) 1; back ← checked_sub i turn; done (cursor back)

  -- `LockingWeakObserver::weak_observe`: the answer, and the new `max_observed_tail`.
  pub weak_observe : LockingTableInner T → ℕ → Cursor → Outcome (Option T × ℕ)
  weak_observe q max_observed_tail c =
      let seen = if ltb max_observed_tail q.tail_index then q.tail_index else max_observed_tail in
      do res ← try_weak_observe q c; done (res, seen)

  -- `should_try` of a weak observer.
  pub has_unobserved : LockingTableInner T → ℕ → Bool
  has_unobserved q max_observed_tail = ltb max_observed_tail q.tail_index

  -- The loop of `weak_observe_range` over the `n` indices from `i` on.
  observe_each : LockingTableInner T → ℕ → ℕ → ℕ → Outcome (List T × ℕ)
  observe_each q seen i zero = done ([], seen)
  observe_each q seen i (suc n) = do
    r ← weak_observe q seen (cursor i)
    rest ← observe_each q r.1 (i + 1) n
    done (elim r.0 [ none ↦ rest.0 | some v ↦ v ∷ rest.0 ], rest.1)

  pub weak_observe_range : LockingTableInner T → ℕ → Cursor → Cursor → Outcome (List T × ℕ)
  unfolding observe_each
  weak_observe_range q seen start end =
      observe_each q seen (index_of start) (index_of end - index_of start)

  pub weak_observe_recent : LockingTableInner T → ℕ → ℕ → Outcome (List T × ℕ)
  unfolding weak_observe_range recent_cursor sub
  weak_observe_recent q seen n =
      let now = recent_cursor q in weak_observe_range q seen (sub now n) now

  -- The slot of a position that is within reach holds its value.
  reach-some :
      (log : List T) (q : LockingTableInner T) (i : ℕ) (o : Option T)
      → IsValid q
      → q.tail_index ≤ i + length q.buffer
      → i ≤ q.tail_index
      → get_elem? q.buffer (slot_of q i) ≡ some o
      → try_weak_observe q (cursor i) ≡ done o
  unfolding try_weak_observe
  reach-some log q i o v near le e = rw (
    ltb-false i (q.tail_index - length q.buffer) (omega arith),
    ltb-false q.tail_index i le,
    mod_len-done q i v.capacity,
    index-done q.buffer (slot_of q i) o e,
  )

  out_of_reach :
      (q : LockingTableInner T) (i : ℕ)
      → (i < q.tail_index - length q.buffer) ⊎ (q.tail_index < i)
      → try_weak_observe q (cursor i) ≡ done none
  unfolding try_weak_observe
  out_of_reach q i (inl old) = rw (lt→ltb i (q.tail_index - length q.buffer) old)
  out_of_reach q i (inr new) = elim (Bool-cases (ltb i (q.tail_index - length q.buffer))) [
    | inl e ↦ rw e
    | inr e ↦ rw (e, lt→ltb q.tail_index i new)
  ]

  module _ (log : List T) (q : LockingTableInner T) (s : Stores cloning log q) where
    within_reach :
        (i : ℕ)
        → i < q.tail_index
        → q.tail_index ≤ i + length q.buffer
        → try_weak_observe q (cursor i) ≡ done (get_elem? log i)
    within_reach i lt near =
        let (x, e) = get_elem?-some log i (omega (arith, s.total)) in
        reach-some log q i (some x) s.valid near (omega arith) (s.kept i x e near tt)
        ∙ ap (λ (o : Option T). done o) (sym e)

    -- At any cursor but the one of the next value, an observable queue answers with the value that
    -- the history has there, or with none exactly if that value is older than one turn of the ring
    -- or is not sent yet.
    pub try_weak_observe_lem :
        (i : ℕ)
        → i ≢ q.tail_index
        → try_weak_observe q (cursor i)
          ≡ done (if ltb i (q.tail_index - length q.buffer) then none else get_elem? log i)
    try_weak_observe_lem i n = elim (Bool-cases (ltb i (q.tail_index - length q.buffer))) [
      | inl e ↦ rw e (out_of_reach q i (inl (ltb→lt _ _ e)))
      | inr e ↦ rw e (elim (dec_lt i q.tail_index) [
        | yes lt ↦ within_reach i lt (ground arith)
        | no ge ↦
            rw (get_elem?-none log i (omega (arith, s.total)))
              (out_of_reach q i (inr (omega arith)))
      ])
    ]

    -- At the cursor of the next value, which is not sent yet, the queue answers with none only until
    -- the ring is full; from then on it answers with the oldest value of the ring.
    pub try_weak_observe-tail :
        try_weak_observe q (cursor q.tail_index)
        ≡ done (
            if ltb q.tail_index (length q.buffer)
            then none
            else get_elem? log (q.tail_index - length q.buffer))
    try_weak_observe-tail = elim (Bool-cases (ltb q.tail_index (length q.buffer))) [
      | inl e ↦
          let lt = ltb→lt _ _ e in
          rw e (
            reach-some log q q.tail_index none s.valid (omega arith) (omega arith)
              (rw (mod-eq_of_lt lt) (s.blank q.tail_index (omega arith) lt)))
      | inr e ↦ rw e (stale (ground arith))
    ]
      where
        stale :
            length q.buffer ≤ q.tail_index
            → try_weak_observe q (cursor q.tail_index)
              ≡ done (get_elem? log (q.tail_index - length q.buffer))
        stale le =
            let i : ℕ = q.tail_index - length q.buffer in
            let (x, e) = get_elem?-some log i (omega (arith, s.total, s.valid.capacity)) in
            reach-some log q q.tail_index (some x) s.valid (omega arith) (omega arith) (
              rw (mod-eq-sub-mod {n = q.tail_index} {m = length q.buffer} le)
                (s.kept i x e (omega arith) tt))
            ∙ ap (λ (o : Option T). done o) (sym e)

    -- The oldest cursor is that of the oldest value in the ring, or of the first value of all.
    pub oldest_cursor_lem : oldest_cursor q ≡ done (cursor (q.tail_index - length q.buffer))
    unfolding oldest_cursor
    oldest_cursor_lem = elim (Bool-cases (ltb (q.tail_index - 1) (length q.buffer))) [
      | inl e ↦ rw e (
          let first : 0 ≡ q.tail_index - length q.buffer = ground arith in
          ap (λ i. done (cursor i)) first)
      | inr e ↦
          rw
            (
              e,
              leb-true 1 (length q.buffer) s.valid.capacity,
              leb-true (length q.buffer - 1) (q.tail_index - 1) (ground arith),
            )
            (let back : q.tail_index - 1 - (length q.buffer - 1) ≡ q.tail_index - length q.buffer =
                omega (arith, s.valid.capacity) in
              ap (λ i. done (cursor i)) back)
    ]

    observe_each_lem :
        (seen i n : ℕ)
        → q.tail_index ≤ i + length q.buffer
        → i + n ≤ q.tail_index
        → (seen' : ℕ) × (observe_each q seen i n ≡ done (take n (drop i log), seen'))
    unfolding observe_each weak_observe
    observe_each_lem seen i zero near le = (seen, refl)
    observe_each_lem seen i (suc n) near le =
        let (x, e) = get_elem?-some log i (omega (arith, s.total)) in
        let seen₁ = if ltb seen q.tail_index then q.tail_index else seen in
        let (seen', rest) = observe_each_lem seen₁ (i + 1) n (omega arith) (omega arith) in
        (seen', rw (within_reach i (omega arith) near, e, rest, drop-cons log i x e))

    -- With more than `n` values sent, and `n` less than the turn of the ring, `weak_observe_recent n`
    -- returns the `n` values before the last one sent; the last one is not among them.
    pub weak_observe_recent_lem :
        (seen n : ℕ)
        → n < q.tail_index
        → n < length q.buffer
        → (seen' : ℕ) × (weak_observe_recent q seen n
            ≡ done (take n (drop (q.tail_index - 1 - n) log), seen'))
    unfolding weak_observe_recent
    weak_observe_recent_lem seen n lt near =
        let count : q.tail_index - 1 - (q.tail_index - 1 - n) ≡ n = omega arith in
        rw count (observe_each_lem seen (q.tail_index - 1 - n) n (omega arith) (omega arith))

    -- After a look at any cursor, a weak observer has nothing unobserved.
    pub weak_observe-has_unobserved :
        (seen : ℕ) (c : Cursor) (o : Option T) (seen' : ℕ)
        → weak_observe q seen c ≡ done (o, seen')
        → has_unobserved q seen' ≡ false
    unfolding weak_observe has_unobserved
    weak_observe-has_unobserved seen c o seen' e = ground arith
