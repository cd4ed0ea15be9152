-- ===== src/Locking/Invariant.antt =====
-- The representation invariant of the ring, and what `can_send` decides under it.
use orpc_prototype.Prelude.{
  ℕ, ◌+◌, ◌%◌, ◌≤◌, ◌<◌, ◌≡◌, ◌≢◌, refl, inl, inr, arith, Bool, true, false, not, ◌&&◌, ◌||◌, none,
  some, List, [], ◌∷◌, done, usize_max, ltb, ◌==◌, if◌then◌else◌, length, any, All, Bool-cases,
  checked_add-done, checked_rem-done, ==-false_ne, ltb→lt,
}
use orpc_prototype.Locking.{LockingTableInner, mod_len, blocks, any_blocks, can_send}
use orpc_prototype.Locking.Slots.{same-slot}

-- A head in use is at most one turn behind the tail.
abbrev pub Follows : ℕ → ℕ → ℕ → Type 0
Follows tail turn h = h ≢ usize_max → (h ≤ tail) × (tail < h + turn)

pub record IsValid {ℓ} {T : Type ℓ} (q : LockingTableInner T) : Type 0 where
  pub capacity : 0 < length q.buffer
  pub bounded : q.tail_index < usize_max
  pub counted : q.n_receivers ≤ usize_max
  pub receiver :
      0 < q.n_receivers
      → (q.head_index ≤ q.tail_index) × (q.tail_index < q.head_index + length q.buffer)
  pub detached : q.n_receivers ≡ 0 → q.head_index ≡ usize_max
  pub observers : All (Follows q.tail_index (length q.buffer)) q.strong_observer_heads
  pub free_slots : All (λ i. i < length q.strong_observer_heads) q.free_strong_observer_heads

or-done : (a b : Bool) → (if a then done true else done b) ≡ done (a || b)
or-done true b = refl
or-done false b = refl

module _ {ℓ} {T : Type ℓ} where
  -- A head in use that is a whole turn behind the next tail.
  abbrev pub holds_back : LockingTableInner T → ℕ → Bool
  holds_back q h = q.tail_index + 1 == h + length q.buffer

  -- Whether a receiver or an observer holds the senders back.
  abbrev pub is_full : LockingTableInner T → Bool
  is_full q =
      (ltb 0 q.n_receivers && holds_back q q.head_index)
      || any (λ h. not (h == usize_max) && holds_back q h) q.strong_observer_heads

  pub mod_len-done :
      (q : LockingTableInner T) (i : ℕ)
      → 0 < length q.buffer
      → mod_len q i ≡ done (i % length q.buffer)
  unfolding mod_len
  mod_len-done q i h = checked_rem-done i (length q.buffer) h

  -- Of a head that is in use, the slots compare as the positions do.
  slots_lem :
      (q : LockingTableInner T) (h : ℕ)
      → 0 < length q.buffer
      → (h ≤ q.tail_index) × (q.tail_index < h + length q.buffer)
      → ((q.tail_index + 1) % length q.buffer == h % length q.buffer) ≡ holds_back q h
  slots_lem q h pos f =
      same-slot (length q.buffer) h (q.tail_index + 1) pos (omega arith) (omega arith)

  blocks_lem :
      (q : LockingTableInner T) (h : ℕ)
      → 0 < length q.buffer
      → Follows q.tail_index (length q.buffer) h
      → blocks q ((q.tail_index + 1) % length q.buffer) h
        ≡ done (not (h == usize_max) && holds_back q h)
  unfolding blocks
  blocks_lem q h pos f = elim (Bool-cases (h == usize_max)) [
    | inl e ↦ rw e
    | inr e ↦ rw (e, mod_len-done q h pos, slots_lem q h pos (f (==-false_ne h usize_max e)))
  ]

  any_blocks_lem :
      (q : LockingTableInner T) (hs : List ℕ)
      → 0 < length q.buffer
      → All (Follows q.tail_index (length q.buffer)) hs
      → any_blocks q ((q.tail_index + 1) % length q.buffer) hs
        ≡ done (any (λ h. not (h == usize_max) && holds_back q h) hs)
  unfolding any_blocks
  any_blocks_lem q [] pos f = refl
  any_blocks_lem q (h ∷ hs) pos f =
      rw (blocks_lem q h pos f.0, any_blocks_lem q hs pos f.1, or-done)

  pub can_send_lem :
      (q : LockingTableInner T)
      → IsValid q
      → can_send q ≡ done (if is_full q then none else some q.tail_index)
  unfolding can_send
  can_send_lem q v =
      rw
        (
          mod_len-done q q.head_index v.capacity,
          checked_add-done q.tail_index 1 (omega arith),
          mod_len-done q (q.tail_index + 1) v.capacity,
        )
        (elim (Bool-cases (ltb 0 q.n_receivers)) [
          | inl some_receiver ↦ rw (
            some_receiver,
            slots_lem q q.head_index v.capacity (v.receiver (ltb→lt _ _ some_receiver)),
            any_blocks_lem q q.strong_observer_heads v.capacity v.observers,
            or-done,
          )
          | inr no_receiver ↦
              rw (no_receiver, any_blocks_lem q q.strong_observer_heads v.capacity v.observers)
        ])
