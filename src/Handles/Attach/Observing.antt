-- ===== src/Handles/Attach/Observing.antt =====
-- What `attach_strong_observer` of both kinds of queue returns and does to the queue.
use Prim.Native.String.{String}
use orpc_prototype.Prelude.{
  ℕ, ◌<◌, ◌≡◌, ◌⊎◌, refl, inl, inr, true, none, some, List, done, length, pop, set, map, All-pop,
  Option-cases, map-set,
}
use orpc_prototype.Rpc.{ok, err}
use orpc_prototype.Locking.Effects
use orpc_prototype.Locking.Effects.{allocated}
use orpc_prototype.Locking.History.{Mode, moving, cloning, Stores, allocated-Stores}
use orpc_prototype.Locking.Calls.{position}
use orpc_prototype.Handles.{
  LockingQueue, unsupported, allocation_failed, only_supported, strong_observer,
}
use orpc_prototype.Locking.Observers.{position-some}
use orpc_prototype.Handles.Attach
use orpc_prototype.Handles.Attach.{attach_strong_observer, get_this}

module _ {ℓ} {T : Type ℓ} (type_name : Mode → String) (log : List T) (q : LockingQueue T) where
  -- All slots are in use, and the queue is as before.
  abbrev pub Refused : Type ℓ
  Refused =
      (pop q.inner.free_strong_observer_heads ≡ none)
      × (attach_strong_observer type_name cloning q
          ≡ done (
            err (
                allocation_failed (type_name cloning)
                  (only_supported (length q.inner.strong_observer_heads))),
            q,
          ))

  -- The last free slot is the handle's; its position is the end of the history, the other slots and
  -- the rest of the queue are as before.
  abbrev pub Attached : Type ℓ
  Attached =
      (i : ℕ) × (free : List ℕ) × (pop q.inner.free_strong_observer_heads ≡ some (i, free))
      × (attach_strong_observer type_name cloning q
          ≡ done (ok (strong_observer i), record q { inner = allocated q.inner i free }))
      × Stores cloning log (allocated q.inner i free)
      × (map position (allocated q.inner i free).strong_observer_heads
          ≡ set (map position q.inner.strong_observer_heads) i (some (length log)))

  given :
      Stores cloning log q.inner
      → q.referenced ≡ true
      → (i : ℕ) (free : List ℕ) → pop q.inner.free_strong_observer_heads ≡ some (i, free)
      → Attached
  unfolding attach_strong_observer Attach.allocated Attach.handle_on get_this
  given s alive i free e =
      let lt =
        (All-pop (λ k. k < length q.inner.strong_observer_heads) q.inner.free_strong_observer_heads
          free i s.valid.free_slots e).0 in
      (
        i,
        free,
        e,
        rw (Effects.allocate_observer-some q.inner i free lt e, alive),
        allocated-Stores log q.inner s i free e,
        rw (
          map-set position q.inner.strong_observer_heads i q.inner.tail_index,
          position-some q.inner.tail_index s.valid.bounded,
          s.total,
        ),
      )

  -- On a queue that stores a history and is still referenced: the plain queue does not support strong
  -- observers. The observable one returns an error that says how many observers it supports if all
  -- slots are in use, and changes nothing; otherwise it hands out the last free slot, starts it at the
  -- end of the history, keeps all other positions, and the queue stores the same history.
  pub attach_strong_observer_lem :
      Stores cloning log q.inner
      → q.referenced ≡ true
      → (attach_strong_observer type_name moving q ≡ done (err (unsupported (type_name moving)), q))
        × (Refused ⊎ Attached)
  unfolding attach_strong_observer Attach.allocated
  attach_strong_observer_lem s alive = (
    refl,
    elim (Option-cases (pop q.inner.free_strong_observer_heads)) [
      | inl e ↦ inl (e, rw (Effects.allocate_observer-none q.inner e))
      | inr ((i, free), e) ↦ inr (given s alive i free e)
    ],
  )
