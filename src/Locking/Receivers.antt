-- ===== src/Locking/Receivers.antt =====
-- Sending, receiving, and the handles of receivers: each call on the ring does what the
-- specification says.
use orpc_prototype.Prelude.{
  ℕ, ◌+◌, ◌-◌, ◌%◌, ◌<◌, ◌≡◌, refl, ◌⊎◌, inl, inr, arith, true, false, not, ◌&&◌, none, some, List,
  [], ◌∷◌, map, usize_max, ◌==◌, length, get_elem?, any, Bool-cases, ==-false, lt→ltb, length-set,
  get_elem?-some, get_elem?-none, dec_lt, ℕ_discrete,
}
use orpc_prototype.Locking.{LockingTableInner}
use orpc_prototype.Locking.Invariant.{is_full, holds_back}
use orpc_prototype.Locking.Effects
use orpc_prototype.Locking.Effects.{
  sent, taken, cloned, observed, joined, left, allocated, released, Ready,
}
use orpc_prototype.Locking.History.{
  Mode, moving, cloning, Stores, sent-Stores, head-Ready, taken-Stores, cloned-Stores,
  joined-Stores, left-Stores,
}
use orpc_prototype.Locking.Spec
use orpc_prototype.Locking.Calls.{step, position, view, Refines}
use orpc_prototype.Locking.Spec.{Spec, Op, Reply, Permitted}

module _ {ℓ} {T : Type ℓ} where
  any_waits :
      (log : List T) (q : LockingTableInner T) (hs : List ℕ)
      → length log ≡ q.tail_index
      → any (λ h. not (h == usize_max) && holds_back q h) hs
        ≡ any (Spec.waits_for (length q.buffer) (view log q)) (map position hs)
  any_waits log q [] e = refl
  any_waits log q (h ∷ hs) e = elim (Bool-cases (h == usize_max)) [
    | inl p ↦ rw (p, any_waits log q hs e)
    | inr p ↦ rw (p, any_waits log q hs e, e)
  ]

  pub is_full-view :
      (log : List T) (q : LockingTableInner T)
      → length log ≡ q.tail_index
      → is_full q ≡ Spec.is_full (length q.buffer) (view log q)
  is_full-view log q e = elim (ℕ_discrete q.n_receivers 0) [
    | yes p ↦ rw (p, any_waits log q q.strong_observer_heads e)
    | no p ↦ rw (
      ==-false q.n_receivers 0 p,
      lt→ltb 0 q.n_receivers (omega arith),
      any_waits log q q.strong_observer_heads e,
      e,
    )
  ]

  module _ (log : List T) (q : LockingTableInner T) where
    pub send-Refines :
        (m : Mode)
        → Stores m log q
        → (x : T) → length log + 1 < usize_max
        → Refines m q (Op.send x) (Spec.step (length q.buffer) (view log q) (Op.send x))
    unfolding Spec.step step
    send-Refines m s x small = elim (Bool-cases (is_full q)) [
      | inl e ↦
          rw (← is_full-view log q s.total, e)
            (q, rw (Effects.try_send-full q x s.valid e), refl, s, refl)
      | inr e ↦
          rw (← is_full-view log q s.total, e)
            (
              sent q x,
              rw (Effects.try_send-room q x s.valid e),
              refl,
              sent-Stores log q m s x e (omega (arith, s.total)),
              length-set q.buffer (q.tail_index % length q.buffer) (some x),
            )
    ]

    -- The value at a position that is not the tail.
    pub logged :
        (m : Mode)
        → Stores m log q
        → (h : ℕ) → h < q.tail_index
        → (x : T) × (get_elem? log h ≡ some x)
    logged m s h lt = get_elem?-some log h (omega (arith, s.total))

    pub beyond : (m : Mode) → Stores m log q → (h : ℕ) → h ≡ q.tail_index → get_elem? log h ≡ none
    beyond m s h e = get_elem?-none log h (omega (arith, s.total))

    module _ (here : 0 < q.n_receivers) where
      counted_ne : (q.n_receivers == 0) ≡ false
      counted_ne = ==-false q.n_receivers 0 (λ e. omega arith)

      pub receive-Refines :
          (m : Mode)
          → Stores m log q
          → Refines m q Op.receive (Spec.step (length q.buffer) (view log q) Op.receive)
      unfolding Spec.step step
      receive-Refines moving s = elim (dec_lt q.head_index q.tail_index) [
        | yes lt ↦
            let (x, e) = logged moving s q.head_index lt in
            let r : Ready q q.head_index x =
              head-Ready log q moving s q.head_index x (s.valid.receiver here) e
                (here, omega arith) in
            rw (counted_ne, e, Spec.receive_value)
              (
                taken q,
                rw (Effects.try_receive-some q x s.valid r),
                rw counted_ne,
                taken-Stores log q s here lt,
                length-set q.buffer (q.head_index % length q.buffer) none,
              )
        | no ge ↦
            let at : q.head_index ≡ q.tail_index = omega (arith, (s.valid.receiver here).0) in
            rw (counted_ne, beyond moving s q.head_index at, Spec.receive_value)
              (q, rw (Effects.try_receive-empty q s.valid at), rw counted_ne, s, refl)
      ]
      receive-Refines cloning s = elim (dec_lt q.head_index q.tail_index) [
        | yes lt ↦
            let (x, e) = logged cloning s q.head_index lt in
            let r : Ready q q.head_index x =
              head-Ready log q cloning s q.head_index x (s.valid.receiver here) e tt in
            rw (counted_ne, e, Spec.receive_value)
              (
                cloned q,
                rw (Effects.try_receive_clone-some q x s.valid r),
                rw counted_ne,
                cloned-Stores log q s here lt,
                refl,
              )
        | no ge ↦
            let at : q.head_index ≡ q.tail_index = omega (arith, (s.valid.receiver here).0) in
            rw (counted_ne, beyond cloning s q.head_index at, Spec.receive_value)
              (q, rw (Effects.try_receive_clone-empty q s.valid at), rw counted_ne, s, refl)
      ]

      pub drop-Refines :
          (m : Mode)
          → Stores m log q
          → Refines m q Op.drop_receiver (Spec.step (length q.buffer) (view log q) Op.drop_receiver)
      unfolding Spec.step step
      drop-Refines m s = (
        left q,
        rw (Effects.drop_receiver-done q here),
        last (Bool-cases (q.n_receivers - 1 == 0)),
        left-Stores log q m s,
        refl,
      )
        where
          last :
              ((q.n_receivers - 1 == 0) ≡ true) ⊎ ((q.n_receivers - 1 == 0) ≡ false)
              → view log (left q) ≡ (Spec.step (length q.buffer) (view log q) Op.drop_receiver).1
          last (inl e) = rw e
          last (inr e) = rw (e, counted_ne)

    pub attach-Refines :
        (m : Mode)
        → Stores m log q
        → q.n_receivers < usize_max
        → Refines m q Op.attach_receiver
            (Spec.step (length q.buffer) (view log q) Op.attach_receiver)
    unfolding Spec.step step
    attach-Refines m s small = (
      joined q,
      rw (Effects.attach_receiver-done q small),
      first (Bool-cases (q.n_receivers == 0)),
      joined-Stores log q m s small,
      refl,
    )
      where
        first :
            ((q.n_receivers == 0) ≡ true) ⊎ ((q.n_receivers == 0) ≡ false)
            → view log (joined q) ≡ (Spec.step (length q.buffer) (view log q) Op.attach_receiver).1
        first (inl e) = rw (e, ==-false (q.n_receivers + 1) 0 (λ p. omega arith), s.total)
        first (inr e) = rw (e, ==-false (q.n_receivers + 1) 0 (λ p. omega arith))
