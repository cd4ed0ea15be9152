-- ===== src/Locking/Blocking.antt =====
-- The blockers of orpc/src/oqueue/locking.rs: `should_try` of a handle against its `try_` method.
use orpc_prototype.Prelude.{
  ℕ, ◌<◌, ◌≡◌, refl, inl, inr, arith, Bool, true, false, Option, none, some, List, Outcome, done,
  ◌>>=◌, if◌then◌else◌, get_elem?, Bool-cases, index-done, ==-false, ==_iff, dec_lt,
}
use orpc_prototype.Locking.{
  LockingTableInner, can_send, try_send, try_receive, try_receive_clone, can_receive,
  try_strong_observe, can_strong_observe,
}
use orpc_prototype.Locking.Invariant.{IsValid, is_full, can_send_lem}
use orpc_prototype.Locking.Effects
use orpc_prototype.Locking.Effects.{sent, taken, cloned, observed, Ready}
use orpc_prototype.Locking.History.{Mode, moving, cloning, Kept, Stores, head-Ready}
use orpc_prototype.Locking.Calls.{view}
use orpc_prototype.Locking.Receivers.{logged, beyond}
use orpc_prototype.Locking.Observers.{owned}

module _ {ℓ} {T : Type ℓ} where
  abbrev pub is_some : Option T → Bool
  is_some none = false
  is_some (some x) = true

  -- `should_try` of `LockingSender`.
  unfoldable pub sender_should_try : LockingTableInner T → Outcome Bool
  sender_should_try q = do room ← can_send q; done (elim room [ none ↦ false | some i ↦ true ])

  -- `try_receive` of `LockingReceiver` and of `CloningLockingReceiver`.
  pub try_receive_by : Mode → LockingTableInner T → Outcome (Option T × LockingTableInner T)
  try_receive_by moving q = try_receive q
  try_receive_by cloning q = try_receive_clone q

  -- The ring that a receiver leaves when it gets a value.
  abbrev pub received : Mode → LockingTableInner T → LockingTableInner T
  received moving q = taken q
  received cloning q = cloned q

  receive-some :
      (m : Mode) (q : LockingTableInner T) (x : T)
      → IsValid q
      → Ready q q.head_index x
      → try_receive_by m q ≡ done (some x, received m q)
  unfolding try_receive_by
  receive-some moving q x v r = Effects.try_receive-some q x v r
  receive-some cloning q x v r = Effects.try_receive_clone-some q x v r

  receive-empty :
      (m : Mode) (q : LockingTableInner T)
      → IsValid q
      → q.head_index ≡ q.tail_index
      → try_receive_by m q ≡ done (none, q)
  unfolding try_receive_by
  receive-empty moving q v e = Effects.try_receive-empty q v e
  receive-empty cloning q v e = Effects.try_receive_clone-empty q v e

  head-Kept :
      (m : Mode) (q : LockingTableInner T)
      → 0 < q.n_receivers
      → Kept m q.n_receivers q.head_index q.head_index
  head-Kept moving q here = (here, omega arith)
  head-Kept cloning q here = tt

  module _ (log : List T) (q : LockingTableInner T) where
    -- On a ring that stores a history, a sender should try exactly when `try_send` then succeeds;
    -- otherwise `try_send` returns the value and changes nothing.
    pub sender_contract :
        (m : Mode)
        → Stores m log q
        → (x : T)
        → (b : Bool) × (sender_should_try q ≡ done b)
          × (try_send q x ≡ done (if b then (none, sent q x) else (some x, q)))
    unfolding sender_should_try
    sender_contract m s x = elim (Bool-cases (is_full q)) [
      | inl e ↦ (false, rw (can_send_lem q s.valid, e), Effects.try_send-full q x s.valid e)
      | inr e ↦ (true, rw (can_send_lem q s.valid, e), Effects.try_send-room q x s.valid e)
    ]

    -- On a ring that stores a history, an attached receiver should try exactly when its
    -- `try_receive` then returns a value, which is the one that the history has at the receivers'
    -- position; otherwise `try_receive` changes nothing.
    pub receiver_contract :
        (m : Mode)
        → Stores m log q
        → 0 < q.n_receivers
        → (try_receive_by m q
            ≡ done (get_elem? log q.head_index, if can_receive q then received m q else q))
          × (is_some (get_elem? log q.head_index) ≡ can_receive q)
    unfolding can_receive
    receiver_contract m s here = elim (dec_lt q.head_index q.tail_index) [
      | yes lt ↦
          let (x, e) = logged log q m s q.head_index lt in
          let r : Ready q q.head_index x =
            head-Ready log q m s q.head_index x (s.valid.receiver here) e (head-Kept m q here) in
          rw (e, ==-false q.head_index q.tail_index (λ p. omega arith))
            (receive-some m q x s.valid r, refl)
      | no ge ↦
          let at : q.head_index ≡ q.tail_index = omega (arith, (s.valid.receiver here).0) in
          rw (beyond log q m s q.head_index at, (==_iff q.head_index q.tail_index).1 at)
            (receive-empty m q s.valid at, refl)
    ]

    -- On an observable ring that stores a history, a strong observer should try exactly when its
    -- `try_strong_observe` then returns a value, which is the one that the history has at its
    -- position; otherwise that changes nothing.
    pub observer_contract :
        Stores cloning log q
        → (i c : ℕ) → get_elem? (view log q).observers i ≡ some (some c)
        → (b : Bool) × (can_strong_observe q i ≡ done b)
          × (try_strong_observe q i ≡ done (get_elem? log c, if b then observed q i c else q))
          × (is_some (get_elem? log c) ≡ b)
    unfolding can_strong_observe
    observer_contract s i c e =
        let o = owned log q s.valid i c e in
        elim (dec_lt c q.tail_index) [
          | yes lt ↦
              let (x, at) = logged log q cloning s c lt in
              let r : Ready q c x = head-Ready log q cloning s c x o.behind at tt in
              (
                true,
                rw (
                  index-done q.strong_observer_heads i c o.head,
                  ==-false c q.tail_index (λ p. omega arith),
                ),
                rw at (Effects.try_strong_observe-some q i c x s.valid o.head r),
                rw at,
              )
          | no ge ↦
              let end : c ≡ q.tail_index = omega (arith, o.behind.0) in
              (
                false,
                rw (index-done q.strong_observer_heads i c o.head, (==_iff c q.tail_index).1 end),
                rw (beyond log q cloning s c end)
                    (Effects.try_strong_observe-empty q i c s.valid o.head end),
                rw (beyond log q cloning s c end),
              )
        ]
