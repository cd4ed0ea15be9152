-- ===== src/Locking/Guarded/Poisoned.antt =====
-- A panic while a thread has the mutex of a queue.
use orpc_prototype.Prelude.{
  ◌≡◌, refl, Bool, true, false, none, List, [], ◌∷◌, map, Outcome, done, panic, poisoned,
  if◌then◌else◌,
}
use orpc_prototype.Sync.Mutex.{
  Mutex, Panicked, section-Panicked, try_section-Panicked, section-poisoned, try_section-poisoned,
}
use orpc_prototype.Locking.{LockingTableInner}
use orpc_prototype.Locking.History.{Mode, moving, cloning}
use orpc_prototype.Locking.Spec.{Op, Reply}
use orpc_prototype.Locking.Calls.{step}
use orpc_prototype.Locking.Guarded.{locked_call, locked_calls}

module _ {ℓ} {T : Type ℓ} where
  -- Whether a call takes the mutex: all but `attach_strong_observer` of the plain queue do.
  abbrev pub takes_mutex : Mode → Op T → Bool
  takes_mutex m (Op.send v) = true
  takes_mutex m Op.receive = true
  takes_mutex m (Op.observe i) = true
  takes_mutex m Op.attach_receiver = true
  takes_mutex m Op.drop_receiver = true
  takes_mutex moving Op.attach_observer = false
  takes_mutex cloning Op.attach_observer = true
  takes_mutex m (Op.drop_observer i) = true

  -- What a call answers while the mutex is poisoned.
  abbrev pub poisoned_reply : Mode → Op T → Outcome (Reply T)
  poisoned_reply m o = if takes_mutex m o then panic poisoned else done (Reply.attached none)

  locked_call-Panicked :
      (m : Mode) (x : Mutex (LockingTableInner T)) (o : Op T)
      → Panicked (locked_call m x o).0
      → (locked_call m x o).1 ≡ record x { is_poisoned = true }
  unfolding locked_call
  locked_call-Panicked m x (Op.send v) e = section-Panicked (λ q. step m q (Op.send v)) x e
  locked_call-Panicked m x Op.receive e = section-Panicked (λ q. step m q Op.receive) x e
  locked_call-Panicked m x (Op.observe i) e =
      try_section-Panicked (Reply.returned none) (λ q. step m q (Op.observe i)) x e
  locked_call-Panicked m x Op.attach_receiver e =
      section-Panicked (λ q. step m q Op.attach_receiver) x e
  locked_call-Panicked m x Op.drop_receiver e =
      section-Panicked (λ q. step m q Op.drop_receiver) x e
  locked_call-Panicked moving x Op.attach_observer (p, e) = absurd (cc)
  locked_call-Panicked cloning x Op.attach_observer e =
      section-Panicked (λ q. step cloning q Op.attach_observer) x e
  locked_call-Panicked m x (Op.drop_observer i) e =
      section-Panicked (λ q. step m q (Op.drop_observer i)) x e

  locked_call-poisoned :
      (m : Mode) (x : Mutex (LockingTableInner T)) (o : Op T)
      → x.held ≡ false
      → x.is_poisoned ≡ true
      → locked_call m x o ≡ (poisoned_reply m o, x)
  unfolding locked_call
  locked_call-poisoned m x (Op.send v) free e = section-poisoned (λ q. step m q (Op.send v)) x e
  locked_call-poisoned m x Op.receive free e = section-poisoned (λ q. step m q Op.receive) x e
  locked_call-poisoned m x (Op.observe i) free e =
      try_section-poisoned (Reply.returned none) (λ q. step m q (Op.observe i)) x free e
  locked_call-poisoned m x Op.attach_receiver free e =
      section-poisoned (λ q. step m q Op.attach_receiver) x e
  locked_call-poisoned m x Op.drop_receiver free e =
      section-poisoned (λ q. step m q Op.drop_receiver) x e
  locked_call-poisoned moving x Op.attach_observer free e = refl
  locked_call-poisoned cloning x Op.attach_observer free e =
      section-poisoned (λ q. step cloning q Op.attach_observer) x e
  locked_call-poisoned m x (Op.drop_observer i) free e =
      section-poisoned (λ q. step m q (Op.drop_observer i)) x e

  locked_calls-poisoned :
      (m : Mode) (ops : List (Op T)) (x : Mutex (LockingTableInner T))
      → x.held ≡ false
      → x.is_poisoned ≡ true
      → locked_calls m x ops ≡ (map (poisoned_reply m) ops, x)
  unfolding locked_calls
  locked_calls-poisoned m [] x free e = refl
  locked_calls-poisoned m (o ∷ ops) x free e =
      rw (locked_call-poisoned m x o free e, locked_calls-poisoned m ops x free e) refl

  -- When a call panics while it has the mutex, then of the later sends, receives and strong
  -- observations and of the later attaching and dropping of receivers and strong observers each one
  -- panics, except for `attach_strong_observer` of the plain queue, which takes no mutex and answers
  -- that it is unsupported; the mutex stays poisoned, and the ring is never changed again.
  pub locked_calls-Panicked :
      (m : Mode) (x : Mutex (LockingTableInner T)) (o : Op T) (ops : List (Op T))
      → x.held ≡ false
      → Panicked (locked_call m x o).0
      → locked_calls m x (o ∷ ops)
        ≡ ((locked_call m x o).0 ∷ map (poisoned_reply m) ops, record x { is_poisoned = true })
  unfolding locked_calls
  locked_calls-Panicked m x o ops free fails =
      rw
        (
          locked_call-Panicked m x o fails,
          locked_calls-poisoned m ops (record x { is_poisoned = true }) free refl,
        )
        refl
