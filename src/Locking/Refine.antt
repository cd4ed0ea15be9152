-- ===== src/Locking/Refine.antt =====
-- The ring refines the specification: every permitted call returns without a panic what the
-- specification returns, and leaves the ring holding the specification's history and positions.
use orpc_prototype.Prelude.{ℕ, ◌≡◌, refl, sym, ◌∙◌, subst, List, [], ◌∷◌, done, length}
use orpc_prototype.Locking.{LockingTableInner}
use orpc_prototype.Locking.History.{Mode, Stores}
use orpc_prototype.Locking.Spec
use orpc_prototype.Locking.Spec.{Spec, Op, Reply, Permitted, AllPermitted}
use orpc_prototype.Locking.Calls.{step, run, view, Refines}
use orpc_prototype.Locking.Receivers.{send-Refines, receive-Refines, attach-Refines, drop-Refines}
use orpc_prototype.Locking.Observers.{observe-Refines, allocate-Refines, release-Refines}

module _ {ℓ} {T : Type ℓ} where
  -- On a ring that stores a history, every call that handle ownership permits returns without a
  -- panic, replies what the specification of the queue replies at the view of the ring, and leaves
  -- a ring of the same size that stores the specification's history and whose view is its state.
  pub step-Refines :
      (m : Mode) (log : List T) (q : LockingTableInner T) (o : Op T)
      → Stores m log q
      → Permitted (view log q) o
      → Refines m q o (Spec.step (length q.buffer) (view log q) o)
  step-Refines m log q (Op.send x) s p = send-Refines log q m s x p
  step-Refines m log q Op.receive s p = receive-Refines log q p m s
  step-Refines m log q (Op.observe i) s p = observe-Refines log q m s i p.0 p.1
  step-Refines m log q Op.attach_receiver s p = attach-Refines log q m s p
  step-Refines m log q Op.drop_receiver s p = drop-Refines log q p m s
  step-Refines m log q Op.attach_observer s p = allocate-Refines log q m s
  step-Refines m log q (Op.drop_observer i) s p = release-Refines log q m s i p.0 p.1

  abbrev pub RunRefines :
      Mode → LockingTableInner T → List (Op T) → List (Reply T) × Spec T → Type ℓ
  RunRefines m q ops (rs, s) =
      (q' : LockingTableInner T) × (run m q ops ≡ done (rs, q'))
      × (view s.log q' ≡ s)
      × Stores m s.log q'

  -- `step-Refines` at a state that the ring's view equals.
  step-Refines_at :
      (m : Mode) (turn : ℕ) (s : Spec T) (q : LockingTableInner T) (o : Op T)
      → view s.log q ≡ s
      → length q.buffer ≡ turn
      → Stores m s.log q
      → Permitted s o
      → Refines m q o (Spec.step turn s o)
  step-Refines_at m turn s q o same size st p =
      let here = step-Refines m s.log q o st (subst (λ (w : Spec T). Permitted w o) (sym same) p) in
      let sized = subst (λ c. Refines m q o (Spec.step c (view s.log q) o)) size here in
      subst (λ w. Refines m q o (Spec.step turn w o)) same sized

  -- A call, then the others.
  run_cons :
      (m : Mode) (q : LockingTableInner T) (o : Op T) (ops : List (Op T)) (r : Reply T) (s : Spec T)
      (out : List (Reply T) × Spec T)
      → Refines m q o (r, s)
      → ((q' : LockingTableInner T)
          → view s.log q' ≡ s
          → length q'.buffer ≡ length q.buffer
          → Stores m s.log q'
          → RunRefines m q' ops out)
      → RunRefines m q (o ∷ ops) (r ∷ out.0, out.1)
  unfolding run
  run_cons m q o ops r s out (q₁, runs, same, st, size) others =
      let (q₂, rest, same₂, st₂) = others q₁ same size st in (q₂, joins runs rest, same₂, st₂)
    where
      joins :
          {q₁ q₂ : LockingTableInner T}
          → step m q o ≡ done (r, q₁)
          → run m q₁ ops ≡ done (out.0, q₂)
          → run m q (o ∷ ops) ≡ done (r ∷ out.0, q₂)
      joins e f = rw (e, f)

  run_from :
      (m : Mode) (turn : ℕ) (s : Spec T) (q : LockingTableInner T) (ops : List (Op T))
      → view s.log q ≡ s
      → length q.buffer ≡ turn
      → Stores m s.log q
      → AllPermitted turn s ops
      → RunRefines m q ops (Spec.run turn s ops)
  unfolding run Spec.run
  run_from m turn s q [] same size st p = (q, refl, same, st)
  run_from m turn s q (o ∷ ops) same size st (p, ps) =
      run_cons m q o ops (Spec.step turn s o).0 (Spec.step turn s o).1
        (Spec.run turn (Spec.step turn s o).1 ops) (step-Refines_at m turn s q o same size st p)
        (λ q' same' size' st'.
          run_from m turn (Spec.step turn s o).1 q' ops same' (size' ∙ size) st' ps)

  -- On a ring that stores a history, no sequence of permitted calls panics, and none tells the ring
  -- from the specification: the replies are the same, and the ring left stores the specification's
  -- history and positions.
  pub run-RunRefines :
      (m : Mode) (log : List T) (q : LockingTableInner T) (ops : List (Op T))
      → Stores m log q
      → AllPermitted (length q.buffer) (view log q) ops
      → RunRefines m q ops (Spec.run (length q.buffer) (view log q) ops)
  run-RunRefines m log q ops s p = run_from m (length q.buffer) (view log q) q ops refl refl s p
