-- ===== src/Locking/Guarded.antt =====
-- orpc/src/oqueue/locking.rs with orpc/src/sync/mod.rs: the calls of a queue's handles as critical
-- sections of its mutex, one after the other, from the construction of the queue on.
pub mod Poisoned
mod Tests
use orpc_prototype.Prelude.{
  ℕ, zero, suc, ◌+◌, ◌<◌, ◌≡◌, refl, sym, ap, ◌∙◌, subst, inl, inr, Bool, true, false, Option, none,
  some, List, [], ◌∷◌, map, Outcome, Panic, done, panic, ◌>>=◌, All, length, replicate, usize_max,
  Outcome-cases, length-replicate,
}
use orpc_prototype.Sync.Mutex.{
  Mutex, new_mutex, section, try_section, lock, try_lock, release, on_guard, Panicked,
  section-Panicked, try_section-Panicked, section-poisoned, try_section-poisoned,
}
use orpc_prototype.Locking.{LockingTableInner, new_inner, range_from}
use orpc_prototype.Locking.History.{Mode, moving, cloning, Stores, new_inner-Stores}
use orpc_prototype.Locking.Spec
use orpc_prototype.Locking.Spec.{Spec, Op, Reply, AllPermitted}
use orpc_prototype.Locking.Calls.{step, run, view, position}
use orpc_prototype.Locking.Refine.{RunRefines, run-RunRefines}

no_positions : (n : ℕ) → map position (replicate n usize_max) ≡ replicate n none
no_positions zero = refl
no_positions (suc n) = ap (λ l. none ∷ l) (no_positions n)

new_inner-length {ℓ} : (T : Type ℓ) (n k : ℕ) → length (new_inner T n k).buffer ≡ n
unfolding new_inner
new_inner-length T n k = length-replicate {A = Option T} n none

module _ {ℓ} {T : Type ℓ} where
  -- A call on the queue's mutex. `try_strong_observe` uses `try_lock`, `attach_strong_observer` of the
  -- plain queue, which has no observers, no lock, and all others `lock`.
  unfoldable pub locked_call :
      Mode → Mutex (LockingTableInner T) → Op T → Outcome (Reply T) × Mutex (LockingTableInner T)
  locked_call m x (Op.send v) = section (λ q. step m q (Op.send v)) x
  locked_call m x Op.receive = section (λ q. step m q Op.receive) x
  locked_call m x (Op.observe i) =
      try_section (Reply.returned none) (λ q. step m q (Op.observe i)) x
  locked_call m x Op.attach_receiver = section (λ q. step m q Op.attach_receiver) x
  locked_call m x Op.drop_receiver = section (λ q. step m q Op.drop_receiver) x
  locked_call moving x Op.attach_observer = (done (Reply.attached none), x)
  locked_call cloning x Op.attach_observer = section (λ q. step cloning q Op.attach_observer) x
  locked_call m x (Op.drop_observer i) = section (λ q. step m q (Op.drop_observer i)) x

  -- Calls one after the other, each on a thread that may unwind.
  unfoldable pub locked_calls :
      Mode
      → Mutex (LockingTableInner T)
      → List (Op T)
      → List (Outcome (Reply T)) × Mutex (LockingTableInner T)
  unfolding locked_call
  locked_calls m x [] = ([], x)
  locked_calls m x (o ∷ ops) =
      let (r, x') = locked_call m x o in let (rs, x'') = locked_calls m x' ops in (r ∷ rs, x'')

  -- A queue before any call.
  abbrev pub new_spec : ℕ → Spec T
  new_spec observers = record {
    log = [];
    receivers = 0;
    next = none;
    observers = replicate observers none;
    free = range_from 0 observers;
  }

  new_inner-view : (n k : ℕ) → view [] (new_inner T n k) ≡ new_spec k
  unfolding new_inner
  new_inner-view n k = rw (no_positions k) refl

  -- A call that does not panic, on a mutex that is not poisoned.
  locked_call-done :
      (m : Mode) (q q' : LockingTableInner T) (o : Op T) (r : Reply T)
      → step m q o ≡ done (r, q')
      → locked_call m (new_mutex q) o ≡ (done r, new_mutex q')
  unfolding locked_call section try_section lock try_lock release on_guard step
  locked_call-done m q q' (Op.send v) r e = rw e refl
  locked_call-done m q q' Op.receive r e = rw e refl
  locked_call-done m q q' (Op.observe i) r e = rw e refl
  locked_call-done m q q' Op.attach_receiver r e = rw e refl
  locked_call-done m q q' Op.drop_receiver r e = rw e refl
  locked_call-done moving q q' Op.attach_observer r e =
      let same : q ≡ q' = cc in
      let answer : Reply.attached none ≡ r = cc in rw (← same, ← answer) refl
  locked_call-done cloning q q' Op.attach_observer r e = rw e refl
  locked_call-done m q q' (Op.drop_observer i) r e = rw e refl

  -- The first call of a run that does not panic, and the others.
  run-inv :
      (m : Mode) (q q' : LockingTableInner T) (o : Op T) (ops : List (Op T)) (rs : List (Reply T))
      → run m q (o ∷ ops) ≡ done (rs, q')
      → (r : Reply T) × (q₁ : LockingTableInner T) × (rest : List (Reply T)) × (step m q o
          ≡ done (r, q₁))
        × (run m q₁ ops ≡ done (rest, q'))
        × (rs ≡ r ∷ rest)
  unfolding run
  run-inv m q q' o ops rs e = elim (Outcome-cases (step m q o)) [
    | inl (p, f) ↦ absurd (let g : panic p ≡ done (rs, q') = rw (f, run) at e in cc)
    | inr ((r, q₁), f) ↦ elim (Outcome-cases (run m q₁ ops)) [
      | inl (p, g) ↦ absurd (let h : panic p ≡ done (rs, q') = rw (f, g) at e in cc)
      | inr ((rest, q₂), g) ↦
          let h : done (r ∷ rest, q₂) ≡ done (rs, q') = rw (f, g) at e in
          let same : q₂ ≡ q' = cc in
          let all : r ∷ rest ≡ rs = cc in
          (r, q₁, rest, f, g ∙ ap (λ k. done (rest, k)) same, sym all)
    ]
  ]

  run-locked_calls :
      (m : Mode) (q q' : LockingTableInner T) (ops : List (Op T)) (rs : List (Reply T))
      → run m q ops ≡ done (rs, q')
      → locked_calls m (new_mutex q) ops ≡ (map (λ r. done r) rs, new_mutex q')
  unfolding locked_calls run
  run-locked_calls m q q' [] rs e =
      let same : q ≡ q' = cc in let all : [] ≡ rs = cc in rw (← all, same) refl
  run-locked_calls m q q' (o ∷ ops) rs e =
      let (r, q₁, rest, first, others, all) = run-inv m q q' o ops rs e in
      rw (locked_call-done m q q₁ o r first, run-locked_calls m q₁ q' ops rest others, all) refl

  -- On a new queue with room for at least one value, without strong observers if it is a plain one,
  -- no sequence of permitted calls panics or leaves the mutex poisoned: the calls reply what the
  -- specification of the queue replies from the empty history on, and the queue left is the
  -- specification's.
  pub locked_calls_lem :
      (m : Mode) (n k : ℕ) (ops : List (Op T))
      → 0 < n
      → (m ≡ moving → k ≡ 0)
      → AllPermitted n (new_spec k) ops
      → (q : LockingTableInner T) × (locked_calls m (new_mutex (new_inner T n k)) ops
          ≡ (map (λ r. done r) (Spec.run n (new_spec k) ops).0, new_mutex q))
        × (view (Spec.run n (new_spec k) ops).1.log q ≡ (Spec.run n (new_spec k) ops).1)
  locked_calls_lem m n k ops pos plain permitted =
      let (q, runs, same, stores) = refines in
      (q, run-locked_calls m (new_inner T n k) q ops (Spec.run n (new_spec k) ops).0 runs, same)
    where
      size : length (new_inner T n k).buffer ≡ n
      size = new_inner-length T n k

      refines : RunRefines m (new_inner T n k) ops (Spec.run n (new_spec k) ops)
      refines =
          subst (λ s. RunRefines m (new_inner T n k) ops (Spec.run n s ops)) (new_inner-view n k)
            (subst
              (λ c. RunRefines m (new_inner T n k) ops (Spec.run c (view [] (new_inner T n k)) ops))
              size
              (run-RunRefines m [] (new_inner T n k) ops (new_inner-Stores T m n k pos plain) (
                subst (λ s. AllPermitted (length (new_inner T n k).buffer) s ops)
                  (sym (new_inner-view n k))
                  (subst (λ c. AllPermitted c (new_spec k) ops) (sym size) permitted))))
