-- ===== src/Locking/Order.antt =====
-- "Exactly once": what the receivers together, and each strong observer, read of the values sent.
use orpc_prototype.Prelude.{
  ℕ, ◌≤◌, ◌≡◌, refl, sym, ap, ◌∙◌, subst, arith, none, some, List, [], ◌∷◌, ◌++◌, done, length,
  drop, ==-false, length-append, drop-append, ℕ_discrete,
}
use mathlib.Core.List.{append_assoc}
use orpc_prototype.Locking.{LockingTableInner}
use orpc_prototype.Locking.History.{Mode, Stores}
use orpc_prototype.Locking.Calls.{run, view}
use orpc_prototype.Locking.Spec
use orpc_prototype.Locking.Spec.{Spec, Op, Reply, Permitted, AllPermitted}
use orpc_prototype.Locking.Ownership.{FreeSlots, step-FreeSlots}
use orpc_prototype.Locking.Observers.{owned}
use orpc_prototype.Locking.Refine.{run-RunRefines}
use orpc_prototype.Locking.Reading.{
  Reader, receivers, observer, read, accepted, all_read, all_accepted, place, Stays, AllStay, Reads,
  idle-Reads,
}
use orpc_prototype.Locking.ReadStep.{receivers_step, observer_step}

module _ {ℓ} {T : Type ℓ} where
  step-Reads :
      (turn : ℕ) (r : Reader) (s : Spec T) (o : Op T) (c : ℕ)
      → FreeSlots s
      → place r s ≡ some (some c)
      → c ≤ length s.log
      → Stays r s o
      → let (y, s') = Spec.step turn s o in Reads r c s.log (read r o y) (accepted o y) s'
  step-Reads turn receivers s o c f at le k = receivers_step turn s f c le o (cc) k
  step-Reads turn (observer i) s o c f at le k = observer_step turn s f c le i o at k

  Reads-append :
      (r : Reader) (c : ℕ) (s s₁ s₂ : Spec T) (xs xs' ys ys' : List T)
      → c ≤ length s.log
      → (a : Reads r c s.log xs ys s₁) → Reads r a.position s₁.log xs' ys' s₂
      → Reads r c s.log (xs ++ xs') (ys ++ ys') s₂
  Reads-append r c s s₁ s₂ xs xs' ys ys' le a b = record {
    position = b.position;
    here = b.here;
    within = b.within;
    grown = b.grown ∙ ap (λ (l : List T). l ++ ys') a.grown ∙ append_assoc s.log ys ys';
    order =
        append_assoc xs xs' (drop b.position s₂.log) ∙ ap (λ (l : List T). xs ++ l) b.order ∙ later;
  }
    where
      -- What was left to read, with what was sent since.
      later : xs ++ drop a.position s₂.log ≡ drop c s₂.log
      later = rw b.grown (
          rw
            (
              drop-append s₁.log ys' a.position a.within,
              drop-append s₁.log ys' c (omega (arith, ap length a.grown, length-append s.log ys)),
            )
            (sym (append_assoc xs (drop a.position s₁.log) ys')
              ∙ ap (λ (l : List T). l ++ ys') a.order))

  run-Reads :
      (turn : ℕ) (r : Reader) (s : Spec T) (ops : List (Op T)) (c : ℕ)
      → FreeSlots s
      → place r s ≡ some (some c)
      → c ≤ length s.log
      → AllPermitted turn s ops
      → AllStay r turn s ops
      → let (ys, s') = Spec.run turn s ops in
        Reads r c s.log (all_read r ops ys) (all_accepted ops ys) s'
  unfolding Spec.run
  run-Reads turn r s [] c f at le p k = idle-Reads r c s s at le refl
  run-Reads turn r s (o ∷ ops) c f at le (p, ps) (k, ks) =
      let now = step-Reads turn r s o c f at le k in
      let s₁ = (Spec.step turn s o).1 in
      let out = Spec.run turn s₁ ops in
      Reads-append r c s s₁ out.1 (read r o (Spec.step turn s o).0) (all_read r ops out.0)
        (accepted o (Spec.step turn s o).0) (all_accepted ops out.0) le now
        (run-Reads turn r s₁ ops now.position (step-FreeSlots s f turn o p) now.here now.within ps
          ks)

  place_within :
      (m : Mode) (log : List T) (q : LockingTableInner T) (r : Reader) (c : ℕ)
      → Stores m log q
      → place r (view log q) ≡ some (some c)
      → c ≤ length log
  place_within m log q receivers c st at = elim (ℕ_discrete q.n_receivers 0) [
    | yes e ↦ absurd (let nowhere : some none ≡ some (some c) = rw e at at in cc)
    | no n ↦
        let here : some (some q.head_index) ≡ some (some c) =
          rw (==-false q.n_receivers 0 n) at at in
        let same : q.head_index ≡ c = cc in omega (arith, st.total, st.valid.receiver (omega arith))
  ]
  place_within m log q (observer i) c st at =
      omega (arith, st.total, (owned log q st.valid i c at).behind)

  -- Exactly once: while a reader (the receivers together, or one strong observer) stays attached,
  -- no permitted sequence of calls on a queue panics; the values that the calls hand to the reader,
  -- followed by those from its last position on, are the values of the history from its first
  -- position on, where the history is the old one and the values accepted from senders since. So it
  -- gets every value once, in the order sent, with none lost, repeated or invented.
  pub read_in_order :
      (m : Mode) (log : List T) (q : LockingTableInner T) (ops : List (Op T)) (r : Reader) (c : ℕ)
      → Stores m log q
      → FreeSlots (view log q)
      → place r (view log q) ≡ some (some c)
      → AllPermitted (length q.buffer) (view log q) ops
      → AllStay r (length q.buffer) (view log q) ops
      → (ys : List (Reply T)) × (q' : LockingTableInner T) × (c' : ℕ) × (run m q ops
          ≡ done (ys, q'))
        × (all_read r ops ys ++ drop c' (log ++ all_accepted ops ys)
            ≡ drop c (log ++ all_accepted ops ys))
        × (c' ≤ length (log ++ all_accepted ops ys))
  read_in_order m log q ops r c st f at p k =
      let turn = length q.buffer in
      let out = Spec.run turn (view log q) ops in
      let (q', runs, same, st') = run-RunRefines m log q ops st p in
      let reads = run-Reads turn r (view log q) ops c f at (place_within m log q r c st at) p k in
      (
        out.0,
        q',
        reads.position,
        runs,
        subst (λ (l : List T). all_read r ops out.0 ++ drop reads.position l ≡ drop c l) reads.grown
            reads.order,
        subst (λ (l : List T). reads.position ≤ length l) reads.grown reads.within,
      )
