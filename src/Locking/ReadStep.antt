-- ===== src/Locking/ReadStep.antt =====
-- What one call reads: at most the value at the reader's position, which then moves past it.
use orpc_prototype.Prelude.{
  ℕ, ◌+◌, ◌-◌, ◌≤◌, ◌≡◌, ◌≢◌, refl, sym, ap, ◌∙◌, subst, inl, inr, arith, Option, none, some, List,
  [], ◌∷◌, ◌++◌, length, get_elem?, set, pop, Bool-cases, Option-cases, ==-false, ==-refl,
  length-append, get_elem?-set_self, get_elem?-set_ne, get_elem?-lt, drop-cons, ℕ_discrete,
}
use mathlib.Core.List.{append-nil}
use orpc_prototype.Locking.Spec
use orpc_prototype.Locking.Spec.{Spec, Op, Reply, Permitted, AllPermitted}
use orpc_prototype.Locking.Ownership.{FreeSlots, pop-vacant}
use orpc_prototype.Locking.Reading.{
  Reader, receivers, observer, read, accepted, place, Stays, Reads, idle-Reads, read_other,
}

module _ {ℓ} {T : Type ℓ} where
  receive_fields :
      (s : Spec T) (p : Option ℕ)
      → ((Spec.receive_value s p).1.log ≡ s.log)
        × ((Spec.receive_value s p).1.observers ≡ s.observers)
  unfolding Spec.step
  receive_fields s none = (refl, refl)
  receive_fields s (some c) = elim (Option-cases (get_elem? s.log c)) [
    | inl h ↦ rw (h, Spec.receive_value) (refl, refl)
    | inr (x, h) ↦ rw (h, Spec.receive_value) (refl, refl)
  ]

  observe_fields :
      (s : Spec T) (i : ℕ) (p : Option (Option ℕ))
      → ((Spec.observe_value s i p).1.log ≡ s.log)
        × ((Spec.observe_value s i p).1.next ≡ s.next)
        × ((j : ℕ)
            → i ≢ j
            → get_elem? (Spec.observe_value s i p).1.observers j ≡ get_elem? s.observers j)
  unfolding Spec.step
  observe_fields s i none = (refl, refl, λ j n. refl)
  observe_fields s i (some none) = (refl, refl, λ j n. refl)
  observe_fields s i (some (some c)) = elim (Option-cases (get_elem? s.log c)) [
    | inl h ↦ rw (h, Spec.observe_value) (refl, refl, λ j n. refl)
    | inr (x, h) ↦
        rw (h, Spec.observe_value)
          (refl, refl, λ j n. get_elem?-set_ne s.observers i j (some (c + 1)) n)
  ]

  -- The slot that is handed out is vacant, so a position stays where it is.
  allocate_fields :
      (s : Spec T)
      → FreeSlots s
      → ((Spec.allocate s (pop s.free)).1.log ≡ s.log)
        × ((Spec.allocate s (pop s.free)).1.next ≡ s.next)
        × ((j c : ℕ)
            → get_elem? s.observers j ≡ some (some c)
            → get_elem? (Spec.allocate s (pop s.free)).1.observers j ≡ some (some c))
  unfolding Spec.step
  allocate_fields s f = elim (Option-cases (pop s.free)) [
    | inl e ↦ rw (e, Spec.allocate) (refl, refl, λ j c h. h)
    | inr ((i, rest), e) ↦
        rw (e, Spec.allocate)
          (
            refl,
            refl,
            λ j c h.
                get_elem?-set_ne s.observers i j (some (length s.log)) (λ same.
                  let vacant : get_elem? s.observers j ≡ some none =
                    rw same at (pop-vacant s f i rest e) in
                  cc)
                ∙ h,
          )
  ]

  -- A value read at `c`.
  value-Reads :
      (r : Reader) (c : ℕ) (s s' : Spec T) (x : T)
      → get_elem? s.log c ≡ some x
      → place r s' ≡ some (some (c + 1))
      → s'.log ≡ s.log
      → Reads r c s.log (x ∷ []) [] s'
  value-Reads r c s s' x e at same = record {
    position = c + 1;
    here = at;
    within = rw same (omega (arith, get_elem?-lt s.log c x e));
    grown = same ∙ sym (append-nil s.log);
    order = rw same (sym (drop-cons s.log c x e));
  }

  send-Reads :
      (turn : ℕ) (r : Reader) (c : ℕ) (s : Spec T) (x : T)
      → ((log : List T) → place r (record s { log = log }) ≡ some (some c))
      → c ≤ length s.log
      → let (y, s') = Spec.step turn s (Op.send x) in Reads r c s.log [] (accepted (Op.send x) y) s'
  unfolding Spec.step
  send-Reads turn r c s x at le = elim (Bool-cases (Spec.is_full turn s)) [
    | inl e ↦ rw e (idle-Reads r c s s (at s.log) le refl)
    | inr e ↦ rw e (record {
      position = c;
      here = at (s.log ++ (x ∷ []));
      within = omega (arith, length-append s.log (x ∷ []));
      grown = refl;
      order = refl;
    })
  ]

  module _ (turn : ℕ) (s : Spec T) (f : FreeSlots s) (c : ℕ) (le : c ≤ length s.log) where
    receive-Reads :
        s.next ≡ some c
        → let (y, s') = Spec.receive_value s (some c) in
          Reads receivers c s.log (read receivers Op.receive y) [] s'
    unfolding Spec.step
    receive-Reads at = elim (Option-cases (get_elem? s.log c)) [
      | inl h ↦ rw (h, Spec.receive_value) (idle-Reads receivers c s s (ap some at) le refl)
      | inr (x, h) ↦
          rw (h, Spec.receive_value)
            (value-Reads receivers c s (record s { next = some (c + 1) }) x h refl refl)
    ]

    -- One call, as the receivers see it.
    pub receivers_step :
        (o : Op T)
        → s.next ≡ some c
        → Stays receivers s o
        → let (y, s') = Spec.step turn s o in
          Reads receivers c s.log (read receivers o y) (accepted o y) s'
    unfolding Spec.step
    receivers_step (Op.send x) at k = send-Reads turn receivers c s x (λ log. ap some at) le
    receivers_step Op.receive at k =
        subst
          (λ p.
            Reads receivers c s.log (read receivers Op.receive (Spec.receive_value s p).0) []
              (Spec.receive_value s p).1)
          (sym at) (receive-Reads at)
    receivers_step (Op.observe i) at k =
        let (same, next, others) = observe_fields s i (get_elem? s.observers i) in
        idle-Reads receivers c s (Spec.step turn s (Op.observe i)).1 (ap some (next ∙ at)) le same
    receivers_step Op.attach_receiver at k =
        idle-Reads receivers c s (Spec.step turn s Op.attach_receiver).1
          (rw (==-false s.receivers 0 (λ e. omega arith)) (ap some at)) le refl
    receivers_step Op.drop_receiver at k =
        idle-Reads receivers c s (Spec.step turn s Op.drop_receiver).1
          (rw (==-false (s.receivers - 1) 0 (λ e. omega arith)) (ap some at)) le refl
    receivers_step Op.attach_observer at k =
        let (same, next, others) = allocate_fields s f in
        idle-Reads receivers c s (Spec.step turn s Op.attach_observer).1 (ap some (next ∙ at)) le
          same
    receivers_step (Op.drop_observer i) at k =
        idle-Reads receivers c s (Spec.step turn s (Op.drop_observer i)).1 (ap some at) le refl

    observe-Reads :
        (i : ℕ)
        → get_elem? s.observers i ≡ some (some c)
        → let (y, s') = Spec.observe_value s i (some (some c)) in
          Reads (observer i) c s.log (read (observer i) (Op.observe i) y) [] s'
    unfolding Spec.step
    observe-Reads i at = elim (Option-cases (get_elem? s.log c)) [
      | inl h ↦ rw (h, Spec.observe_value, ==-refl i) (idle-Reads (observer i) c s s at le refl)
      | inr (x, h) ↦
          rw (h, Spec.observe_value, ==-refl i)
            (value-Reads (observer i) c s
              (record s { observers = set s.observers i (some (c + 1)) }) x h
              (get_elem?-set_self s.observers i (some (c + 1))
                (get_elem?-lt s.observers i (some c) at))
              refl)
    ]

    -- One call, as the observer in slot `i` sees it.
    pub observer_step :
        (i : ℕ) (o : Op T)
        → get_elem? s.observers i ≡ some (some c)
        → Stays (observer i) s o
        → let (y, s') = Spec.step turn s o in
          Reads (observer i) c s.log (read (observer i) o y) (accepted o y) s'
    unfolding Spec.step
    observer_step i (Op.send x) at k = send-Reads turn (observer i) c s x (λ log. at) le
    observer_step i Op.receive at k =
        let (same, others) = receive_fields s s.next in
        idle-Reads (observer i) c s (Spec.step turn s Op.receive).1 (rw others at) le same
    observer_step i (Op.observe j) at k = elim (ℕ_discrete i j) [
      | yes e ↦ rw (← e) (
          subst
            (λ p.
              Reads (observer i) c s.log
                (read (observer i) (Op.observe i) (Spec.observe_value s i p).0) []
                (Spec.observe_value s i p).1)
            (sym at) (observe-Reads i at))
      | no n ↦
          let (same, next, others) = observe_fields s j (get_elem? s.observers j) in
          rw (read_other i j n (Spec.step turn s (Op.observe j)).0) (
            idle-Reads (observer i) c s (Spec.step turn s (Op.observe j)).1
              (others i (λ e. n (sym e)) ∙ at) le same)
    ]
    observer_step i Op.attach_receiver at k =
        idle-Reads (observer i) c s (Spec.step turn s Op.attach_receiver).1 at le refl
    observer_step i Op.drop_receiver at k =
        idle-Reads (observer i) c s (Spec.step turn s Op.drop_receiver).1 at le refl
    observer_step i Op.attach_observer at k =
        let (same, next, others) = allocate_fields s f in
        idle-Reads (observer i) c s (Spec.step turn s Op.attach_observer).1 (others i c at) le same
    observer_step i (Op.drop_observer j) at k =
        idle-Reads (observer i) c s (Spec.step turn s (Op.drop_observer j)).1
          (get_elem?-set_ne s.observers j i none k ∙ at) le refl
