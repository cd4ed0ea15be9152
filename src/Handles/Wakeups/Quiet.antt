-- ===== src/Handles/Wakeups/Quiet.antt =====
-- Of all operations on a queue only a send can make a reader ready.
use orpc_prototype.Prelude.{
  ℕ, zero, suc, ◌+◌, ◌-◌, ◌≡◌, refl, sym, ap, ◌∙◌, subst, ◌⊎◌, inl, inr, arith, Bool, true, false,
  not, Option, none, some, List, [], ◌∷◌, ◌++◌, ◌==◌, if◌then◌else◌, length, get_elem?, set, pop,
  Bool-cases, Option-cases, ==-false, ==-refl, get_elem?-lt,
}
use orpc_prototype.Locking.Spec
use orpc_prototype.Locking.Spec.{Spec, Op, Reply, is_full}
use orpc_prototype.Locking.Reading.{Reader, receivers, observer}
use orpc_prototype.Handles.Wakeups.{is_behind, should_read, wakes_readers}

get_elem?-set {ℓ} :
    {A : Type ℓ} (l : List A) (i j : ℕ) (x : A)
    → (get_elem? (set l i x) j ≡ get_elem? l j) ⊎ ((i ≡ j) × (get_elem? (set l i x) j ≡ some x))
get_elem?-set [] i j x = inl refl
get_elem?-set (y ∷ l) zero zero x = inr (refl, refl)
get_elem?-set (y ∷ l) zero (suc j) x = inl refl
get_elem?-set (y ∷ l) (suc i) zero x = inl refl
get_elem?-set (y ∷ l) (suc i) (suc j) x = elim (get_elem?-set l i j x) [
  | inl e ↦ inl e
  | inr (e, f) ↦ inr (ap (λ k. suc k) e, f)
]

module _ {ℓ} {T : Type ℓ} where
  -- No reader becomes ready.
  unfoldable pub Quiet : Spec T → Spec T → Type 0
  Quiet s s' = (r : Reader) → should_read s' r ≡ true → should_read s r ≡ true

  get_elem?-below :
      (l : List T) (c : ℕ) (x : T) → get_elem? l c ≡ some x → not (c == length l) ≡ true
  get_elem?-below l c x e = rw (==-false c (length l) (λ p. omega (arith, get_elem?-lt l c x e)))

  receive-Quiet : (s : Spec T) → Quiet s (Spec.receive_value s s.next).1
  unfolding Quiet Spec.step
  receive-Quiet s = go s.next refl
    where
      got :
          (c : ℕ) (x : T)
          → get_elem? s.log c ≡ some x
          → Spec.receive_value s (some c)
            ≡ (Reply.returned (some x), record s { next = some (c + 1) })
      got c x f = rw (f, Spec.receive_value)

      nothing :
          (c : ℕ)
          → get_elem? s.log c ≡ none
          → Spec.receive_value s (some c) ≡ (Reply.returned none, s)
      nothing c f = rw (f, Spec.receive_value)

      after :
          (c : ℕ) (x : T)
          → s.next ≡ some c
          → get_elem? s.log c ≡ some x
          → (r : Reader) → should_read (record s { next = some (c + 1) }) r ≡ true
          → should_read s r ≡ true
      after c x e f receivers h = rw e (get_elem?-below s.log c x f)
      after c x e f (observer j) h = h

      go :
          (p : Option ℕ)
          → s.next ≡ p
          → (r : Reader) → should_read (Spec.receive_value s p).1 r ≡ true
          → should_read s r ≡ true
      go none e r h = h
      go (some c) e r h = elim (Option-cases (get_elem? s.log c)) [
        | inl f ↦ subst (λ (out : Reply T × Spec T). should_read out.1 r ≡ true) (nothing c f) h
        | inr (x, f) ↦
            after c x e f r
              (subst (λ (out : Reply T × Spec T). should_read out.1 r ≡ true) (got c x f) h)
      ]

  observe-Quiet :
      (s : Spec T) (i : ℕ) → Quiet s (Spec.observe_value s i (get_elem? s.observers i)).1
  unfolding Quiet Spec.step
  observe-Quiet s i = go (get_elem? s.observers i) refl
    where
      got :
          (c : ℕ) (x : T)
          → get_elem? s.log c ≡ some x
          → Spec.observe_value s i (some (some c))
            ≡ (Reply.returned (some x), record s { observers = set s.observers i (some (c + 1)) })
      got c x f = rw (f, Spec.observe_value)

      nothing :
          (c : ℕ)
          → get_elem? s.log c ≡ none
          → Spec.observe_value s i (some (some c)) ≡ (Reply.returned none, s)
      nothing c f = rw (f, Spec.observe_value)

      after :
          (c : ℕ) (x : T)
          → get_elem? s.observers i ≡ some (some c)
          → get_elem? s.log c ≡ some x
          → (r : Reader)
          → should_read (record s { observers = set s.observers i (some (c + 1)) }) r ≡ true
          → should_read s r ≡ true
      after c x e f receivers h = h
      after c x e f (observer j) h = elim (get_elem?-set s.observers i j (some (c + 1))) [
        | inl g ↦ rw g at h
        | inr (same, g) ↦
            let at : get_elem? s.observers j ≡ some (some c) =
              ap (λ k. get_elem? s.observers k) (sym same) ∙ e in
            rw at (get_elem?-below s.log c x f)
      ]

      go :
          (p : Option (Option ℕ))
          → get_elem? s.observers i ≡ p
          → (r : Reader) → should_read (Spec.observe_value s i p).1 r ≡ true
          → should_read s r ≡ true
      go none e r h = h
      go (some none) e r h = h
      go (some (some c)) e r h = elim (Option-cases (get_elem? s.log c)) [
        | inl f ↦ subst (λ (out : Reply T × Spec T). should_read out.1 r ≡ true) (nothing c f) h
        | inr (x, f) ↦
            after c x e f r
              (subst (λ (out : Reply T × Spec T). should_read out.1 r ≡ true) (got c x f) h)
      ]

  set-Quiet :
      (s : Spec T) (i : ℕ) (p : Option ℕ) (free : List ℕ)
      → is_behind (length s.log) (some p) ≡ false
      → Quiet s (record s { observers = set s.observers i p; free = free })
  unfolding Quiet
  set-Quiet s i p free e receivers h = h
  set-Quiet s i p free e (observer j) h = elim (get_elem?-set s.observers i j p) [
    | inl f ↦ rw f at h
    | inr (same, f) ↦ absurd (let g : is_behind (length s.log) (some p) ≡ true = rw f at h in cc)
  ]

  next-Quiet :
      (s : Spec T) (n : ℕ) (p : Option ℕ)
      → (is_behind (length s.log) (some p) ≡ true → is_behind (length s.log) (some s.next) ≡ true)
      → Quiet s (record s { receivers = n; next = p })
  unfolding Quiet
  next-Quiet s n p f receivers h = f h
  next-Quiet s n p f (observer j) h = h

  allocate-Quiet : (s : Spec T) → Quiet s (Spec.allocate s (pop s.free)).1
  unfolding Quiet Spec.step
  allocate-Quiet s = go (pop s.free)
    where
      go :
          (p : Option (ℕ × List ℕ)) (r : Reader)
          → should_read (Spec.allocate s p).1 r ≡ true
          → should_read s r ≡ true
      go none r h = h
      go (some (i, rest)) r h =
          set-Quiet s i (some (length s.log)) rest (rw (==-refl (length s.log))) r h

  pub full :
      (turn : ℕ) (s : Spec T) (x : T)
      → is_full turn s ≡ true
      → Spec.send_value turn s x ≡ (Reply.returned (some x), s)
  unfolding Spec.step
  full turn s x f = rw (f, Spec.send_value)

  first :
      (s : Spec T) (b : Bool)
      → is_behind (length s.log) (some (if b then some (length s.log) else s.next)) ≡ true
      → is_behind (length s.log) (some s.next) ≡ true
  first s true h = absurd (let g = rw (==-refl (length s.log)) at h in cc)
  first s false h = h

  last :
      (s : Spec T) (b : Bool)
      → is_behind (length s.log) (some (if b then none else s.next)) ≡ true
      → is_behind (length s.log) (some s.next) ≡ true
  last s true h = absurd (cc)
  last s false h = h

  -- Of all operations only a send can make a reader ready.
  pub step-Quiet :
      (turn : ℕ) (s : Spec T) (o : Op T)
      → wakes_readers turn s o ≡ false
      → Quiet s (Spec.step turn s o).1
  unfolding Quiet Spec.step
  step-Quiet turn s (Op.send x) e = elim (Bool-cases (is_full turn s)) [
    | inl f ↦
        λ r h. subst (λ (out : Reply T × Spec T). should_read out.1 r ≡ true) (full turn s x f) h
    | inr f ↦ absurd (let g = rw f at e in cc)
  ]
  step-Quiet turn s Op.receive e = receive-Quiet s
  step-Quiet turn s (Op.observe i) e = observe-Quiet s i
  step-Quiet turn s Op.attach_receiver e =
      next-Quiet s (s.receivers + 1) _ (first s (s.receivers == 0))
  step-Quiet turn s Op.drop_receiver e =
      next-Quiet s (s.receivers - 1) _ (last s (s.receivers - 1 == 0))
  step-Quiet turn s Op.attach_observer e = allocate-Quiet s
  step-Quiet turn s (Op.drop_observer i) e = set-Quiet s i none (s.free ++ (i ∷ [])) refl
