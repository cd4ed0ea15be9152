-- ===== src/Locking/Ownership.antt =====
-- Observer slots: a free slot has no position, and no slot is free twice, so a slot in use is never
-- handed out again.
use orpc_prototype.Prelude.{
  ℕ, zero, suc, ◌+◌, ◌≤◌, ◌<◌, ◌≡◌, ◌≢◌, refl, sym, ◌∙◌, inl, inr, arith, Option, none, some, List,
  [], ◌∷◌, ◌++◌, map, usize_max, length, get_elem?, set, replicate, pop, All, All-map, Bool-cases,
  Option-cases, get_elem?-set_self, get_elem?-set_ne, get_elem?-lt, All-zip, All-append,
  All-append_inv, pop-some, All-pop,
}
use orpc_prototype.Locking.{new_inner, range_from}
use orpc_prototype.Locking.Calls.{position, view}
use orpc_prototype.Locking.Spec
use orpc_prototype.Locking.Spec.{Spec, Op, Reply, Permitted, AllPermitted}

abbrev pub Distinct : List ℕ → Type 0
Distinct [] = Unit
Distinct (x ∷ xs) = All (λ y. y ≢ x) xs × Distinct xs

pub record FreeSlots {ℓ} {T : Type ℓ} (s : Spec T) : Type 0 where
  pub vacant : All (λ j. get_elem? s.observers j ≡ some none) s.free
  pub distinct : Distinct s.free

-- The last of distinct elements differs from the others.
Distinct-last :
    (xs : List ℕ) (a : ℕ) → Distinct (xs ++ (a ∷ [])) → All (λ y. y ≢ a) xs × Distinct xs
Distinct-last [] a d = (tt, tt)
Distinct-last (x ∷ xs) a d =
    let (l, e) = Distinct-last xs a d.1 in
    let (k, m) = All-append_inv (λ y. y ≢ x) xs (a ∷ []) d.0 in ((λ p. m.0 (sym p), l), (k, e))

Distinct-append :
    (xs : List ℕ) (a : ℕ) → Distinct xs → All (λ y. y ≢ a) xs → Distinct (xs ++ (a ∷ []))
Distinct-append [] a d n = (tt, tt)
Distinct-append (x ∷ xs) a d n =
    (All-append (λ y. y ≢ x) xs (a ∷ []) d.0 ((λ p. n.0 (sym p)), tt), Distinct-append xs a d.1 n.1)

module _ {ℓ} {T : Type ℓ} (s : Spec T) (f : FreeSlots s) where
  -- A write to a slot that is not free leaves the free ones vacant.
  vacant-set :
      (i : ℕ) (p : Option ℕ) (free : List ℕ)
      → All (λ j. j ≢ i) free
      → All (λ j. get_elem? s.observers j ≡ some none) free
      → All (λ j. get_elem? (set s.observers i p) j ≡ some none) free
  vacant-set i p free apart v =
      All-zip (λ j. j ≢ i) (λ j. get_elem? s.observers j ≡ some none)
        (λ j. get_elem? (set s.observers i p) j ≡ some none) free
        (λ j n e. get_elem?-set_ne s.observers i j p (λ q. n (sym q)) ∙ e) apart v

  -- A slot in use is not free.
  pub used_apart : (i c : ℕ) → get_elem? s.observers i ≡ some (some c) → All (λ j. j ≢ i) s.free
  used_apart i c e =
      All-map (λ j. get_elem? s.observers j ≡ some none) (λ j. j ≢ i) s.free
        (λ j v p. let clash : get_elem? s.observers j ≡ some (some c) = rw p e in cc) f.vacant

  -- The slot that is handed out has no position.
  pub pop-vacant :
      (i : ℕ) (rest : List ℕ) → pop s.free ≡ some (i, rest) → get_elem? s.observers i ≡ some none
  pop-vacant i rest e =
      (All-pop (λ j. get_elem? s.observers j ≡ some none) s.free rest i f.vacant e).0

  receive-FreeSlots : (p : Option ℕ) → FreeSlots (Spec.receive_value s p).1
  unfolding Spec.step
  receive-FreeSlots none = f
  receive-FreeSlots (some c) = elim (Option-cases (get_elem? s.log c)) [
    | inl h ↦ rw (h, Spec.receive_value) f
    | inr (x, h) ↦ rw (h, Spec.receive_value) (record { vacant = f.vacant; distinct = f.distinct })
  ]

  -- Every permitted call keeps the free slots vacant and distinct.
  pub step-FreeSlots : (turn : ℕ) (o : Op T) → Permitted s o → FreeSlots (Spec.step turn s o).1
  unfolding Spec.step
  step-FreeSlots turn (Op.send x) p = elim (Bool-cases (Spec.is_full turn s)) [
    | inl e ↦ rw e f
    | inr e ↦ rw e (record { vacant = f.vacant; distinct = f.distinct })
  ]
  step-FreeSlots turn Op.receive p = receive-FreeSlots s.next
  step-FreeSlots turn (Op.observe i) (c, e) = elim (Option-cases (get_elem? s.log c)) [
    | inl h ↦ rw (e, h, Spec.observe_value) f
    | inr (x, h) ↦
        rw (e, h, Spec.observe_value)
          (record {
            vacant = vacant-set i (some (c + 1)) s.free (used_apart i c e) f.vacant;
            distinct = f.distinct;
          })
  ]
  step-FreeSlots turn Op.attach_receiver p = record { vacant = f.vacant; distinct = f.distinct }
  step-FreeSlots turn Op.drop_receiver p = record { vacant = f.vacant; distinct = f.distinct }
  step-FreeSlots turn Op.attach_observer p = elim (Option-cases (pop s.free)) [
    | inl e ↦ rw (e, Spec.allocate) f
    | inr ((i, rest), e) ↦
        let (apart, d) = Distinct-last rest i (rw (pop-some s.free rest i e) at f.distinct) in
        rw (e, Spec.allocate)
          (record {
            vacant =
                vacant-set i (some (length s.log)) rest apart
                  (All-pop (λ j. get_elem? s.observers j ≡ some none) s.free rest i f.vacant e).1;
            distinct = d;
          })
  ]
  step-FreeSlots turn (Op.drop_observer i) (c, e) = record {
    vacant =
        All-append (λ j. get_elem? (set s.observers i none) j ≡ some none) s.free (i ∷ [])
          (vacant-set i none s.free (used_apart i c e) f.vacant)
          (get_elem?-set_self s.observers i none (get_elem?-lt s.observers i (some c) e), tt);
    distinct = Distinct-append s.free i f.distinct (used_apart i c e);
  }

range_from-ge : (n i k : ℕ) → k ≤ i → All (λ j. k ≤ j) (range_from i n)
range_from-ge zero i k h = tt
range_from-ge (suc n) i k h = (h, range_from-ge n (i + 1) k (omega arith))

range_from-Distinct : (n i : ℕ) → Distinct (range_from i n)
range_from-Distinct zero i = tt
range_from-Distinct (suc n) i = (
  All-map (λ j. i + 1 ≤ j) (λ j. j ≢ i) (range_from (i + 1) n) (λ j h e. omega arith)
      (range_from-ge n (i + 1) (i + 1) (omega arith)),
  range_from-Distinct n (i + 1),
)

range_from-vacant :
    (m n i : ℕ)
    → i + n ≤ m
    → All (λ j. get_elem? (map position (replicate m usize_max)) j ≡ some none) (range_from i n)
range_from-vacant m zero i h = tt
range_from-vacant m (suc n) i h =
    (map-replicate_get m i (omega arith), range_from-vacant m n (i + 1) (omega arith))
  where
    map-replicate_get :
        (m j : ℕ) → j < m → get_elem? (map position (replicate m usize_max)) j ≡ some none
    map-replicate_get zero j h = elim h [ ]
    map-replicate_get (suc m) zero h = refl
    map-replicate_get (suc m) (suc j) h = map-replicate_get m j (omega arith)

-- In a new queue all slots are free, each once.
pub new_inner-FreeSlots {ℓ} :
    (T : Type ℓ) (buffer_size max_strong_observers : ℕ)
    → FreeSlots (view [] (new_inner T buffer_size max_strong_observers))
unfolding new_inner
new_inner-FreeSlots T n k = record {
  vacant = range_from-vacant k k 0 (omega arith);
  distinct = range_from-Distinct k 0;
}
