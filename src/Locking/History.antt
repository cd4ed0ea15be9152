-- ===== src/Locking/History.antt =====
-- The ring against the history of the values sent: which slot still holds which value, for the
-- receivers that move values out and for those that clone them.
use orpc_prototype.Prelude.{
  ℕ, ◌+◌, ◌-◌, ◌≤◌, ◌<◌, ◌≡◌, ◌≢◌, refl, sym, ◌∙◌, inl, inr, arith, false, Option, none, some, List,
  [], ◌∷◌, ◌++◌, usize_max, ◌==◌, if◌then◌else◌, length, get_elem?, set, pop, Bool-cases,
  ==-false_ne, ==-false, length-append, length-set, length-replicate, get_elem?-set_self,
  get_elem?-set_ne, get_elem?-lt, get_elem?-append_left, get_elem?-append_last, get_elem?-replicate,
  dec_lt, ℕ_discrete,
}
use native.Mathlib.Nat.{mod-eq_of_lt}
use orpc_prototype.Locking.{LockingTableInner, new_inner}
use orpc_prototype.Locking.Slots.{mod-injective}
use orpc_prototype.Locking.Invariant.{IsValid, is_full}
use orpc_prototype.Locking.Effects.{
  slot_of, slot-lt, sent, taken, cloned, observed, joined, left, allocated, released, Ready,
}
use orpc_prototype.Locking.Preserve.{
  new_inner-IsValid, sent-IsValid, taken-IsValid, cloned-IsValid, observed-IsValid, joined-IsValid,
  left-IsValid, allocated-IsValid, released-IsValid,
}

-- `LockingReceiver` moves values out; `CloningLockingReceiver` and the observers clone them.
pub data Mode : Type 0 where
  moving cloning : Mode

-- Of the values within one turn, those that are still in their slots.
abbrev pub Kept : Mode → ℕ → ℕ → ℕ → Type 0
Kept moving n_receivers head_index i = (0 < n_receivers) × (head_index ≤ i)
Kept cloning n_receivers head_index i = Unit

pub record Stores {ℓ} {T : Type ℓ} (m : Mode) (log : List T) (q : LockingTableInner T)
    : Type ℓ where
  pub valid : IsValid q
  pub total : length log ≡ q.tail_index
  pub kept :
      (i : ℕ) (x : T)
      → get_elem? log i ≡ some x
      → q.tail_index ≤ i + length q.buffer
      → Kept m q.n_receivers q.head_index i
      → get_elem? q.buffer (slot_of q i) ≡ some (some x)
  pub blank : (i : ℕ) → q.tail_index ≤ i → i < length q.buffer → get_elem? q.buffer i ≡ some none
  pub unobserved : m ≡ moving → (q.strong_observer_heads ≡ []) × (q.free_strong_observer_heads ≡ [])

module _ {ℓ} {T : Type ℓ} (log : List T) (q : LockingTableInner T) where
  -- A value sent goes to the slot of the tail, and takes the place of the oldest one.
  sent-Kept :
      (m : Mode) (s : Stores m log q) (x : T) (i : ℕ) (y : T)
      → get_elem? (log ++ (x ∷ [])) i ≡ some y
      → q.tail_index + 1 ≤ i + length q.buffer
      → Kept m q.n_receivers q.head_index i
      → get_elem? (set q.buffer (slot_of q q.tail_index) (some x)) (slot_of q i) ≡ some (some y)
  sent-Kept m s x i y e near k = elim (dec_lt i (length log)) [
    | yes old ↦
        let apart : slot_of q q.tail_index ≢ slot_of q i = λ p. omega (
          arith,
          s.total,
          mod-injective (length q.buffer) i q.tail_index (omega (arith, s.total)) (omega arith) p,
        ) in
        get_elem?-set_ne q.buffer (slot_of q q.tail_index) (slot_of q i) (some x) apart
        ∙ s.kept i y (sym (get_elem?-append_left log (x ∷ []) i old) ∙ e) (omega arith) k
    | no new ↦
        let last : i ≡ length log =
          omega (arith, get_elem?-lt (log ++ (x ∷ [])) i y e, length-append log (x ∷ [])) in
        let same : x ≡ y = cc (e, last, get_elem?-append_last log x) in
        rw (last ∙ s.total, ← same)
          (get_elem?-set_self q.buffer (slot_of q q.tail_index) (some x)
            (slot-lt q q.tail_index s.valid))
  ]

  pub sent-Stores :
      (m : Mode) (s : Stores m log q) (x : T)
      → is_full q ≡ false
      → q.tail_index + 1 < usize_max
      → Stores m (log ++ (x ∷ [])) (sent q x)
  sent-Stores m s x room small =
      let size = length-set q.buffer (slot_of q q.tail_index) (some x) in
      record {
        valid = sent-IsValid q s.valid x room small;
        total = omega (arith, length-append log (x ∷ []), s.total);
        kept = λ i y e near k. rw size (sent-Kept m s x i y e (rw size at near) k);
        blank = λ i le lt.
            let lt' : i < length q.buffer = rw size at lt in
            get_elem?-set_ne q.buffer (slot_of q q.tail_index) i (some x) (λ p.
              omega (arith, mod-eq_of_lt {n = q.tail_index} {m = length q.buffer} (omega arith)))
            ∙ s.blank i (omega arith) lt';
        unobserved = s.unobserved;
      }

  -- The head's value is in its slot.
  pub head-Ready :
      (m : Mode) (s : Stores m log q) (h : ℕ) (x : T)
      → (h ≤ q.tail_index) × (q.tail_index < h + length q.buffer)
      → get_elem? log h ≡ some x
      → Kept m q.n_receivers q.head_index h
      → Ready q h x
  head-Ready m s h x f e k = record {
    behind = omega (arith, get_elem?-lt log h x e, s.total);
    near = f.1;
    cell = s.kept h x e (omega (arith, f.1)) k;
  }

  pub taken-Stores :
      (s : Stores moving log q)
      → 0 < q.n_receivers
      → q.head_index < q.tail_index
      → Stores moving log (taken q)
  taken-Stores s here behind =
      let size = length-set q.buffer (slot_of q q.head_index) none in
      record {
        valid = taken-IsValid q s.valid here behind;
        total = s.total;
        kept = λ i x e near k. rw size (
            get_elem?-set_ne q.buffer (slot_of q q.head_index) (slot_of q i) none (λ p. omega (
              arith,
              k.1,
              mod-injective (length q.buffer) q.head_index i (omega (arith, k.1))
                  (omega (arith, get_elem?-lt log i x e, s.total, (s.valid.receiver here).1))
                  (sym p),
            ))
            ∙ s.kept i x e (rw size at near) (here, omega (arith, k.1)));
        blank = λ i le lt.
            let lt' : i < length q.buffer = rw size at lt in
            elim (ℕ_discrete (slot_of q q.head_index) i) [
              | yes p ↦ rw p (get_elem?-set_self q.buffer i none lt')
              | no p ↦
                  get_elem?-set_ne q.buffer (slot_of q q.head_index) i none p ∙ s.blank i le lt'
            ];
        unobserved = s.unobserved;
      }

  pub cloned-Stores :
      (s : Stores cloning log q)
      → 0 < q.n_receivers
      → q.head_index < q.tail_index
      → Stores cloning log (cloned q)
  cloned-Stores s here behind = record {
    valid = cloned-IsValid q s.valid here behind;
    total = s.total;
    kept = λ i x e near k. s.kept i x e near tt;
    blank = s.blank;
    unobserved = λ e. absurd (cc);
  }

  pub observed-Stores :
      (s : Stores cloning log q) (i h : ℕ)
      → h < q.tail_index
      → q.tail_index < h + length q.buffer
      → Stores cloning log (observed q i h)
  observed-Stores s i h lt near = record {
    valid = observed-IsValid q s.valid i h lt near;
    total = s.total;
    kept = s.kept;
    blank = s.blank;
    unobserved = λ e. absurd (cc);
  }

  joined-Kept :
      (m : Mode) (i : ℕ)
      → i < q.tail_index
      → Kept m (q.n_receivers + 1) (if q.n_receivers == 0 then q.tail_index else q.head_index) i
      → Kept m q.n_receivers q.head_index i
  joined-Kept moving i lt k = elim (Bool-cases (q.n_receivers == 0)) [
    | inl e ↦ absurd (let le : q.tail_index ≤ i = rw e at k.1 in omega arith)
    | inr e ↦ (omega (arith, ==-false_ne q.n_receivers 0 e), rw e at k.1)
  ]
  joined-Kept cloning i lt k = tt

  pub joined-Stores :
      (m : Mode) (s : Stores m log q) → q.n_receivers < usize_max → Stores m log (joined q)
  joined-Stores m s small = record {
    valid = joined-IsValid q s.valid small;
    total = s.total;
    kept = λ i x e near k.
        s.kept i x e near (joined-Kept m i (omega (arith, get_elem?-lt log i x e, s.total)) k);
    blank = s.blank;
    unobserved = s.unobserved;
  }

  left-Kept :
      (m : Mode) (i : ℕ)
      → Kept m (q.n_receivers - 1) (if q.n_receivers - 1 == 0 then usize_max else q.head_index) i
      → Kept m q.n_receivers q.head_index i
  left-Kept moving i k =
      let e = ==-false (q.n_receivers - 1) 0 (λ p. omega (arith, k.0)) in
      (omega (arith, k.0), rw e at k.1)
  left-Kept cloning i k = tt

  pub left-Stores : (m : Mode) (s : Stores m log q) → Stores m log (left q)
  left-Stores m s = record {
    valid = left-IsValid q s.valid;
    total = s.total;
    kept = λ i x e near k. s.kept i x e near (left-Kept m i k);
    blank = s.blank;
    unobserved = s.unobserved;
  }

  pub allocated-Stores :
      (s : Stores cloning log q) (i : ℕ) (free : List ℕ)
      → pop q.free_strong_observer_heads ≡ some (i, free)
      → Stores cloning log (allocated q i free)
  allocated-Stores s i free e = record {
    valid = allocated-IsValid q s.valid i free e;
    total = s.total;
    kept = s.kept;
    blank = s.blank;
    unobserved = λ p. absurd (cc);
  }

  pub released-Stores :
      (s : Stores cloning log q) (i : ℕ)
      → i < length q.strong_observer_heads
      → Stores cloning log (released q i)
  released-Stores s i lt = record {
    valid = released-IsValid q s.valid i lt;
    total = s.total;
    kept = s.kept;
    blank = s.blank;
    unobserved = λ p. absurd (cc);
  }

-- A new queue with room for at least one value, and without strong observers if it is a plain one,
-- stores the empty history.
pub new_inner-Stores {ℓ} :
    (T : Type ℓ) (m : Mode) (buffer_size max_strong_observers : ℕ)
    → 0 < buffer_size
    → (m ≡ moving → max_strong_observers ≡ 0)
    → Stores m [] (new_inner T buffer_size max_strong_observers)
unfolding new_inner
new_inner-Stores T m n k pos plain = record {
  valid = new_inner-IsValid T n k pos;
  total = refl;
  kept = λ i x e near kept. absurd (cc);
  blank =
      λ i le lt. get_elem?-replicate n none i (rw (length-replicate {A = Option T} n none) at lt);
  unobserved = λ e. rw (plain e) (refl, refl);
}
