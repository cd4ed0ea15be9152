-- ===== src/Locking/Observers.antt =====
-- Strong observers: each call through a handle, and the slots of the handles, do on the ring what
-- the specification says.
use orpc_prototype.Prelude.{
  ℕ, ◌+◌, ◌≤◌, ◌<◌, ◌≡◌, ◌≢◌, refl, sym, ap, ◌∙◌, subst, inl, inr, arith, none, some, List,
  usize_max, ◌==◌, length, get_elem?, pop, All-get, Bool-cases, Option-cases, ==-false_ne, ==-false,
  get_elem?-lt, All-pop, map-set, get_elem?-map-some, dec_lt,
}
use orpc_prototype.Locking.{LockingTableInner}
use orpc_prototype.Locking.Invariant.{Follows, IsValid}
use orpc_prototype.Locking.Effects
use orpc_prototype.Locking.Effects.{
  sent, taken, cloned, observed, joined, left, allocated, released, Ready,
}
use orpc_prototype.Locking.History.{
  Mode, moving, cloning, Stores, head-Ready, observed-Stores, allocated-Stores, released-Stores,
}
use orpc_prototype.Locking.Spec
use orpc_prototype.Locking.Calls.{step, position, view, Refines}
use orpc_prototype.Locking.Spec.{Spec, Op, Reply, Permitted}
use orpc_prototype.Locking.Receivers.{logged, beyond}

pub position-some : (h : ℕ) → h < usize_max → position h ≡ some h
position-some h lt = rw (==-false h usize_max (λ e. omega arith))

position_inv : (h c : ℕ) → position h ≡ some c → (h ≡ c) × (h ≢ usize_max)
position_inv h c e = elim (Bool-cases (h == usize_max)) [
  | inl p ↦ absurd (let no_position : none ≡ some c = rw p at e in cc)
  | inr p ↦ (let same : some h ≡ some c = rw p at e in cc, ==-false_ne h usize_max p)
]

module _ {ℓ} {T : Type ℓ} (log : List T) (q : LockingTableInner T) where
  -- The head of an observer that a handle names.
  pub record Owned (i c : ℕ) : Type 0 where
    pub head : get_elem? q.strong_observer_heads i ≡ some c
    pub behind : (c ≤ q.tail_index) × (q.tail_index < c + length q.buffer)
    pub slot : i < length q.strong_observer_heads

  pub owned : IsValid q → (i c : ℕ) → get_elem? (view log q).observers i ≡ some (some c) → Owned i c
  owned v i c e =
      let (h, at, p) = get_elem?-map-some position q.strong_observer_heads i (some c) e in
      let (same, used) = position_inv h c p in
      let at' : get_elem? q.strong_observer_heads i ≡ some c = rw same at at in
      record {
        head = at';
        behind =
            All-get (Follows q.tail_index (length q.buffer)) q.strong_observer_heads i c v.observers
              at' (λ n. used (same ∙ n));
        slot = get_elem?-lt q.strong_observer_heads i c at';
      }

  -- Only the observable queue has observers.
  cloning_only : (m : Mode) → Stores m log q → (i c : ℕ) → Owned i c → m ≡ cloning
  cloning_only moving s i c o = absurd (
      let none_there : 0 ≡ length q.strong_observer_heads = ap length (sym (s.unobserved refl).0) in
      omega (arith, o.slot))
  cloning_only cloning s i c o = refl

  observe_cloning :
      Stores cloning log q
      → (i c : ℕ) → get_elem? (view log q).observers i ≡ some (some c)
      → Owned i c
      → Refines cloning q (Op.observe i) (Spec.step (length q.buffer) (view log q) (Op.observe i))
  unfolding Spec.step step
  observe_cloning s i c e o = elim (dec_lt c q.tail_index) [
    | yes lt ↦
        let (x, logged_here) = logged log q cloning s c lt in
        let r : Ready q c x = head-Ready log q cloning s c x o.behind logged_here tt in
        rw (e, logged_here, Spec.observe_value)
          (
            observed q i c,
            rw (Effects.try_strong_observe-some q i c x s.valid o.head r),
            rw (
              map-set position q.strong_observer_heads i (c + 1),
              position-some (c + 1) (omega (arith, s.valid.bounded)),
            ),
            observed-Stores log q s i c lt o.behind.1,
            refl,
          )
    | no ge ↦
        let at : c ≡ q.tail_index = omega (arith, o.behind.0) in
        rw (e, beyond log q cloning s c at, Spec.observe_value)
          (q, rw (Effects.try_strong_observe-empty q i c s.valid o.head at), refl, s, refl)
  ]

  pub observe-Refines :
      (m : Mode)
      → Stores m log q
      → (i c : ℕ) → get_elem? (view log q).observers i ≡ some (some c)
      → Refines m q (Op.observe i) (Spec.step (length q.buffer) (view log q) (Op.observe i))
  observe-Refines m s i c e =
      let o = owned s.valid i c e in
      let only = cloning_only m s i c o in rw only (observe_cloning (rw only at s) i c e o)

  release_cloning :
      Stores cloning log q
      → (i c : ℕ) → Owned i c
      → Refines cloning q
          (Op.drop_observer i)
          (Spec.step (length q.buffer) (view log q) (Op.drop_observer i))
  unfolding Spec.step step
  release_cloning s i c o = (
    released q i,
    rw (Effects.release_observer-done q i o.slot),
    rw (map-set position q.strong_observer_heads i usize_max),
    released-Stores log q s i o.slot,
    refl,
  )

  pub release-Refines :
      (m : Mode)
      → Stores m log q
      → (i c : ℕ) → get_elem? (view log q).observers i ≡ some (some c)
      → Refines m q
          (Op.drop_observer i)
          (Spec.step (length q.buffer) (view log q) (Op.drop_observer i))
  release-Refines m s i c e =
      let o = owned s.valid i c e in
      let only = cloning_only m s i c o in rw only (release_cloning (rw only at s) i c o)

  -- The plain queue refuses, and its specification has no slot to give.
  pub allocate-Refines :
      (m : Mode)
      → Stores m log q
      → Refines m q Op.attach_observer (Spec.step (length q.buffer) (view log q) Op.attach_observer)
  unfolding Spec.step step
  allocate-Refines moving s =
      subst (λ free. Refines moving q Op.attach_observer (Spec.allocate (view log q) (pop free)))
        (sym (s.unobserved refl).1) (q, refl, refl, s, refl)
  allocate-Refines cloning s = elim (Option-cases (pop q.free_strong_observer_heads)) [
    | inl e ↦ rw (e, Spec.allocate) (q, rw (Effects.allocate_observer-none q e), refl, s, refl)
    | inr ((i, rest), e) ↦
        let lt =
          (All-pop (λ k. k < length q.strong_observer_heads) q.free_strong_observer_heads rest i
            s.valid.free_slots e).0 in
        rw (e, Spec.allocate)
          (
            allocated q i rest,
            rw (Effects.allocate_observer-some q i rest lt e),
            rw (
              map-set position q.strong_observer_heads i q.tail_index,
              position-some q.tail_index s.valid.bounded,
              s.total,
            ),
            allocated-Stores log q s i rest e,
            refl,
          )
  ]
