-- ===== src/Registry.antt =====
-- orpc/src/oqueue/registry.rs: the global map of queues by name and by the type of their values.
-- Names are of any type with a Boolean equality, type ids and queues are numbers.
mod Tests
use orpc_prototype.Prelude.{
  ℕ, ◌≡◌, refl, sym, ap, ◌∙◌, inl, inr, Bool, true, false, ◌&&◌, Option, none, some, List, [], ◌∷◌,
  ◌==◌, if◌then◌else◌, Bool-cases, ==_iff, ==-refl, subst,
}

-- `Box<dyn Any>` around an `OQueueRef<T>`
pub record Stored : Type 0 where
  pub type_id : ℕ
  pub queue : ℕ

-- `downcast_ref` to the type with the id
abbrev pub downcast_ref : ℕ → Stored → Option ℕ
downcast_ref type_id v = if v.type_id == type_id then some v.queue else none

downcast_ref-same :
    (i j v : ℕ) → (i == j) ≡ true → downcast_ref j (record { type_id = i; queue = v }) ≡ some v
downcast_ref-same i j v e = rw e

and-true : (a b : Bool) → (a && b) ≡ true → (a ≡ true) × (b ≡ true)
and-true true b e = (refl, e)
and-true false b e = absurd (cc)

module _ {ℓ} {Name : Type ℓ} (same : Name → Name → Bool) where
  -- The map of the registry: of two entries with the same key the first counts.
  abbrev pub Registry : Type ℓ
  Registry = List ((Name × ℕ) × Stored)

  abbrev same_key : Name × ℕ → Name × ℕ → Bool
  same_key (n, i) (m, j) = same n m && i == j

  get_entry : Registry → Name × ℕ → Option Stored
  get_entry [] key = none
  get_entry ((k, v) ∷ entries) key = if same_key k key then some v else get_entry entries key

  remove_entry : Registry → Name × ℕ → Registry
  remove_entry [] key = []
  remove_entry ((k, v) ∷ entries) key =
      let rest = remove_entry entries key in if same_key k key then rest else (k, v) ∷ rest

  pub register : Registry → Name → ℕ → ℕ → Registry
  unfolding remove_entry
  register entries name type_id v =
      ((name, type_id), record { type_id = type_id; queue = v })
      ∷ remove_entry entries (name, type_id)

  pub lookup : Registry → Name → ℕ → Option ℕ
  unfolding get_entry
  lookup entries name type_id = elim (get_entry entries (name, type_id)) [
    | none ↦ none
    | some v ↦ downcast_ref type_id v
  ]

  module _ (reflexive : (n : Name) → same n n ≡ true)
      (sound : (n m : Name) → same n m ≡ true → n ≡ m) where
    same_key_refl : (k : Name × ℕ) → same_key k k ≡ true
    same_key_refl (n, i) = rw (reflexive n, ==-refl i)

    same_key_sound : (k l : Name × ℕ) → same_key k l ≡ true → k ≡ l
    same_key_sound (n, i) (m, j) e =
        let (a, b) = and-true (same n m) (i == j) e in
        ap (λ (x : Name). (x, i)) (sound n m a) ∙ ap (λ (y : ℕ). (m, y)) ((==_iff i j).0 b)

    get_entry-remove_entry :
        (entries : Registry) (key other : Name × ℕ)
        → same_key key other ≡ false
        → get_entry (remove_entry entries key) other ≡ get_entry entries other
    unfolding get_entry remove_entry
    get_entry-remove_entry [] key other e = refl
    get_entry-remove_entry ((k, v) ∷ entries) key other e = elim (Bool-cases (same_key k key)) [
      | inl f ↦
          let g =
            subst (λ (x : Name × ℕ). same_key x other ≡ false) (sym (same_key_sound k key f)) e in
          rw (f, g) (get_entry-remove_entry entries key other e)
      | inr f ↦ rw f (elim (Bool-cases (same_key k other)) [
        | inl a ↦ rw a
        | inr a ↦ rw a (get_entry-remove_entry entries key other e)
      ])
    ]

    -- If the equality of names is correct, a lookup returns the queue registered last under the name and
    -- the type, and what is registered under another name, or for another type, is as before.
    pub lookup-register :
        (entries : Registry) (name other : Name) (type_id other_id v : ℕ)
        → lookup (register entries name type_id v) other other_id ≡ (
            if same name other && type_id == other_id
            then some v
            else lookup entries other other_id)
    unfolding lookup register get_entry
    lookup-register entries name other type_id other_id v =
        elim (Bool-cases (same_key (name, type_id) (other, other_id))) [
          | inl e ↦
              let (a, b) = and-true (same name other) (type_id == other_id) e in
              rw (a, b, lookup) (downcast_ref-same type_id other_id v b)
          | inr e ↦ rw (
            e,
            register,
            lookup,
            get_entry-remove_entry entries (name, type_id) (other, other_id) e,
          )
        ]
