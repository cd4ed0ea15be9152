-- ===== src/Prelude/Maps.antt =====
-- `HashMap` with keys in ℕ, as a list of entries of which no two have the same key, and how often a
-- number occurs in a list.
use Prim.Native.Nat.{ℕ, ◌+◌, ◌≤◌}
use mathlib.Core.Path.{◌≡◌, refl}
use mathlib.Core.Logic.{◌≢◌}
use mathlib.Core.Bool.{Bool, true, false, ◌||◌}
use mathlib.Core.List.{List, [], ◌∷◌, ◌++◌}
use mathlib.Core.Option.{Option, none, some}
use mathlib.Core.Logic.{inl, inr}
use native.Mathlib.Omega.{arith}
use native.Mathlib.Decide.{ℕ_discrete}
use orpc_prototype.Prelude.Lists.{length}
use orpc_prototype.Prelude.Every.{or-false}
use orpc_prototype.Prelude.Tests.{◌==◌, if◌then◌else◌, ==-refl, ==-false, Bool-cases}

-- How often a number occurs.
abbrev pub times : ℕ → List ℕ → ℕ
times w [] = 0
times w (v ∷ l) = if v == w then 1 + times w l else times w l

pub times-append : (w : ℕ) (l m : List ℕ) → times w (l ++ m) ≡ times w l + times w m
times-append w [] m = omega arith
times-append w (v ∷ l) m = elim (Bool-cases (v == w)) [
  | inl e ↦ rw e (omega (arith, times-append w l m))
  | inr e ↦ rw e (times-append w l m)
]

pub times-cons : (w v : ℕ) (l : List ℕ) → times w (v ∷ l) ≡ (if v == w then 1 else 0) + times w l
times-cons w v l = elim (Bool-cases (v == w)) [ inl e ↦ rw e | inr e ↦ rw e (omega arith) ]

abbrev pub Map {ℓ} : Type ℓ → Type ℓ
Map V = List (ℕ × V)

module _ {ℓ} {V : Type ℓ} where
  abbrev pub get : Map V → ℕ → Option V
  get [] k = none
  get ((i, v) ∷ m) k = if i == k then some v else get m k

  abbrev pub contains_key : Map V → ℕ → Bool
  contains_key [] k = false
  contains_key ((i, v) ∷ m) k = i == k || contains_key m k

  abbrev pub remove : Map V → ℕ → Map V
  remove [] k = []
  remove ((i, v) ∷ m) k = if i == k then remove m k else (i, v) ∷ remove m k

  abbrev pub insert : Map V → ℕ → V → Map V
  insert m k v = (k, v) ∷ remove m k

  pub length-remove : (m : Map V) (k : ℕ) → length (remove m k) ≤ length m
  length-remove [] k = omega arith
  length-remove ((i, v) ∷ m) k = elim (Bool-cases (i == k)) [
    | inl e ↦ rw e (omega (arith, length-remove m k))
    | inr e ↦ rw e (omega (arith, length-remove m k))
  ]

  pub get-remove_self : (m : Map V) (k : ℕ) → get (remove m k) k ≡ none
  get-remove_self [] k = refl
  get-remove_self ((i, v) ∷ m) k = elim (Bool-cases (i == k)) [
    | inl e ↦ rw e (get-remove_self m k)
    | inr e ↦ rw (e, e) (get-remove_self m k)
  ]

  pub get-remove_other : (m : Map V) (j k : ℕ) → j ≢ k → get (remove m j) k ≡ get m k
  get-remove_other [] j k n = refl
  get-remove_other ((i, v) ∷ m) j k n = elim (ℕ_discrete i j) [
    | yes p ↦ rw (p, ==-refl j, ==-false j k n) (get-remove_other m j k n)
    | no q ↦ rw (==-false i j q, get-remove_other m j k n)
  ]

  pub get-insert_self : (m : Map V) (k : ℕ) (v : V) → get (insert m k v) k ≡ some v
  get-insert_self m k v = rw (==-refl k)

  pub get-insert_other : (m : Map V) (j k : ℕ) (v : V) → j ≢ k → get (insert m j v) k ≡ get m k
  get-insert_other m j k v n = rw (==-false j k n) (get-remove_other m j k n)

  -- A key that is not there.
  pub remove-absent : (m : Map V) (k : ℕ) → contains_key m k ≡ false → remove m k ≡ m
  remove-absent [] k e = refl
  remove-absent ((i, v) ∷ m) k e =
      let (here, there) = or-false (i == k) (contains_key m k) e in
      rw (here, remove-absent m k there)

  pub get-absent : (m : Map V) (k : ℕ) → get m k ≡ none → contains_key m k ≡ false
  get-absent [] k e = refl
  get-absent ((i, v) ∷ m) k e = elim (Bool-cases (i == k)) [
    | inl f ↦ absurd (let g : some v ≡ none = rw f at e in cc)
    | inr f ↦ rw f (get-absent m k (rw f at e))
  ]

  pub get-present : (m : Map V) (k : ℕ) (v : V) → get m k ≡ some v → contains_key m k ≡ true
  get-present [] k v e = absurd (cc)
  get-present ((i, u) ∷ m) k v e = elim (Bool-cases (i == k)) [
    | inl f ↦ rw f
    | inr f ↦ rw f (get-present m k v (rw f at e))
  ]
