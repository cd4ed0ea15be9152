-- ===== src/Prelude/Keys.antt =====
-- Names: members of a list, lists without repetition, and fields looked up by name.
use Prim.Native.String.{String}
use mathlib.Core.Path.{◌≡◌, refl, sym, subst}
use mathlib.Core.Logic.{◌≢◌, inl, inr}
use mathlib.Core.Bool.{Bool, true, false}
use mathlib.Core.Option.{Option, none, some}
use mathlib.Core.List.{List, [], ◌∷◌, map}
use mathlib.Core.List
use text.Mathlib.Text
use text.Mathlib.TextEquality.{eq_iff}
use orpc_prototype.Prelude.Lists.{All}
use orpc_prototype.Prelude.Tests.{if◌then◌else◌, Bool-cases}

abbrev pub str_eq : String → String → Bool
str_eq s t = Text.◌==◌ s t

pub str_eq-true : (s t : String) → str_eq s t ≡ true → s ≡ t
str_eq-true s t e = (eq_iff s t).0 e

pub str_eq_refl : (s : String) → str_eq s s ≡ true
str_eq_refl s = (eq_iff s s).1 refl

pub str_eq-false : (s t : String) → s ≢ t → str_eq s t ≡ false
str_eq-false s t n = elim (Bool-cases (str_eq s t)) [
  | inl e ↦ absurd (n (str_eq-true s t e))
  | inr e ↦ e
]

module _ {ℓ} {A : Type ℓ} where
  -- The element stands in the list.
  pub data In (x : A) : List A → Type ℓ where
    here : {y : A} {ys : List A} → y ≡ x → In x (y ∷ ys)
    there : {y : A} {ys : List A} → In x ys → In x (y ∷ ys)

  pub In-append_left : {x : A} {xs : List A} (ys : List A) → In x xs → In x (List.◌++◌ xs ys)
  In-append_left ys (here e) = here e
  In-append_left ys (there h) = there (In-append_left ys h)

  pub In-append_right : {x : A} (xs : List A) {ys : List A} → In x ys → In x (List.◌++◌ xs ys)
  In-append_right [] h = h
  In-append_right (y ∷ xs) h = there (In-append_right xs h)

  pub All-In {κ} : (P : A → Type κ) {x : A} {xs : List A} → All P xs → In x xs → P x
  All-In P a (here e) = subst P e a.0
  All-In P a (there h) = All-In P a.1 h

pub In-map {ℓ κ} :
    {A : Type ℓ} {B : Type κ} (f : A → B) {x : A} {xs : List A} → In x xs → In (f x) (map f xs)
In-map f (here e) = here (rw e)
In-map f (there h) = there (In-map f h)

-- No name stands twice.
abbrev pub DistinctNames : List String → Type 0
DistinctNames [] = Unit
DistinctNames (x ∷ xs) = All (λ y. y ≢ x) xs × DistinctNames xs

module _ {ℓ} {V : Type ℓ} where
  abbrev pub field_of : List (String × V) → String → Option V
  field_of [] k = none
  field_of ((i, v) ∷ m) k = if str_eq i k then some v else field_of m k

  abbrev pub names : List (String × V) → List String
  names m = map (λ (e : String × V). e.0) m

  -- Of distinct names each one is found.
  pub field_of-In :
      (m : List (String × V)) (k : String) (v : V)
      → DistinctNames (names m)
      → In (k, v) m
      → field_of m k ≡ some v
  field_of-In [] k v d h = elim h [ ]
  field_of-In ((i, u) ∷ m) k v d (here e) =
      subst (λ (x : String × V). field_of (x ∷ m) k ≡ some v) (sym e) (rw (str_eq_refl k))
  field_of-In ((i, u) ∷ m) k v d (there h) =
      rw
        (str_eq-false i k
          (λ e. All-In (λ y. y ≢ i) d.0 (In-map (λ (x : String × V). x.0) h) (sym e)))
        (field_of-In m k v d.1 h)
