-- ===== src/Prelude/Every.antt =====
-- What holds of all elements of a list.
use Prim.Native.Nat.{ℕ, zero, suc}
use mathlib.Core.Path.{◌≡◌, refl, subst}
use mathlib.Core.Bool.{Bool, true, false, ◌||◌, ◌&&◌}
use mathlib.Core.List.{List, [], ◌∷◌, ◌++◌}
use mathlib.Core.Option.{some}
use mathlib.Core.Logic.{inl, inr}
use orpc_prototype.Prelude.Tests.{Option-cases}
use orpc_prototype.Prelude.Lists.{get_elem?, set, replicate, pop, any, All}
use native.Mathlib.Omega.{arith}

module _ {ℓ κ} {A : Type ℓ} (P : A → Type κ) where
  pub All-get : (xs : List A) (i : ℕ) (a : A) → All P xs → get_elem? xs i ≡ some a → P a
  All-get [] i a h e = cc
  All-get (x ∷ xs) zero a h e = subst P (cc) h.0
  All-get (x ∷ xs) (suc i) a h e = All-get xs i a h.1 e

  pub All-set : (xs : List A) (i : ℕ) (a : A) → All P xs → P a → All P (set xs i a)
  All-set [] i a h p = tt
  All-set (x ∷ xs) zero a h p = (p, h.1)
  All-set (x ∷ xs) (suc i) a h p = (h.0, All-set xs i a h.1 p)

  pub All-replicate : (n : ℕ) (a : A) → P a → All P (replicate n a)
  All-replicate zero a p = tt
  All-replicate (suc n) a p = (p, All-replicate n a p)

pub All-map {ℓ κ ι} :
    {A : Type ℓ} (P : A → Type κ) (Q : A → Type ι) (xs : List A)
    → ((a : A) → P a → Q a)
    → All P xs
    → All Q xs
All-map P Q [] f h = tt
All-map P Q (x ∷ xs) f h = (f x h.0, All-map P Q xs f h.1)

pub or-false : (a b : Bool) → (a || b) ≡ false → (a ≡ false) × (b ≡ false)
or-false true b e = absurd (cc)
or-false false b e = (refl, e)

pub and-false : (a b : Bool) → (a && b) ≡ false → a ≡ true → b ≡ false
and-false true b e h = e
and-false false b e h = cc

-- When no element passes the test, each element fails it.
pub any-false {ℓ} :
    {A : Type ℓ} (p : A → Bool) (xs : List A) → any p xs ≡ false → All (λ a. p a ≡ false) xs
any-false p [] e = tt
any-false p (x ∷ xs) e =
    let (here, there) = or-false (p x) (any p xs) e in (here, any-false p xs there)

pub All-zip {ℓ κ ι μ} :
    {A : Type ℓ} (P : A → Type κ) (Q : A → Type ι) (R : A → Type μ) (xs : List A)
    → ((a : A) → P a → Q a → R a)
    → All P xs
    → All Q xs
    → All R xs
All-zip P Q R [] f h k = tt
All-zip P Q R (x ∷ xs) f h k = (f x h.0 k.0, All-zip P Q R xs f h.1 k.1)

pub All-append {ℓ κ} :
    {A : Type ℓ} (P : A → Type κ) (xs ys : List A) → All P xs → All P ys → All P (xs ++ ys)
All-append P [] ys h k = k
All-append P (x ∷ xs) ys h k = (h.0, All-append P xs ys h.1 k)

-- `pop` takes the last element off.
pub pop-some {ℓ} :
    {A : Type ℓ} (xs ys : List A) (a : A) → pop xs ≡ some (a, ys) → xs ≡ ys ++ (a ∷ [])
pop-some [] ys a e = cc
pop-some (x ∷ []) ys a e = ground arith
pop-some {A} (x ∷ y ∷ zs) ys a e = elim (Option-cases (pop (y ∷ zs))) [
  | inl h ↦ absurd (ground arith)
  | inr ((b, ws), h) ↦ ground (arith, pop-some (y ∷ zs) ws b h)
]

pub All-append_inv {ℓ κ} :
    {A : Type ℓ} (P : A → Type κ) (xs ys : List A) → All P (xs ++ ys) → All P xs × All P ys
All-append_inv P [] ys h = (tt, h)
All-append_inv P (x ∷ xs) ys h = let (k, l) = All-append_inv P xs ys h.1 in ((h.0, k), l)

-- What holds of all elements holds of the one that `pop` takes off and of those it leaves.
pub All-pop {ℓ κ} :
    {A : Type ℓ} (P : A → Type κ) (xs ys : List A) (a : A)
    → All P xs
    → pop xs ≡ some (a, ys)
    → P a × All P ys
All-pop P xs ys a h e =
    let k = All-append_inv P ys (a ∷ []) (rw (pop-some xs ys a e) at h) in (k.1.0, k.0)
