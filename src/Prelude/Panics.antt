-- ===== src/Prelude/Panics.antt =====
-- Panics as values, and the arithmetic of `usize` as a debug build checks it (64 bits).
use Prim.Native.Nat.{ℕ, ◌+◌, ◌-◌, ◌*◌, ◌%◌, ◌^◌, ◌<◌}
use mathlib.Core.Path.{◌≡◌, refl}
use mathlib.Core.Logic.{◌⊎◌, inl, inr}
use mathlib.Core.List.{List}
use mathlib.Core.Option.{Option, none, some}
use native.Mathlib.Omega.{arith}
use orpc_prototype.Prelude.Tests.{ltb, leb, ◌==◌, if◌then◌else◌, lt→ltb, ==-false}
use orpc_prototype.Prelude.Lists.{length, get_elem?, set}

-- Why a thread panics.
pub data Panic : Type 0 where
  add_overflow sub_overflow mul_overflow rem_by_zero index_out_of_bounds : Panic
  expect_failed assertion_failed poisoned server_aborted : Panic

pub data Outcome {ℓ} (A : Type ℓ) : Type ℓ where
  done : A → Outcome A
  panic : Panic → Outcome A

infixl 5 ◌>>=◌
abbrev pub ◌>>=◌ {ℓ κ} : {A : Type ℓ} {B : Type κ} → Outcome A → (A → Outcome B) → Outcome B
done a >>= f = f a
panic p >>= f = panic p

-- `Option::expect` and `unwrap`.
abbrev pub expect {ℓ} : {A : Type ℓ} → Option A → Outcome A
expect none = panic expect_failed
expect (some a) = done a

abbrev pub usize_bound : ℕ
usize_bound = 2 ^ 64

-- `usize::MAX`
abbrev pub usize_max : ℕ
usize_max = 18446744073709551615

abbrev pub checked_add : ℕ → ℕ → Outcome ℕ
checked_add a b = if ltb (a + b) usize_bound then done (a + b) else panic add_overflow

abbrev pub checked_sub : ℕ → ℕ → Outcome ℕ
checked_sub a b = if leb b a then done (a - b) else panic sub_overflow

abbrev pub checked_mul : ℕ → ℕ → Outcome ℕ
checked_mul a b = if ltb (a * b) usize_bound then done (a * b) else panic mul_overflow

abbrev pub checked_rem : ℕ → ℕ → Outcome ℕ
checked_rem a b = if b == 0 then panic rem_by_zero else done (a % b)

module _ {ℓ} {A : Type ℓ} where
  -- `v[i]`
  abbrev pub index : List A → ℕ → Outcome A
  index xs i = elim (get_elem? xs i) [ none ↦ panic index_out_of_bounds | some a ↦ done a ]

  -- `v[i] = a`
  abbrev pub index_set : List A → ℕ → A → Outcome (List A)
  index_set xs i a = if ltb i (length xs) then done (set xs i a) else panic index_out_of_bounds

  pub index-done : (xs : List A) (i : ℕ) (a : A) → get_elem? xs i ≡ some a → index xs i ≡ done a
  index-done xs i a e = rw (e, index)

  pub index_set-done :
      (xs : List A) (i : ℕ) (a : A) → i < length xs → index_set xs i a ≡ done (set xs i a)
  index_set-done xs i a h = rw (lt→ltb _ _ h)

pub checked_add-done : (a b : ℕ) → a + b < usize_bound → checked_add a b ≡ done (a + b)
checked_add-done a b h = rw (lt→ltb (a + b) usize_bound h)

pub checked_rem-done : (a b : ℕ) → 0 < b → checked_rem a b ≡ done (a % b)
checked_rem-done a b h = rw (==-false b 0 (λ e. omega arith))

-- To split on a computed outcome and keep the equation.
pub Outcome-cases {ℓ} :
    {A : Type ℓ} (o : Outcome A) → ((p : Panic) × (o ≡ panic p)) ⊎ ((a : A) × (o ≡ done a))
Outcome-cases (panic p) = inl (p, refl)
Outcome-cases (done a) = inr (a, refl)
