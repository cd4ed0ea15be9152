-- ===== src/Locking/Slots.antt =====
-- Positions in a history against slots of a ring: when two positions share a slot.
use native.Mathlib.Nat.{mod-add-div, add-mod_right}
use orpc_prototype.Prelude.{
  ℕ, suc, ◌+◌, ◌*◌, ◌/◌, ◌%◌, ◌≤◌, ◌<◌, ◌≡◌, ◌≢◌, arith, dec_lt, ◌==◌, ==-refl, ==-false,
}

mul-le-mul : (n a b : ℕ) → a ≤ b → n * a ≤ n * b
mul-le-mul n a b h = grind arith

-- Within one turn of the ring a slot determines the position.
pub mod-injective : (n h t : ℕ) → h ≤ t → t < h + n → t % n ≡ h % n → t ≡ h
mod-injective n h t le lt e = elim (dec_lt (h / n) (t / n)) [
  | yes above ↦
      absurd (
        omega
          (arith, mod-add-div t n, mod-add-div h n, e, mul-le-mul n (suc (h / n)) (t / n) above))
  | no below ↦
      omega (arith, mod-add-div t n, mod-add-div h n, e, mul-le-mul n (t / n) (h / n) (omega arith))
]

-- For `h ≤ t ≤ h + n` the slots meet at the start of the turn and at its end.
pub same-slot : (n h t : ℕ) → 0 < n → h < t → t ≤ h + n → ((t % n) == (h % n)) ≡ (t == h + n)
same-slot n h t pos lt le = elim (dec_lt t (h + n)) [
  | yes p ↦ rw (==-false (t % n) (h % n) (apart p), ==-false t (h + n) (λ e. omega arith))
  | no p ↦
      let e : t ≡ h + n = omega arith in rw (e, add-mod_right, ==-refl (h % n), ==-refl (h + n))
]
  where
    apart : t < h + n → t % n ≢ h % n
    apart p e = omega (arith, mod-injective n h t (omega arith) p e)
