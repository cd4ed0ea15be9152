-- ===== src/Demo/Prefetch/Tests.antt =====
-- Rounds of the prefetchers, and uses of their theorems.
use orpc_prototype.Prelude.{
  ℕ, zero, suc, ◌%◌, ◌≤◌, ◌<◌, ◌≡◌, refl, subst, arith, none, some, [], ◌∷◌, panic, usize_max,
  get_elem?,
}
use orpc_prototype.Prelude.{sub_overflow}
use orpc_prototype.Locking.History.{cloning, Stores}
use orpc_prototype.Locking.{LockingTableInner}
use orpc_prototype.Demo.Prefetch.{stride_round, stride_round_lem}

-- An observable queue of four slots after three reads, the second of a lower number than the first.
abbrev reads : LockingTableInner ℕ
reads = record {
  buffer = some 9 ∷ some 7 ∷ some 30 ∷ none ∷ [];
  n_receivers = 0;
  head_index = usize_max;
  tail_index = 3;
  strong_observer_heads = 3 ∷ [];
  free_strong_observer_heads = [];
}

reads-kept :
    (i x : ℕ)
    → get_elem? (9 ∷ 7 ∷ 30 ∷ []) i ≡ some x
    → get_elem? reads.buffer (i % 4) ≡ some (some x)
reads-kept zero x e = cc
reads-kept (suc zero) x e = cc
reads-kept (suc (suc zero)) x e = cc
reads-kept (suc (suc (suc i))) x e = absurd (cc)

reads-blank : (i : ℕ) → 3 ≤ i → i < 4 → get_elem? reads.buffer i ≡ some none
reads-blank i le lt =
    let p : 3 ≡ i = omega arith in subst (λ (k : ℕ). get_elem? reads.buffer k ≡ some none) p refl

reads-Stores : Stores cloning (9 ∷ 7 ∷ 30 ∷ []) reads
reads-Stores = record {
  valid = record {
    capacity = omega arith;
    bounded = omega arith;
    counted = omega arith;
    receiver = λ h. absurd (omega arith);
    detached = λ e. refl;
    observers = ((λ n. omega arith), tt);
    free_slots = tt;
  };
  total = refl;
  kept = λ i x e near k. reads-kept i x e;
  blank = reads-blank;
  unobserved = λ e. absurd (cc);
}

stride_round_lem_example : stride_round reads 0 30 ≡ panic sub_overflow
stride_round_lem_example =
    stride_round_lem (9 ∷ 7 ∷ 30 ∷ []) reads 0 30 9 7 reads-Stores (omega arith) (omega arith) refl
      refl (omega arith)
