-- ===== src/Demo/Prefetch.antt =====
-- prefetcher_demo/src/prefetch_policy.rs: what one round of each prefetcher's loop sends, from the
-- block it observed and the history it looked up. Overflow of `usize` is checked.
mod Tests
use orpc_prototype.Prelude.{
  checked_mul, ◌/◌, sub_overflow, ℕ, zero, suc, ◌+◌, ◌-◌, ◌*◌, ◌≤◌, ◌<◌, ◌≡◌, arith, true, false,
  inl, inr, Bool-cases, refl, Option, none, some, List, [], ◌∷◌, Outcome, done, panic, ◌>>=◌,
  usize_bound, ltb, leb, ◌==◌, if◌then◌else◌, length, get_elem?, drop, pop, checked_add,
  checked_sub, index, checked_add-done, lt→ltb, leb-true, leb-false, drop-cons,
}
use native.Mathlib.Nat.{mod-eq_of_lt}
use orpc_prototype.Locking.{LockingTableInner}
use orpc_prototype.Locking.History.{cloning, Stores}
use orpc_prototype.Locking.Weak.{weak_observe_recent, weak_observe_recent_lem}
use orpc_prototype.Rpc.{Result, ok, err, Unwound, returned, unwound, World, abort_point}
use orpc_prototype.Demo.{ShutdownState, ShutdownError, check_for_shutdown}

-- `NextPagePrefetcher`
pub next_page : ℕ → Outcome ℕ
next_page block_id = checked_add block_id 1

-- The stride of the last two reads, or none unless there are two.
stride_of : List ℕ → Outcome (Option ℕ)
stride_of reads =
    if length reads == 2
    then (do
      last ← index reads 1
      before ← index reads 0
      stride ← checked_sub last before
      done (some stride))
    else done none

ahead : ℕ → ℕ → Option ℕ → Outcome (Option ℕ)
ahead block_id steps none = done none
ahead block_id steps (some stride) = do
  distance ← checked_mul stride steps
  target ← checked_add block_id distance
  done (some target)

-- `StridePrefetcher`: what it sends after it observed `block_id`.
pub stride : ℕ → List ℕ → Outcome (Option ℕ)
unfolding stride_of ahead
stride block_id reads = do
  s ← stride_of reads
  elim s [ none ↦ done none | some d ↦ do target ← checked_add block_id d; done (some target) ]

-- The round of `StridePrefetcher` after `strong_observe` returned `block_id`: `q` is the observed
-- queue, and `seen` the `max_observed_tail` of the weak observer.
pub stride_round : LockingTableInner ℕ → ℕ → ℕ → Outcome (Option ℕ)
unfolding stride
stride_round q seen block_id = do reads ← weak_observe_recent q seen 2; stride block_id reads.0

-- `((255 - system_load) / 64).max(1)`
pub steps_of : ℕ → Outcome ℕ
steps_of system_load = do
  idle ← checked_sub 255 system_load
  done (if ltb (idle / 64) 1 then 1 else idle / 64)

-- `pop().unwrap_or_default()`
abbrev pub last_or_default : List ℕ → ℕ
last_or_default loads = elim (pop loads) [ none ↦ 0 | some (x, rest) ↦ x ]

-- `StrideLoadAwarePrefetcher`; the load is a `u8`.
pub stride_load_aware : ℕ → List ℕ → List ℕ → Outcome (Option ℕ)
unfolding stride_of ahead steps_of
stride_load_aware block_id reads loads =
    if length reads == 2
    then (do steps ← steps_of (last_or_default loads); s ← stride_of reads; ahead block_id steps s)
    else done none

-- How a round ends on thread `t`: it goes on, returns the error of `check_for_shutdown`, or unwinds.
pub end_round : World → ℕ → ShutdownState → Unwound (Result (Unit {0}) ShutdownError)
unfolding abort_point check_for_shutdown
end_round w t s = elim (abort_point w t) [
  | unwound p ↦ unwound p
  | returned u ↦ returned (check_for_shutdown s)
]

-- For loads up to 255 the prefetcher looks one to three strides ahead, and never farther for a
-- higher load.
pub steps_of-bounds :
    (load higher : ℕ)
    → load ≤ higher
    → higher ≤ 255
    → (n : ℕ) × (m : ℕ) × (steps_of load ≡ done n)
      × (steps_of higher ≡ done m)
      × (1 ≤ m)
      × (m ≤ n)
      × (n ≤ 3)
unfolding steps_of
steps_of-bounds load higher le top = (
  strides load,
  strides higher,
  rw (leb-true load 255 (omega arith)),
  rw (leb-true higher 255 top),
  ground arith,
  ground arith,
  ground arith,
)
  where
    strides : ℕ → ℕ
    strides l = if ltb ((255 - l) / 64) 1 then 1 else (255 - l) / 64

-- On two reads of which the second has not the lower number, both stride prefetchers send the block
-- at the stride, the load-aware one as many strides ahead as the load allows, provided that no
-- number overflows.
pub stride_lem :
    (block_id first second : ℕ) (loads : List ℕ) (n : ℕ)
    → first ≤ second
    → steps_of (last_or_default loads) ≡ done n
    → block_id + (second - first) * n < usize_bound
    → (second - first) * n < usize_bound
    → block_id + (second - first) < usize_bound
    → (stride block_id (first ∷ second ∷ []) ≡ done (some (block_id + (second - first))))
      × (stride_load_aware block_id (first ∷ second ∷ []) loads
          ≡ done (some (block_id + (second - first) * n)))
unfolding stride stride_load_aware stride_of ahead
stride_lem block_id first second loads n le steps fits₁ fits₂ fits₃ = (
  rw (leb-true first second le, checked_add-done block_id (second - first) fits₃),
  rw (
    steps,
    leb-true first second le,
    lt→ltb ((second - first) * n) usize_bound fits₂,
    checked_add-done block_id ((second - first) * n) fits₁,
  ),
)

-- When an observable queue of more than two slots has had more than two reads, the round of
-- `StridePrefetcher` goes by the third and the second from last: it panics if the second from last has
-- the lower number, and sends the block at their stride otherwise, provided that no number overflows;
-- the last read has no part in it.
pub stride_round_lem :
    (log : List ℕ) (q : LockingTableInner ℕ) (seen block_id first second : ℕ)
    → Stores cloning log q
    → 2 < q.tail_index
    → 2 < length q.buffer
    → get_elem? log (q.tail_index - 3) ≡ some first
    → get_elem? log (q.tail_index - 2) ≡ some second
    → block_id + (second - first) < usize_bound
    → stride_round q seen block_id
      ≡ (if leb first second then done (some (block_id + (second - first))) else panic sub_overflow)
unfolding stride_round stride stride_of
stride_round_lem log q seen block_id first second s many wide e f fits =
    let (seen', looks) = weak_observe_recent_lem log q s seen 2 many wide in
    let i : q.tail_index - 1 - 2 ≡ q.tail_index - 3 = omega arith in
    let j : q.tail_index - 3 + 1 ≡ q.tail_index - 2 = omega arith in
    let kept = drop-cons log (q.tail_index - 3) first e in
    let last = drop-cons log (q.tail_index - 2) second f in
    elim (Bool-cases (leb first second)) [
      | inl le ↦
          rw (looks, i, kept, j, last, le, checked_add-done block_id (second - first) fits) refl
      | inr lt ↦ rw (looks, i, kept, j, last, lt) refl
    ]
