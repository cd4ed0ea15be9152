-- ===== src/Demo/Eviction/Order.antt =====
-- prefetcher_demo/src/eviction_policy.rs: which blocks the policies select, and in which order.
use orpc_prototype.Prelude.{
  times, times-cons, times-append, ℕ, zero, suc, ◌+◌, ◌<◌, ◌≡◌, refl, sym, ap, ◌∙◌, subst, inl, inr,
  arith, Bool, true, false, none, some, List, [], ◌∷◌, ◌++◌, ltb, ◌==◌, length, get_elem?, set, pop,
  Bool-cases, Option-cases, ==-false_ne, pop-some,
}
use mathlib.Core.List.{append_assoc, append-nil}
use orpc_prototype.Rpc.{Result, ok, err}
use orpc_prototype.Demo.{IoError}
use orpc_prototype.Demo.Eviction.{
  Policy, queue_room, no_block, select_oldest, swap_remove, remove_random, select_random, inserted,
  receive_one, Step, select, insert_block, receive, after_select, after_insert, step, run, known,
}

receive_one-known : (p : Policy) → known (receive_one p) ≡ known p
unfolding receive_one
receive_one-known p = go p.blocks_in_cache p.insertion_oqueue
  where
    go :
        (bs is : List ℕ)
        → known (receive_one (record { blocks_in_cache = bs; insertion_oqueue = is })) ≡ bs ++ is
    go bs [] = refl
    go bs (i ∷ is) = append_assoc bs (i ∷ []) is

select_oldest-known :
    (p : Policy)
    → (after_select (select_oldest p)).0.0 ++ known (after_select (select_oldest p)).1
      ≡ known p ++ (after_select (select_oldest p)).0.1
unfolding select_oldest after_select
select_oldest-known p = go p.blocks_in_cache p.insertion_oqueue
  where
    go :
        (bs is : List ℕ)
        → let r =
            after_select (select_oldest (record { blocks_in_cache = bs; insertion_oqueue = is })) in
          r.0.0 ++ known r.1 ≡ (bs ++ is) ++ r.0.1
    go [] is = sym (append-nil is)
    go (b ∷ bs) is = sym (append-nil _)

inserted-known :
    (attached : Bool) (p : Policy) (i : ℕ)
    → (after_insert p i (inserted attached p i)).0.0
        ++ known (after_insert p i (inserted attached p i)).1
      ≡ known p ++ (after_insert p i (inserted attached p i)).0.1
unfolding after_insert inserted
inserted-known false p i = sym (append-nil _)
inserted-known true p i = elim (Bool-cases (ltb (length p.insertion_oqueue) queue_room)) [
  | inl e ↦ rw e (sym (append_assoc p.blocks_in_cache p.insertion_oqueue (i ∷ [])))
  | inr e ↦ rw e (sym (append-nil _))
]

joins :
    (a a' k'' k' c c' k : List ℕ)
    → a' ++ k'' ≡ k' ++ c'
    → a ++ k' ≡ k ++ c
    → (a ++ a') ++ k'' ≡ k ++ (c ++ c')
joins a a' k'' k' c c' k later here =
    append_assoc a a' k''
    ∙ ap (λ z. a ++ z) later
    ∙ sym (append_assoc a k' c')
    ∙ ap (λ z. z ++ c') here
    ∙ append_assoc k c c'

-- A step takes its victim from the front of what is known, and adds to the back what it accepts.
step-order :
    (attached : Bool) (p : Policy) (s : Step)
    → (step select_oldest attached p s).0.0 ++ known (step select_oldest attached p s).1
      ≡ known p ++ (step select_oldest attached p s).0.1
unfolding step
step-order attached p select = select_oldest-known p
step-order attached p (insert_block i) = inserted-known attached p i
step-order attached p receive = receive_one-known p ∙ sym (append-nil (known p))

-- `LeastRecentlyUsed` selects the blocks in the order of their insertion: at any moment, the victims
-- selected so far and the blocks that it still knows of are, in order, those it knew of at the start
-- and those whose insertion was accepted since. How often a block was read has no part in it.
pub run-order :
    (attached : Bool) (p : Policy) (steps : List Step)
    → (run select_oldest attached p steps).0.0 ++ known (run select_oldest attached p steps).1
      ≡ known p ++ (run select_oldest attached p steps).0.1
unfolding run
run-order attached p [] = sym (append-nil (known p))
run-order attached p (s ∷ ss) =
    let ((a, c), p') = step select_oldest attached p s in
    let ((a', c'), p'') = run select_oldest attached p' ss in
    joins a a' (known p'') (known p') c c' (known p) (run-order attached p' ss)
      (step-order attached p s)

swap_last :
    (r : List ℕ) (last i : ℕ)
    → i < length (r ++ (last ∷ []))
    → (v : ℕ) × (get_elem? (r ++ (last ∷ [])) i ≡ some v)
      × ((x : ℕ) → times x (v ∷ set r i last) ≡ times x (r ++ (last ∷ [])))
swap_last [] last zero lt = (last, refl, λ x. refl)
swap_last [] last (suc i) lt = absurd (omega arith)
swap_last (y ∷ r) last zero lt = (
  y,
  refl,
  λ x. omega (
    arith,
    times-cons x y (last ∷ r),
    times-cons x last r,
    times-cons x y (r ++ (last ∷ [])),
    times-cons x last [],
    times-append x r (last ∷ []),
  ),
)
swap_last (y ∷ r) last (suc i) lt =
    let (v, e, f) = swap_last r last i (omega arith) in
    (
      v,
      e,
      λ x. omega (
        arith,
        f x,
        times-cons x v (set r i last),
        times-cons x v (y ∷ set r i last),
        times-cons x y (set r i last),
        times-cons x y (r ++ (last ∷ [])),
      ),
    )

pop-none : (l : List ℕ) → pop l ≡ none → length l ≡ 0
pop-none [] e = refl
pop-none (x ∷ []) e = cc
pop-none (x ∷ y ∷ ys) e = elim (Option-cases (pop (y ∷ ys))) [
  | inl f ↦ absurd (omega (arith, pop-none (y ∷ ys) f))
  | inr (a, f) ↦ absurd (let g = rw f at e in cc)
]

-- `swap_remove` takes the element at the index and keeps all others.
pub swap_remove_lem :
    (l : List ℕ) (i : ℕ)
    → i < length l
    → (v : ℕ) × (r : List ℕ) × (swap_remove l i ≡ some (v, r))
      × (get_elem? l i ≡ some v)
      × ((x : ℕ) → times x (v ∷ r) ≡ times x l)
unfolding swap_remove
swap_remove_lem l i lt = elim (Option-cases (pop l)) [
  | inl e ↦ absurd (omega (arith, pop-none l e))
  | inr ((last, r), e) ↦
      let whole = pop-some l r last e in
      let (v, at, same) = swap_last r last i (subst (λ (l : List ℕ). i < length l) whole lt) in
      let at' : get_elem? l i ≡ some v =
        subst (λ (l : List ℕ). get_elem? l i ≡ some v) (sym whole) at in
      (
        v,
        set r i last,
        rw (at', swap_remove, e),
        at',
        λ x. subst (λ (l : List ℕ). times x (v ∷ set r i last) ≡ times x l) (sym whole) (same x),
      )
]

module _ (random_range : ℕ → ℕ) (in_range : (n : ℕ) → 0 < n → random_range n < n) where
  Balanced : Policy → ℕ → Result ℕ IoError × Policy → Type 0
  Balanced p x r =
      times x (after_select r).0.0 + times x (known (after_select r).1)
      ≡ times x (known p) + times x (after_select r).0.1

  select_random-times : (p : Policy) (x : ℕ) → Balanced p x (select_random random_range p)
  unfolding Balanced select_random remove_random after_select
  select_random-times p x = elim (Bool-cases (length p.blocks_in_cache == 0)) [
    | inl e ↦ subst (λ r. Balanced p x r) (sym (none_left e)) (omega arith)
    | inr e ↦
        let some_block = ==-false_ne (length p.blocks_in_cache) 0 e in
        let i : ℕ = random_range (length p.blocks_in_cache) in
        let (v, r, taken, at, same) =
          swap_remove_lem p.blocks_in_cache i (in_range (length p.blocks_in_cache) (omega arith)) in
        subst (λ r. Balanced p x r) (sym (one_left v r e taken))
          (omega (
            arith,
            same x,
            times-cons x v [],
            times-cons x v r,
            times-append x r p.insertion_oqueue,
            times-append x p.blocks_in_cache p.insertion_oqueue,
          ))
  ]
    where
      none_left :
          (length p.blocks_in_cache == 0) ≡ true → select_random random_range p ≡ (err no_block, p)
      none_left e = rw (e, select_random, remove_random)

      one_left :
          (v : ℕ) (r : List ℕ)
          → (length p.blocks_in_cache == 0) ≡ false
          → swap_remove p.blocks_in_cache (random_range (length p.blocks_in_cache)) ≡ some (v, r)
          → select_random random_range p ≡ (ok v, record p { blocks_in_cache = r })
      one_left v r e taken = rw (e, taken, select_random, remove_random)

  step-times :
      (attached : Bool) (p : Policy) (s : Step) (x : ℕ)
      → times x (step (select_random random_range) attached p s).0.0
          + times x (known (step (select_random random_range) attached p s).1)
        ≡ times x (known p) + times x (step (select_random random_range) attached p s).0.1
  unfolding step Balanced
  step-times attached p select x = select_random-times p x
  step-times attached p (insert_block i) x =
      let (out, p') = after_insert p i (inserted attached p i) in
      sym (times-append x out.0 (known p'))
      ∙ ap (λ l. times x l) (inserted-known attached p i)
      ∙ times-append x (known p) out.1
  step-times attached p receive x = rw (receive_one-known p) (omega arith)

  -- `Random` selects only blocks whose insertion was accepted, each at most as often as it was, for
  -- all random numbers within their range: for every block, the victims selected so far and the
  -- blocks still known are as many as those known at the start and those whose insertion was
  -- accepted since.
  pub run-times :
      (attached : Bool) (p : Policy) (steps : List Step) (x : ℕ)
      → times x (run (select_random random_range) attached p steps).0.0
          + times x (known (run (select_random random_range) attached p steps).1)
        ≡ times x (known p) + times x (run (select_random random_range) attached p steps).0.1
  unfolding run
  run-times attached p [] x = omega arith
  run-times attached p (s ∷ ss) x =
      let ((a, c), p') = step (select_random random_range) attached p s in
      let ((a', c'), p'') = run (select_random random_range) attached p' ss in
      omega (
        arith,
        run-times attached p' ss x,
        step-times attached p s x,
        times-append x a a',
        times-append x c c',
      )
