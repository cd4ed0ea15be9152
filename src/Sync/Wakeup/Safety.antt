-- ===== src/Sync/Wakeup/Safety.antt =====
-- In no interleaving is a wake-up lost.
use orpc_prototype.Prelude.{
  ℕ, ◌≡◌, ◌≢◌, refl, ap, inl, inr, Bool, true, Option, none, some, List, In, All-In, ==-refl,
  ℕ_discrete,
}
use orpc_prototype.Sync.{blocked, update}
use orpc_prototype.Sync.Wakeup.{
  Pc, idle, parked, System, after_operation, Step, operate, take_list, unpark_next, all_woken,
  enter, prepare_to_wait, check, finish_wait, return_ready, park, resume, Reachable, here, later,
}
use orpc_prototype.Sync.Wakeup.Invariant.{
  Waking, Awaited, Pending, Promised, Holds, Inv, Keeps, Holds-Keeps, moved, waking-other,
  notifying-other,
}
use orpc_prototype.Sync.Wakeup.Steps.{
  Inv-at, enter-Inv, prepare-Inv, check-Inv, finish-Inv, return-Inv, park-Inv, resume-Inv,
}
use orpc_prototype.Sync.Wakeup.Wakes.{Keeps-from, take-Inv, woken-Inv, unpark-Inv}

some_decide : (o : Option ℕ) (i : ℕ) → Dec (o ≡ some i)
some_decide none i = no (λ e. cc)
some_decide (some j) i = elim (ℕ_discrete j i) [
  | yes e ↦ yes (ap (λ k. some k) e)
  | no n ↦ no (λ e. n (cc))
]

module _ {ℓ κ η ι μ} {Q : Type ℓ} {Op : Type κ} {Handle : Type η} (allowed : Q → Op → Type ι)
    (apply : Q → Op → Q) (wakes : Q → Op → Option ℕ) (list_of : Handle → ℕ)
    (should_try : Q → Handle → Bool) (ready : Q → Handle → Bool)
    (sound : (q : Q) (h : Handle) → ready q h ≡ true → should_try q h ≡ true) (Good : Q → Type μ)
    (keeps_good : (q : Q) (o : Op) → Good q → allowed q o → Good (apply q o))
    (quiet : (q : Q) (o : Op) (h : Handle)
      → Good q
      → allowed q o
      → wakes q o ≢ some (list_of h)
      → ready (apply q o) h ≡ true
      → ready q h ≡ true) where
  after_operation-Holds :
      (s : System Q Handle) (t : ℕ) (o : Option ℕ) → Holds list_of ready s t (after_operation o)
  after_operation-Holds s t none = tt
  after_operation-Holds s t (some i) = tt

  operate-Inv :
      (s : System Q Handle) (t : ℕ) (o : Op)
      → s.pc t ≡ idle
      → Good s.shared
      → allowed s.shared o
      → Inv list_of ready s
      → Inv list_of ready (record s {
        shared = apply s.shared o;
        pc = update s.pc t (after_operation (wakes s.shared o));
      })
  operate-Inv s t o at good may inv =
      moved list_of ready s after t next (after_operation-Holds after t (wakes s.shared o))
        (λ u n h. Holds-Keeps list_of ready s after u (s.pc u) (keeps u) h) inv
    where
      next : Pc Handle
      next = after_operation (wakes s.shared o)

      after : System Q Handle
      after = record s { shared = apply s.shared o; pc = update s.pc t next }

      still : (u : ℕ) → Waking s u → Waking after u
      still u w = waking-other list_of ready s after t u idle next at (λ l k. cc) refl w

      awaited : (u i : ℕ) → Awaited s u i → Awaited after u i
      awaited u i (inl c) = inl c
      awaited u i (inr w) = inr (still u w)

      pending : (u i : ℕ) → Pending s u i → Pending after u i
      pending u i (inl (c, n)) =
          inl (c, notifying-other list_of ready s t i idle next at (λ k. cc) n)
      pending u i (inr w) = inr (still u w)

      woken : (u i : ℕ) → wakes s.shared o ≡ some i → Awaited s u i → Pending after u i
      woken u i e (inl c) = inl (c, (t, rw (==-refl t, e) refl))
      woken u i e (inr w) = inr (still u w)

      ready_after :
          (u : ℕ) (h : Handle)
          → Promised list_of ready s u h
          → ready (apply s.shared o) h ≡ true
          → Pending after u (list_of h)
      ready_after u h p r = elim (some_decide (wakes s.shared o) (list_of h)) [
        | yes e ↦ woken u (list_of h) e p.0
        | no n ↦ pending u (list_of h) (p.1 (quiet s.shared o h good may n r))
      ]

      keeps : (u : ℕ) → Keeps list_of ready s after u
      keeps u = Keeps-from list_of ready s after u refl (awaited u) (ready_after u)

  step-Inv :
      (s s' : System Q Handle)
      → Step allowed apply wakes list_of should_try s s'
      → Good s.shared
      → Inv list_of ready s
      → Inv list_of ready s'
  step-Inv s _ (operate t o at may) good inv = operate-Inv s t o at good may inv
  step-Inv s _ (take_list t i at) good inv = take-Inv list_of ready s t i at inv
  step-Inv s _ (unpark_next t u l at awake) good inv = unpark-Inv list_of ready s t u l at awake inv
  step-Inv s _ (all_woken t at) good inv = woken-Inv list_of ready s t at inv
  step-Inv s _ (enter t hs at) good inv = enter-Inv list_of ready s t hs at inv
  step-Inv s _ (prepare_to_wait t hs h rest at) good inv =
      prepare-Inv list_of ready s t hs h rest at inv
  step-Inv s _ (check t hs h rest at) good inv =
      check-Inv list_of ready should_try s t hs h rest sound at inv
  step-Inv s _ (finish_wait t h n at) good inv = finish-Inv list_of ready s t h n at inv
  step-Inv s _ (return_ready t h at) good inv = return-Inv list_of ready s t h at inv
  step-Inv s _ (park t hs at) good inv = park-Inv list_of ready s t hs at inv
  step-Inv s _ (resume t hs at runs) good inv = resume-Inv list_of ready s t hs at inv

  step-Good :
      (s s' : System Q Handle)
      → Step allowed apply wakes list_of should_try s s'
      → Good s.shared
      → Good s'.shared
  step-Good s _ (operate t o at may) good = keeps_good s.shared o good may
  step-Good s _ (take_list t i at) good = good
  step-Good s _ (unpark_next t u l at awake) good = good
  step-Good s _ (all_woken t at) good = good
  step-Good s _ (enter t hs at) good = good
  step-Good s _ (prepare_to_wait t hs h rest at) good = good
  step-Good s _ (check t hs h rest at) good = good
  step-Good s _ (finish_wait t h n at) good = good
  step-Good s _ (return_ready t h at) good = good
  step-Good s _ (park t hs at) good = good
  step-Good s _ (resume t hs at runs) good = good

  Reachable-Good :
      (q : Q) (s : System Q Handle)
      → Good q
      → Reachable allowed apply wakes list_of should_try q s
      → Good s.shared
  Reachable-Good q _ good here = good
  Reachable-Good q s good (later r p) = step-Good _ s p (Reachable-Good q _ good r)

  Reachable-Inv :
      (q : Q) (s : System Q Handle)
      → Good q
      → Reachable allowed apply wakes list_of should_try q s
      → Inv list_of ready s
  Reachable-Inv q _ good here = λ t. tt
  Reachable-Inv q s good (later r p) =
      step-Inv _ s p (Reachable-Good q _ good r) (Reachable-Inv q _ good r)

  -- No wake-up is lost, in any interleaving of any number of tasks, provided that `should_try` holds
  -- of a handle that is ready, and that an operation that is allowed in a good state leaves a good
  -- state, and makes no handle ready whose list it does not wake: a task that is parked in the state `Blocked` although one of the handles that it waits for
  -- is ready is in the wait list of the handle, with a task that is about to take the list, or in
  -- the list that a task is unparking.
  pub no_lost_wakeup :
      (q : Q) (s : System Q Handle) (t : ℕ) (hs : List Handle) (h : Handle)
      → Good q
      → Reachable allowed apply wakes list_of should_try q s
      → s.pc t ≡ parked hs
      → s.tasks t ≡ blocked
      → In h hs
      → ready s.shared h ≡ true
      → Pending s t (list_of h)
  no_lost_wakeup q s t hs h good r at b among is_ready =
      let promised = Inv-at list_of ready s t (parked hs) (Reachable-Inv q s good r) at b in
      (All-In (Promised list_of ready s t) promised among).1 is_ready
