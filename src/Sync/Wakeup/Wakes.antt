-- ===== src/Sync/Wakeup/Wakes.antt =====
-- Every step of a task that wakes others keeps the invariant.
use orpc_prototype.Prelude.{
  ℕ, ◌≡◌, ◌≢◌, refl, sym, ap, ◌∙◌, subst, inl, inr, Bool, true, List, [], ◌∷◌, ==-false, ==-refl,
  ℕ_discrete,
}
use orpc_prototype.Sync.{running, blocking, blocked, update, contains}
use orpc_prototype.Sync.Wakeup.{
  Pc, idle, preparing, registered, unregistering, parked, notifying, waking, System,
}
use orpc_prototype.Sync.Wakeup.Invariant.{
  Waking, Awaited, Pending, Promised, Holds, Inv, Keeps, Holds-Keeps, moved, waking-other,
  notifying-other,
}
use orpc_prototype.Sync.Wakeup.Steps.{update-other}

module _ {ℓ η} {Q : Type ℓ} {Handle : Type η} (list_of : Handle → ℕ)
    (ready : Q → Handle → Bool) where
  -- A step that leaves the state of `u`, and makes its handles ready only with a wake-up pending.
  pub Keeps-from :
      (s s' : System Q Handle) (u : ℕ)
      → s'.tasks u ≡ s.tasks u
      → ((i : ℕ) → Awaited s u i → Awaited s' u i)
      → ((h : Handle)
          → Promised list_of ready s u h
          → ready s'.shared h ≡ true
          → Pending s' u (list_of h))
      → Keeps list_of ready s s' u
  Keeps-from s s' u same awaited pending = (
    (λ e. same ∙ e),
    (λ e. sym same ∙ e),
    awaited,
    (λ h p. (awaited (list_of h) p.0, pending h p)),
  )

  pub take-Inv :
      (s : System Q Handle) (t i : ℕ)
      → s.pc t ≡ notifying i
      → Inv list_of ready s
      → Inv list_of ready (record s {
        wait_lists = update s.wait_lists i [];
        pc = update s.pc t (waking (s.wait_lists i));
      })
  take-Inv s t i at inv =
      moved list_of ready s after t (waking (s.wait_lists i)) tt
        (λ u n h. Holds-Keeps list_of ready s after u (s.pc u) (keeps u) h) inv
    where
      after : System Q Handle
      after = record s {
        wait_lists = update s.wait_lists i [];
        pc = update s.pc t (waking (s.wait_lists i));
      }

      still : (u : ℕ) → Waking s u → Waking after u
      still u w =
          waking-other list_of ready s after t u (notifying i) (waking (s.wait_lists i)) at
            (λ l k. cc) refl w

      listed : (u j : ℕ) → i ≡ j → contains (s.wait_lists j) u ≡ true → Waking after u
      listed u j e c = (
        t,
        s.wait_lists i,
        rw (==-refl t) refl,
        subst (λ k. contains (s.wait_lists k) u ≡ true) (sym e) c,
      )

      awaited : (u j : ℕ) → Awaited s u j → Awaited after u j
      awaited u j (inl c) = elim (ℕ_discrete i j) [
        | yes e ↦ inr (listed u j e c)
        | no n ↦ inl (rw (==-false i j n) c)
      ]
      awaited u j (inr w) = inr (still u w)

      pending : (u j : ℕ) → Pending s u j → Pending after u j
      pending u j (inl (c, n)) = elim (ℕ_discrete i j) [
        | yes e ↦ inr (listed u j e c)
        | no m ↦ inl (
          rw (==-false i j m) c,
          notifying-other list_of ready s t j (notifying i) (waking (s.wait_lists i)) at
              (λ k. m (cc)) n,
        )
      ]
      pending u j (inr w) = inr (still u w)

      keeps : (u : ℕ) → Keeps list_of ready s after u
      keeps u = Keeps-from s after u refl (awaited u) (λ h p r. pending u (list_of h) (p.1 r))

  pub woken-Inv :
      (s : System Q Handle) (t : ℕ)
      → s.pc t ≡ waking []
      → Inv list_of ready s
      → Inv list_of ready (record s { pc = update s.pc t idle })
  woken-Inv s t at inv =
      moved list_of ready s after t idle tt
        (λ u n h. Holds-Keeps list_of ready s after u (s.pc u) (keeps u) h) inv
    where
      after : System Q Handle
      after = record s { pc = update s.pc t idle }

      still : (u : ℕ) → Waking s u → Waking after u
      still u (k, l, e, c) = elim (ℕ_discrete t k) [
        | yes q ↦
            let f : s.pc k ≡ waking [] = ap s.pc (sym q) ∙ at in
            let g : l ≡ [] = cc in
            absurd (let d : contains [] u ≡ true = subst (λ m. contains m u ≡ true) g c in cc)
        | no n ↦ (k, l, rw (==-false t k n) e, c)
      ]

      awaited : (u j : ℕ) → Awaited s u j → Awaited after u j
      awaited u j (inl c) = inl c
      awaited u j (inr w) = inr (still u w)

      pending : (u j : ℕ) → Pending s u j → Pending after u j
      pending u j (inl (c, n)) =
          inl (c, notifying-other list_of ready s t j (waking []) idle at (λ k. cc) n)
      pending u j (inr w) = inr (still u w)

      keeps : (u : ℕ) → Keeps list_of ready s after u
      keeps u = Keeps-from s after u refl (awaited u) (λ h p r. pending u (list_of h) (p.1 r))

  -- The task that `unpark` made running.
  Holds-running :
      (s s' : System Q Handle) (u : ℕ) (p : Pc Handle)
      → s.tasks u ≢ blocking
      → s'.tasks u ≡ running
      → Holds list_of ready s u p
      → Holds list_of ready s' u p
  Holds-running s s' u idle awake runs h = tt
  Holds-running s s' u (preparing hs rest) awake runs h = absurd (awake h.0)
  Holds-running s s' u (registered hs g rest) awake runs h = absurd (awake h.0)
  Holds-running s s' u (unregistering g n) awake runs h = tt
  Holds-running s s' u (parked hs) awake runs h =
      λ e. absurd (let f : running ≡ blocked = sym runs ∙ e in cc)
  Holds-running s s' u (notifying i) awake runs h = tt
  Holds-running s s' u (waking l) awake runs h = tt

  pub unpark-Inv :
      (s : System Q Handle) (t v : ℕ) (l : List ℕ)
      → s.pc t ≡ waking (v ∷ l)
      → s.tasks v ≢ blocking
      → Inv list_of ready s
      → Inv list_of ready
          (record s { pc = update s.pc t (waking l); tasks = update s.tasks v running })
  unpark-Inv s t v l at awake inv = moved list_of ready s after t (waking l) tt others inv
    where
      after : System Q Handle
      after = record s { pc = update s.pc t (waking l); tasks = update s.tasks v running }

      still : (u : ℕ) → v ≢ u → Waking s u → Waking after u
      still u m (k, l', e, c) = elim (ℕ_discrete t k) [
        | yes q ↦
            let f : s.pc k ≡ waking (v ∷ l) = ap s.pc (sym q) ∙ at in
            let g : l' ≡ v ∷ l = cc in
            let d : contains (v ∷ l) u ≡ true = subst (λ m. contains m u ≡ true) g c in
            (t, l, rw (==-refl t) refl, rw (==-false v u m) at d)
        | no n ↦ (k, l', rw (==-false t k n) e, c)
      ]

      awaited : (u : ℕ) → v ≢ u → (j : ℕ) → Awaited s u j → Awaited after u j
      awaited u m j (inl c) = inl c
      awaited u m j (inr w) = inr (still u m w)

      pending : (u : ℕ) → v ≢ u → (j : ℕ) → Pending s u j → Pending after u j
      pending u m j (inl (c, n)) =
          inl (c, notifying-other list_of ready s t j (waking (v ∷ l)) (waking l) at (λ k. cc) n)
      pending u m j (inr w) = inr (still u m w)

      others :
          (u : ℕ) → t ≢ u → Holds list_of ready s u (s.pc u) → Holds list_of ready after u (s.pc u)
      others u n h = elim (ℕ_discrete v u) [
        | yes e ↦
            Holds-running s after u (s.pc u) (λ b. awake (ap s.tasks e ∙ b))
              (rw (e, ==-refl u) refl) h
        | no m ↦
            Holds-Keeps list_of ready s after u (s.pc u)
              (Keeps-from s after u (update-other s.tasks v u running m) (awaited u m)
                (λ g p r. pending u m (list_of g) (p.1 r)))
              h
      ]
