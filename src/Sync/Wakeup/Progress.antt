-- ===== src/Sync/Wakeup/Progress.antt =====
-- What becomes of a wake-up that is pending: it can be carried out, unless a task in the state
-- `Blocking` that does not go on stands in its way.
use orpc_prototype.Prelude.{
  ℕ, suc, ◌≡◌, ◌≢◌, refl, sym, ap, ◌∙◌, subst, inl, inr, Bool, true, Option, List, [], ◌∷◌,
  ==-false, ==-refl, ℕ_discrete,
}
use orpc_prototype.Sync.{Tasks, running, blocking, update, contains}
use orpc_prototype.Sync.Wakeup.{
  Pc, idle, preparing, registered, unregistering, parked, notifying, waking, System,
  after_operation, Step, operate, all_woken, enter, prepare_to_wait, check, finish_wait,
  return_ready, park, resume,
}
use orpc_prototype.Sync.Wakeup.Invariant.{Pending}

awake_after :
    (tasks : Tasks) (u : ℕ)
    → ((v : ℕ) → tasks v ≢ blocking)
    → (v : ℕ) → update tasks u running v ≢ blocking
awake_after tasks u awake v e = elim (ℕ_discrete u v) [
  | yes q ↦ let f : running ≡ blocking = rw (q, ==-refl v) at e in cc
  | no n ↦ awake v (rw (==-false u v n) at e)
]

module _ {ℓ η} {Q : Type ℓ} {Handle : Type η} where
  -- Task `w` is in `wake_all` and going to unpark `u`, which is in the state `Blocking`.
  abbrev pub Stalled : System Q Handle → ℕ → ℕ → Type η
  Stalled s w u =
      (s.tasks u ≡ blocking) × ((l : List ℕ) × (s.pc w ≡ waking l) × (contains l u ≡ true))

  -- A step of the `wake_all` that task `w` is in.
  pub data WakeStep (w : ℕ) (s : System Q Handle) : System Q Handle → Type (ℓ ⊔ η) where
    take_list :
        (i : ℕ)
        → s.pc w ≡ notifying i
        → WakeStep w s (record s {
          wait_lists = update s.wait_lists i [];
          pc = update s.pc w (waking (s.wait_lists i));
        })
    unpark_next :
        (u : ℕ) (l : List ℕ)
        → s.pc w ≡ waking (u ∷ l)
        → s.tasks u ≢ blocking
        → WakeStep w s
            (record s { pc = update s.pc w (waking l); tasks = update s.tasks u running })

  -- The sequences of steps of the `wake_all` that task `w` is in.
  pub data WakeRun (w : ℕ) : System Q Handle → System Q Handle → Type (ℓ ⊔ η) where
    stay : {s : System Q Handle} → WakeRun w s s
    go_on : {s s' s'' : System Q Handle} → WakeStep w s s' → WakeRun w s' s'' → WakeRun w s s''

  -- The loop of a task `w` gets to `t`.
  loop_wakes :
      (l : List ℕ) (s : System Q Handle) (w t : ℕ)
      → s.pc w ≡ waking l
      → contains l t ≡ true
      → ((u : ℕ) → s.tasks u ≢ blocking)
      → (s' : System Q Handle) × WakeRun w s s' × (s'.tasks t ≡ running)
  loop_wakes [] s w t at c awake = absurd (cc)
  loop_wakes (u ∷ l) s w t at c awake = elim (ℕ_discrete u t) [
    | yes e ↦ (after, go_on (unpark_next u l at (awake u)) stay, rw (e, ==-refl t) refl)
    | no n ↦
        let (s', run, woken) =
          loop_wakes l after w t (rw (==-refl w) refl) (rw (==-false u t n) at c)
            (awake_after s.tasks u awake) in
        (s', go_on (unpark_next u l at (awake u)) run, woken)
  ]
    where
      after : System Q Handle
      after = record s { pc = update s.pc w (waking l); tasks = update s.tasks u running }

  -- If a wake-up of a task is pending and no task is in the state `Blocking`, then the steps of
  -- the `wake_all` of one task make the task running.
  pub waker_wakes :
      (s : System Q Handle) (t i : ℕ)
      → Pending s t i
      → ((u : ℕ) → s.tasks u ≢ blocking)
      → (w : ℕ) × (s' : System Q Handle) × WakeRun w s s' × (s'.tasks t ≡ running)
  waker_wakes s t i (inr (w, l, at, c)) awake =
      let (s', run, woken) = loop_wakes l s w t at c awake in (w, s', run, woken)
  waker_wakes s t i (inl (c, (w, at))) awake =
      let (s', run, woken) =
        loop_wakes (s.wait_lists i)
          (record s {
            wait_lists = update s.wait_lists i [];
            pc = update s.pc w (waking (s.wait_lists i));
          })
          w t (rw (==-refl w) refl) c awake in
      (w, s', go_on (take_list i at) run, woken)

module _ {ℓ κ η ι} {Q : Type ℓ} {Op : Type κ} {Handle : Type η} (allowed : Q → Op → Type ι)
    (apply : Q → Op → Q) (wakes : Q → Op → Option ℕ) (list_of : Handle → ℕ)
    (should_try : Q → Handle → Bool) where
  -- These are steps of the system.
  wake_step :
      (w : ℕ) (s s' : System Q Handle)
      → WakeStep w s s'
      → Step allowed apply wakes list_of should_try s s'
  wake_step w s s' (take_list i at) = Step.take_list w i at
  wake_step w s s' (unpark_next u l at awake) = Step.unpark_next w u l at awake

  -- The sequences of steps before each of which task `u` is outside of `block_on` and of operations.
  pub data Rests (u : ℕ) (s : System Q Handle) : System Q Handle → Type (ℓ ⊔ κ ⊔ η ⊔ ι) where
    at_rest : Rests u s s
    then_on :
        {s' s'' : System Q Handle}
        → Rests u s s'
        → s'.pc u ≡ idle
        → Step allowed apply wakes list_of should_try s' s''
        → Rests u s s''

  loop_moved :
      (s : System Q Handle) (w v : ℕ) (p p' : Pc Handle)
      → s.pc v ≡ p
      → ((l : List ℕ) → p ≢ waking l)
      → (u : ℕ) → (l : List ℕ) × (s.pc w ≡ waking l) × (contains l u ≡ true)
      → (l : List ℕ) × (update s.pc v p' w ≡ waking l) × (contains l u ≡ true)
  loop_moved s w v p p' at n u (l, e, c) =
      (l, rw (==-false v w (λ k. n l (sym at ∙ ap s.pc k ∙ e))) e, c)

  -- A step of another task, or of `u` from its rest, leaves `w` in the loop.
  rest-Stalled :
      (s s' : System Q Handle) (w v u : ℕ) (p p' : Pc Handle)
      → s.pc v ≡ p
      → ((l : List ℕ) → p ≢ waking l)
      → s'.pc ≡ update s.pc v p'
      → (s.tasks u ≡ blocking → s'.tasks u ≡ blocking)
      → Stalled s w u
      → Stalled s' w u
  rest-Stalled s s' w v u p p' at n moves same (b, in_loop) =
      let (l, e, c) = loop_moved s w v p p' at n u in_loop in
      (same b, (l, ap (λ f. f w) moves ∙ e, c))

  -- A task that is at rest is not at another place.
  elsewhere :
      (s : System Q Handle) (v u : ℕ) (p : Pc Handle)
      → s.pc u ≡ idle
      → s.pc v ≡ p
      → p ≢ idle
      → v ≢ u
  elsewhere s v u p rests at n e = n (sym at ∙ ap s.pc e ∙ rests)

  step-Stalled :
      (s s' : System Q Handle) (w u : ℕ)
      → Step allowed apply wakes list_of should_try s s'
      → s.pc u ≡ idle
      → Stalled s w u
      → Stalled s' w u
  step-Stalled s s' w u (operate v o at may) rests h =
      rest-Stalled s s' w v u idle (after_operation (wakes s.shared o)) at (λ l k. cc) refl (λ b. b)
        h
  step-Stalled s s' w u (Step.take_list v i at) rests h =
      rest-Stalled s s' w v u (notifying i) (waking (s.wait_lists i)) at (λ l k. cc) refl (λ b. b) h
  step-Stalled s s' w u (Step.unpark_next v x l at awake) rests (b, (l', e, c)) =
      let n : x ≢ u = λ k. awake (ap s.tasks k ∙ b) in
      (
        rw (==-false x u n) b,
        elim (ℕ_discrete v w) [
          | yes q ↦
              let f : s.pc w ≡ waking (x ∷ l) = ap s.pc (sym q) ∙ at in
              let g : l' ≡ x ∷ l = cc in
              let d : contains (x ∷ l) u ≡ true = subst (λ m. contains m u ≡ true) g c in
              (l, rw (q, ==-refl w) refl, rw (==-false x u n) at d)
          | no m ↦ (l', rw (==-false v w m) e, c)
        ],
      )
  step-Stalled s s' w u (all_woken v at) rests (b, (l, e, c)) = (
    b,
    elim (ℕ_discrete v w) [
      | yes q ↦
          let f : s.pc w ≡ waking [] = ap s.pc (sym q) ∙ at in
          let g : l ≡ [] = cc in
          absurd (let d : contains [] u ≡ true = subst (λ m. contains m u ≡ true) g c in cc)
      | no m ↦ (l, rw (==-false v w m) e, c)
    ],
  )
  step-Stalled s s' w u (enter v hs at) rests h =
      rest-Stalled s s' w v u idle (preparing [] hs) at (λ l k. cc) refl
        (λ b. elim (ℕ_discrete v u) [
          | yes e ↦ rw (e, ==-refl u) refl
          | no n ↦ rw (==-false v u n) b
        ])
        h
  step-Stalled s s' w u (prepare_to_wait v hs g rest at) rests h =
      rest-Stalled s s' w v u (preparing hs (g ∷ rest)) (registered hs g rest) at (λ l k. cc) refl
        (λ b. b) h
  step-Stalled s s' w u (check v hs g rest at) rests h =
      rest-Stalled s s' w v u (registered hs g rest) _ at (λ l k. cc) refl (λ b. b) h
  step-Stalled s s' w u (finish_wait v g n at) rests h =
      rest-Stalled s s' w v u (unregistering g (suc n)) (unregistering g n) at (λ l k. cc) refl
        (λ b. b) h
  step-Stalled s s' w u (return_ready v g at) rests h =
      rest-Stalled s s' w v u (unregistering g 0) idle at (λ l k. cc) refl (λ b. b) h
  step-Stalled s s' w u (park v hs at) rests h =
      rest-Stalled s s' w v u (preparing hs []) (parked hs) at (λ l k. cc) refl
        (λ b. rw (==-false v u (elsewhere s v u (preparing hs []) rests at (λ k. cc))) b) h
  step-Stalled s s' w u (resume v hs at runs) rests h =
      rest-Stalled s s' w v u (parked hs) idle at (λ l k. cc) refl (λ b. b) h

  -- A task that calls `wake_all` on a list with a task in the state `Blocking`, in which `block_on`
  -- leaves a task that it need not park, goes round for as long as that task stays outside of
  -- `block_on` and of operations: after any steps of all tasks before which it is outside, the
  -- caller is in the loop, with that task among those that it is going to unpark.
  pub waker_spins :
      (s : System Q Handle) (w u : ℕ) (s' : System Q Handle)
      → Rests u s s'
      → Stalled s w u
      → Stalled s' w u
  waker_spins s w u _ at_rest h = h
  waker_spins s w u s' (then_on r rests p) h =
      step-Stalled _ s' w u p rests (waker_spins s w u _ r h)
