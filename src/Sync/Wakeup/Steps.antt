-- ===== src/Sync/Wakeup/Steps.antt =====
-- Every step of a task in `block_on` keeps the invariant.
use orpc_prototype.Prelude.{
  ℕ, suc, ◌+◌, ◌≡◌, ◌≢◌, refl, sym, ◌∙◌, subst, inl, inr, Bool, true, false, ◌||◌, List, [], ◌∷◌,
  length, ◌==◌, if◌then◌else◌, Bool-cases, ==-false, ==-refl, ℕ_discrete,
}
use orpc_prototype.Sync.{
  Tasks, TaskState, blocking, blocked, update, contains, add_task, remove_task,
}
use orpc_prototype.Sync.WaitList.{contains-add_task, remove_task-other}
use orpc_prototype.Sync.Wakeup.{Pc, idle, preparing, registered, unregistering, parked, System}
use orpc_prototype.Sync.Wakeup.Invariant.{
  Holds, Inv, Holds-Keeps, moved, Quiet, Awaited-steady, Keeps-steady, Promised-on,
}

or_right : (b c : Bool) → c ≡ true → (b || c) ≡ true
or_right true c e = refl
or_right false c e = e

-- A change of one list keeps a task in all.
update-contains :
    (lists : ℕ → List ℕ) (i : ℕ) (l : List ℕ) (t : ℕ)
    → (contains (lists i) t ≡ true → contains l t ≡ true)
    → (j : ℕ) → contains (lists j) t ≡ true
    → contains (update lists i l j) t ≡ true
update-contains lists i l t f j c = elim (ℕ_discrete i j) [
  | yes e ↦
      let d : contains (lists i) t ≡ true = subst (λ k. contains (lists k) t ≡ true) (sym e) c in
      rw (e, ==-refl j) (f d)
  | no n ↦ rw (==-false i j n) c
]

pub update-other : (tasks : Tasks) (v t : ℕ) (x : TaskState) → v ≢ t → update tasks v x t ≡ tasks t
update-other tasks v t x n = rw (==-false v t n)

module _ {ℓ η} {Q : Type ℓ} {Handle : Type η} (list_of : Handle → ℕ)
    (ready : Q → Handle → Bool) where
  -- What the invariant says of a task at a place.
  pub Inv-at :
      (s : System Q Handle) (v : ℕ) (p : Pc Handle)
      → Inv list_of ready s
      → s.pc v ≡ p
      → Holds list_of ready s v p
  Inv-at s v p inv e = subst (λ k. Holds list_of ready s v k) e (inv v)

  -- A step of task `v` that leaves the queues as they are.
  module _ (s : System Q Handle) (v : ℕ) (p p' : Pc Handle) (lists : ℕ → List ℕ) (tasks : Tasks)
      (at : s.pc v ≡ p) (quiet : Quiet p)
      (grows : (t i : ℕ) → v ≢ t → contains (s.wait_lists i) t ≡ true → contains (lists i) t ≡ true)
      (same : (t : ℕ) → v ≢ t → tasks t ≡ s.tasks t) where
    abbrev after : System Q Handle
    after = record { shared = s.shared; wait_lists = lists; pc = update s.pc v p'; tasks = tasks }

    pub steady : Holds list_of ready after v p' → Inv list_of ready s → Inv list_of ready after
    steady own inv =
        moved list_of ready s after v p' own
          (λ t n h.
            Holds-Keeps list_of ready s after t (s.pc t)
              (Keeps-steady list_of ready s v t p p' at quiet lists tasks (λ i. grows t i n)
                (same t n))
              h)
          inv

  pub enter-Inv :
      (s : System Q Handle) (t : ℕ) (hs : List Handle)
      → s.pc t ≡ idle
      → Inv list_of ready s
      → Inv list_of ready
          (record s { pc = update s.pc t (preparing [] hs); tasks = update s.tasks t blocking })
  enter-Inv s t hs at inv =
      steady s t idle (preparing [] hs) s.wait_lists (update s.tasks t blocking) at
        ((λ l k. cc), (λ i k. cc)) (λ u i n c. c) (λ u n. update-other s.tasks t u blocking n)
        (rw (==-refl t) refl, tt) inv

  pub prepare-Inv :
      (s : System Q Handle) (t : ℕ) (hs : List Handle) (h : Handle) (rest : List Handle)
      → s.pc t ≡ preparing hs (h ∷ rest)
      → Inv list_of ready s
      → Inv list_of ready (record s {
        wait_lists = update s.wait_lists (list_of h) (add_task (s.wait_lists (list_of h)) t);
        pc = update s.pc t (registered hs h rest);
      })
  prepare-Inv s t hs h rest at inv =
      let (b, a) = Inv-at s t (preparing hs (h ∷ rest)) inv at in
      steady s t (preparing hs (h ∷ rest)) (registered hs h rest) lists s.tasks at
        ((λ l k. cc), (λ i k. cc)) (λ u i n c. grows u i c) (λ u n. refl)
        (
          b,
          Promised-on list_of ready s t (preparing hs (h ∷ rest)) (registered hs h rest) lists
              s.tasks at ((λ l k. cc), (λ i k. cc)) (grows t) hs a,
          inl (rw (==-refl (list_of h)) (added t ∙ rw (==-refl t) refl)),
        )
        inv
    where
      lists : ℕ → List ℕ
      lists = update s.wait_lists (list_of h) (add_task (s.wait_lists (list_of h)) t)

      added :
          (u : ℕ)
          → contains (add_task (s.wait_lists (list_of h)) t) u
            ≡ (t == u || contains (s.wait_lists (list_of h)) u)
      added = contains-add_task (s.wait_lists (list_of h)) t

      grows : (u i : ℕ) → contains (s.wait_lists i) u ≡ true → contains (lists i) u ≡ true
      grows u =
          update-contains s.wait_lists (list_of h) (add_task (s.wait_lists (list_of h)) t) u
            (λ c. added u ∙ or_right (t == u) (contains (s.wait_lists (list_of h)) u) c)

  pub check-Inv :
      (should_try : Q → Handle → Bool) (s : System Q Handle) (t : ℕ) (hs : List Handle) (h : Handle)
      (rest : List Handle)
      → ((q : Q) (h : Handle) → ready q h ≡ true → should_try q h ≡ true)
      → s.pc t ≡ registered hs h rest
      → Inv list_of ready s
      → Inv list_of ready (record s {
        pc = update s.pc t (
            if should_try s.shared h
            then unregistering h (length hs + 1)
            else preparing (h ∷ hs) rest);
      })
  check-Inv should_try s t hs h rest sound at inv =
      let (b, all, a) = Inv-at s t (registered hs h rest) inv at in
      elim (Bool-cases (should_try s.shared h)) [
        | inl e ↦ rw e (
            steady s t (registered hs h rest) (unregistering h (length hs + 1)) s.wait_lists s.tasks
              at ((λ l k. cc), (λ i k. cc)) (λ u i n c. c) (λ u n. refl) tt inv)
        | inr e ↦ rw e (
            steady s t (registered hs h rest) (preparing (h ∷ hs) rest) s.wait_lists s.tasks at
              ((λ l k. cc), (λ i k. cc)) (λ u i n c. c) (λ u n. refl)
              (
                b,
                (
                  (
                    Awaited-steady list_of ready s t t (registered hs h rest)
                        (preparing (h ∷ hs) rest) at ((λ l k. cc), (λ i k. cc)) s.wait_lists s.tasks
                        (λ i c. c) refl (list_of h) a,
                    λ r. absurd (let x = sound s.shared h r in cc),
                  ),
                  Promised-on list_of ready s t (registered hs h rest) (preparing (h ∷ hs) rest)
                      s.wait_lists s.tasks at ((λ l k. cc), (λ i k. cc)) (λ i c. c) hs all,
                ),
              )
              inv)
      ]

  pub finish-Inv :
      (s : System Q Handle) (t : ℕ) (h : Handle) (n : ℕ)
      → s.pc t ≡ unregistering h (suc n)
      → Inv list_of ready s
      → Inv list_of ready (record s {
        wait_lists = update s.wait_lists (list_of h) (remove_task (s.wait_lists (list_of h)) t);
        pc = update s.pc t (unregistering h n);
      })
  finish-Inv s t h n at inv =
      steady s t (unregistering h (suc n)) (unregistering h n)
        (update s.wait_lists (list_of h) (remove_task (s.wait_lists (list_of h)) t)) s.tasks at
        ((λ l k. cc), (λ i k. cc))
        (λ u i m c.
          update-contains s.wait_lists (list_of h) (remove_task (s.wait_lists (list_of h)) t) u
            (λ d. remove_task-other (s.wait_lists (list_of h)) t u m ∙ d) i c)
        (λ u m. refl) tt inv

  pub return-Inv :
      (s : System Q Handle) (t : ℕ) (h : Handle)
      → s.pc t ≡ unregistering h 0
      → Inv list_of ready s
      → Inv list_of ready (record s { pc = update s.pc t idle })
  return-Inv s t h at inv =
      steady s t (unregistering h 0) idle s.wait_lists s.tasks at ((λ l k. cc), (λ i k. cc))
        (λ u i n c. c) (λ u n. refl) tt inv

  pub park-Inv :
      (s : System Q Handle) (t : ℕ) (hs : List Handle)
      → s.pc t ≡ preparing hs []
      → Inv list_of ready s
      → Inv list_of ready
          (record s { pc = update s.pc t (parked hs); tasks = update s.tasks t blocked })
  park-Inv s t hs at inv =
      let (b, promised) = Inv-at s t (preparing hs []) inv at in
      steady s t (preparing hs []) (parked hs) s.wait_lists (update s.tasks t blocked) at
        ((λ l k. cc), (λ i k. cc)) (λ u i n c. c) (λ u n. update-other s.tasks t u blocked n)
        (λ e.
          Promised-on list_of ready s t (preparing hs []) (parked hs) s.wait_lists
            (update s.tasks t blocked) at ((λ l k. cc), (λ i k. cc)) (λ i c. c) hs promised)
        inv

  pub resume-Inv :
      (s : System Q Handle) (t : ℕ) (hs : List Handle)
      → s.pc t ≡ parked hs
      → Inv list_of ready s
      → Inv list_of ready (record s { pc = update s.pc t idle })
  resume-Inv s t hs at inv =
      steady s t (parked hs) idle s.wait_lists s.tasks at ((λ l k. cc), (λ i k. cc)) (λ u i n c. c)
        (λ u n. refl) tt inv
