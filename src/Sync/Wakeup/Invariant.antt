-- ===== src/Sync/Wakeup/Invariant.antt =====
-- No wake-up is lost: the invariant of the interleavings of tasks on shared queues.
use orpc_prototype.Prelude.{
  ℕ, ◌≡◌, ◌≢◌, refl, sym, ap, ◌∙◌, subst, ◌⊎◌, inl, inr, Bool, true, List, All, All-map, ==-false,
  ==-refl, ℕ_discrete,
}
use orpc_prototype.Sync.{Tasks, blocking, blocked, update, contains}
use orpc_prototype.Sync.Wakeup.{
  Pc, idle, preparing, registered, unregistering, parked, notifying, waking, System,
}

-- A place in which a task neither wakes others nor is about to.
abbrev pub Quiet {η} : {Handle : Type η} → Pc Handle → Type η
Quiet p = ((l : List ℕ) → p ≢ waking l) × ((i : ℕ) → p ≢ notifying i)

module _ {ℓ η} {Q : Type ℓ} {Handle : Type η} where
  -- The task is in the list that some task is about to unpark.
  abbrev pub Waking : System Q Handle → ℕ → Type η
  Waking s t = (u : ℕ) × (l : List ℕ) × (s.pc u ≡ waking l) × (contains l t ≡ true)

  -- The task is in the wait list of that number, or was taken from it.
  abbrev pub Awaited : System Q Handle → ℕ → ℕ → Type η
  Awaited s t i = (contains (s.wait_lists i) t ≡ true) ⊎ Waking s t

  -- Some task is about to unpark it.
  abbrev pub Pending : System Q Handle → ℕ → ℕ → Type η
  Pending s t i =
      ((contains (s.wait_lists i) t ≡ true) × ((u : ℕ) × (s.pc u ≡ notifying i))) ⊎ Waking s t

  -- The list of each handle, and whether it is ready.
  module _ (list_of : Handle → ℕ) (ready : Q → Handle → Bool) where
    abbrev pub Promised : System Q Handle → ℕ → Handle → Type η
    Promised s t h = Awaited s t (list_of h) × (ready s.shared h ≡ true → Pending s t (list_of h))

    abbrev pub Holds : System Q Handle → ℕ → Pc Handle → Type η
    Holds s t idle = Unit
    Holds s t (preparing hs rest) = (s.tasks t ≡ blocking) × All (Promised s t) hs
    Holds s t (registered hs h rest) =
        (s.tasks t ≡ blocking) × All (Promised s t) hs × Awaited s t (list_of h)
    Holds s t (unregistering h n) = Unit
    Holds s t (parked hs) = s.tasks t ≡ blocked → All (Promised s t) hs
    Holds s t (notifying i) = Unit
    Holds s t (waking l) = Unit

    abbrev pub Inv : System Q Handle → Type η
    Inv s = (t : ℕ) → Holds s t (s.pc t)

    -- What a step of another task must keep for a task `t`.
    abbrev pub Keeps : System Q Handle → System Q Handle → ℕ → Type η
    Keeps s s' t =
        (s.tasks t ≡ blocking → s'.tasks t ≡ blocking)
        × (s'.tasks t ≡ blocked → s.tasks t ≡ blocked)
        × ((i : ℕ) → Awaited s t i → Awaited s' t i)
        × ((h : Handle) → Promised s t h → Promised s' t h)

    pub Holds-Keeps :
        (s s' : System Q Handle) (t : ℕ) (p : Pc Handle) → Keeps s s' t → Holds s t p → Holds s' t p
    Holds-Keeps s s' t idle k h = tt
    Holds-Keeps s s' t (preparing hs rest) k h =
        (k.0 h.0, All-map (Promised s t) (Promised s' t) hs k.3 h.1)
    Holds-Keeps s s' t (registered hs g rest) k h =
        (k.0 h.0, All-map (Promised s t) (Promised s' t) hs k.3 h.1, k.2 (list_of g) h.2)
    Holds-Keeps s s' t (unregistering g n) k h = tt
    Holds-Keeps s s' t (parked hs) k h =
        λ b. All-map (Promised s t) (Promised s' t) hs k.3 (h (k.1 b))
    Holds-Keeps s s' t (notifying i) k h = tt
    Holds-Keeps s s' t (waking l) k h = tt

    -- A step of task `v` to `p`.
    pub moved :
        (s s' : System Q Handle) (v : ℕ) (p : Pc Handle)
        → Holds s' v p
        → ((t : ℕ) → v ≢ t → Holds s t (s.pc t) → Holds s' t (s.pc t))
        → Inv s
        → (t : ℕ) → Holds s' t (update s.pc v p t)
    moved s s' v p at others inv t = elim (ℕ_discrete v t) [
      | yes e ↦ subst (λ k. Holds s' k (update s.pc v p k)) e (rw (==-refl v) at)
      | no n ↦ rw (==-false v t n) (others t n (inv t))
    ]

    -- A task that wakes is not the one that moves from another place.
    pub waking-other :
        (s s' : System Q Handle) (v t : ℕ) (p p' : Pc Handle)
        → s.pc v ≡ p
        → ((l : List ℕ) → p ≢ waking l)
        → s'.pc ≡ update s.pc v p'
        → Waking s t
        → Waking s' t
    waking-other s s' v t p p' at n moves (u, l, e, c) =
        (u, l, ap (λ f. f u) moves ∙ rw (==-false v u (λ k. n l (sym at ∙ ap s.pc k ∙ e))) e, c)

    pub notifying-other :
        (s : System Q Handle) (v i : ℕ) (p p' : Pc Handle)
        → s.pc v ≡ p
        → p ≢ notifying i
        → (u : ℕ) × (s.pc u ≡ notifying i)
        → (u : ℕ) × (update s.pc v p' u ≡ notifying i)
    notifying-other s v i p p' at n (u, e) =
        (u, rw (==-false v u (λ k. n (sym at ∙ ap s.pc k ∙ e))) e)

    -- The move of a quiet task that keeps `t` in the lists, and its state.
    module _ (s : System Q Handle) (v t : ℕ) (p p' : Pc Handle) (at : s.pc v ≡ p) (quiet : Quiet p)
        (lists : ℕ → List ℕ) (tasks : Tasks)
        (grows : (i : ℕ) → contains (s.wait_lists i) t ≡ true → contains (lists i) t ≡ true)
        (same : tasks t ≡ s.tasks t) where
      abbrev moved_to : System Q Handle
      moved_to = record {
        shared = s.shared;
        wait_lists = lists;
        pc = update s.pc v p';
        tasks = tasks;
      }

      still-Waking : Waking s t → Waking moved_to t
      still-Waking w = waking-other s moved_to v t p p' at quiet.0 refl w

      pub Awaited-steady : (i : ℕ) → Awaited s t i → Awaited moved_to t i
      Awaited-steady i (inl c) = inl (grows i c)
      Awaited-steady i (inr w) = inr (still-Waking w)

      Pending-steady : (i : ℕ) → Pending s t i → Pending moved_to t i
      Pending-steady i (inl (c, n)) = inl (grows i c, notifying-other s v i p p' at (quiet.1 i) n)
      Pending-steady i (inr w) = inr (still-Waking w)

      pub Promised-steady : (h : Handle) → Promised s t h → Promised moved_to t h
      Promised-steady h (a, f) =
          (Awaited-steady (list_of h) a, λ r. Pending-steady (list_of h) (f r))

      pub Keeps-steady : Keeps s moved_to t
      Keeps-steady = (λ e. same ∙ e, λ e. sym same ∙ e, Awaited-steady, Promised-steady)

    -- What was promised to a task remains so when the task itself goes on.
    pub Promised-on :
        (s : System Q Handle) (v : ℕ) (p p' : Pc Handle) (lists : ℕ → List ℕ) (tasks : Tasks)
        → s.pc v ≡ p
        → Quiet p
        → ((i : ℕ) → contains (s.wait_lists i) v ≡ true → contains (lists i) v ≡ true)
        → (hs : List Handle) → All (Promised s v) hs
        → All
            (Promised
              (record {
                shared = s.shared;
                wait_lists = lists;
                pc = update s.pc v p';
                tasks = tasks;
              })
              v)
            hs
    Promised-on s v p p' lists tasks at quiet grows hs a =
        All-map (Promised s v)
          (Promised
            (record { shared = s.shared; wait_lists = lists; pc = update s.pc v p'; tasks = tasks })
            v)
          hs
          (λ h q.
            Promised-steady (record s { tasks = tasks }) v v p p' at quiet lists tasks grows refl h
              q)
          a
