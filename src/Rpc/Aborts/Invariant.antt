-- ===== src/Rpc/Aborts/Invariant.antt =====
-- The invariant of the interleavings of an abort: a thread that parks is told of it.
use orpc_prototype.Prelude.{
  ℕ, ◌≡◌, ◌≢◌, refl, sym, ap, ◌∙◌, subst, Bool, true, false, List, Option, ==-false, ==-refl,
  ℕ_discrete,
}
use orpc_prototype.Sync.{Tasks, running, blocking, blocked, update, contains}
use orpc_prototype.Rpc.Aborts.{
  Place, idle, entered, passed, parked, unwinding, storing, unparking, Threads,
}

-- Whether a thread at a place is going to unpark `t`.
abbrev pub unparks : List ℕ → Place → ℕ → Bool
unparks threads storing t = contains threads t
unparks threads (unparking l) t = contains l t
unparks threads idle t = false
unparks threads entered t = false
unparks threads passed t = false
unparks threads parked t = false
unparks threads unwinding t = false

-- Some thread is in `abort` and going to unpark `t`.
abbrev pub Pending : Threads → ℕ → Type 0
Pending s t = (u : ℕ) × (unparks s.base.server_threads (s.place u) t ≡ true)

abbrev pub Promised : Threads → ℕ → Type 0
Promised s t =
    s.current t ≡ true
    → contains s.base.server_threads t ≡ true
    → s.base.aborted ≡ true
    → Pending s t

abbrev pub Holds : Threads → ℕ → Place → Type 0
Holds s t idle = Unit
Holds s t entered = s.tasks t ≡ blocking
Holds s t passed = (s.tasks t ≡ blocking) × Promised s t
Holds s t parked = s.tasks t ≡ blocked → Promised s t
Holds s t unwinding = Unit
Holds s t storing = Unit
Holds s t (unparking l) = Unit

abbrev pub Inv : Threads → Type 0
Inv s = (t : ℕ) → Holds s t (s.place t)

-- What a step keeps for a thread that does not move.
abbrev pub Keeps : Threads → Threads → ℕ → Type 0
Keeps s s' t =
    (s.tasks t ≡ blocking → s'.tasks t ≡ blocking)
    × (s'.tasks t ≡ blocked → s.tasks t ≡ blocked)
    × (Promised s t → Promised s' t)

pub Holds-Keeps : (s s' : Threads) (t : ℕ) (p : Place) → Keeps s s' t → Holds s t p → Holds s' t p
Holds-Keeps s s' t idle k h = tt
Holds-Keeps s s' t entered k h = k.0 h
Holds-Keeps s s' t passed k h = (k.0 h.0, k.2 h.1)
Holds-Keeps s s' t parked k h = λ b. k.2 (h (k.1 b))
Holds-Keeps s s' t unwinding k h = tt
Holds-Keeps s s' t storing k h = tt
Holds-Keeps s s' t (unparking l) k h = tt

-- The thread that `unpark` made running.
pub Holds-running :
    (s s' : Threads) (u : ℕ) (p : Place)
    → s.tasks u ≢ blocking
    → s'.tasks u ≡ running
    → Holds s u p
    → Holds s' u p
Holds-running s s' u idle awake runs h = tt
Holds-running s s' u entered awake runs h = absurd (awake h)
Holds-running s s' u passed awake runs h = absurd (awake h.0)
Holds-running s s' u parked awake runs h =
    λ e. absurd (let f : running ≡ blocked = sym runs ∙ e in cc)
Holds-running s s' u unwinding awake runs h = tt
Holds-running s s' u storing awake runs h = tt
Holds-running s s' u (unparking l) awake runs h = tt

pub Inv-at : (s : Threads) (v : ℕ) (p : Place) → Inv s → s.place v ≡ p → Holds s v p
Inv-at s v p inv e = subst (λ k. Holds s v k) e (inv v)

-- A step that moves thread `v` from `p` to `p'`.
module _ (s : Threads) (v : ℕ) (p p' : Place) (at : s.place v ≡ p) where
  mover : {place : ℕ → Place} → place ≡ update s.place v p' → place v ≡ p'
  mover e = ap (λ f. f v) e ∙ rw (==-refl v) refl

  other : (t : ℕ) {place : ℕ → Place} → v ≢ t → place ≡ update s.place v p' → place t ≡ s.place t
  other t n e = ap (λ f. f t) e ∙ rw (==-false v t n) refl

  pub moved :
      (s' : Threads)
      → s'.place ≡ update s.place v p'
      → Holds s' v p'
      → ((t : ℕ) → v ≢ t → Holds s t (s.place t) → Holds s' t (s.place t))
      → Inv s
      → Inv s'
  moved s' e own others inv t = elim (ℕ_discrete v t) [
    | yes q ↦ subst (λ k. Holds s' k (s'.place k)) q (subst (λ k. Holds s' v k) (sym (mover e)) own)
    | no n ↦ subst (λ k. Holds s' t k) (sym (other t n e)) (others t n (inv t))
  ]

  -- It leaves what is pending for `t` if it does so itself.
  Pending-moved :
      (threads : List ℕ) (t : ℕ)
      → (unparks s.base.server_threads p t ≡ true → unparks threads p' t ≡ true)
      → ((q : Place) → unparks s.base.server_threads q t ≡ true → unparks threads q t ≡ true)
      → Pending s t
      → (u : ℕ) × (unparks threads (update s.place v p' u) t ≡ true)
  Pending-moved threads t own same (u, h) = elim (ℕ_discrete v u) [
    | yes q ↦
        let at' : s.place u ≡ p = ap s.place (sym q) ∙ at in
        (v, rw (==-refl v) (own (subst (λ k. unparks s.base.server_threads k t ≡ true) at' h)))
    | no n ↦ (u, rw (==-false v u n) (same (s.place u) h))
  ]

  -- A step that leaves the server and its contexts as they are.
  abbrev moved_to : Option ℕ → Tasks → Threads
  moved_to holder tasks = record s { holder = holder; place = update s.place v p'; tasks = tasks }

  pub Promised-moved :
      (holder : Option ℕ) (tasks : Tasks) (t : ℕ)
      → (unparks s.base.server_threads p t ≡ true → unparks s.base.server_threads p' t ≡ true)
      → Promised s t
      → Promised (moved_to holder tasks) t
  Promised-moved holder tasks t own h c m a =
      Pending-moved s.base.server_threads t own (λ q e. e) (h c m a)

  pub steady :
      (holder : Option ℕ) (tasks : Tasks)
      → ((t : ℕ)
          → unparks s.base.server_threads p t ≡ true
          → unparks s.base.server_threads p' t ≡ true)
      → ((t : ℕ) → v ≢ t → tasks t ≡ s.tasks t)
      → Holds (moved_to holder tasks) v p'
      → Inv s
      → Inv (moved_to holder tasks)
  steady holder tasks own same at_own inv =
      moved (moved_to holder tasks) refl at_own
        (λ t n h.
          Holds-Keeps s (moved_to holder tasks) t (s.place t)
            ((λ e. same t n ∙ e), (λ e. sym (same t n) ∙ e), Promised-moved holder tasks t (own t))
            h)
        inv
