-- ===== src/Rpc/Aborts/Spins.antt =====
-- A thread that aborts its own server in the state `Blocking` goes round for ever.
use orpc_prototype.Prelude.{
  ℕ, ◌≡◌, ◌≢◌, refl, sym, ap, ◌∙◌, subst, ◌⊎◌, inl, inr, Bool, true, false, List, [], ◌∷◌, ◌++◌,
  Option, none, some, if◌then◌else◌, ==-false, ==-refl, ℕ_discrete,
}
use orpc_prototype.Sync.{Tasks, running, blocking, blocked, update, contains}
use orpc_prototype.Sync.WaitList.{contains-append}
use orpc_prototype.Rpc.Aborts.{
  Place, idle, entered, passed, parked, unwinding, storing, unparking, Threads, sees_abort, Step,
  attach, change_server, enter, abort_point, retry, park, resume, wake, store, lock_threads,
  unpark_next, unlock_threads, Run, here, later, Run-append, start,
}
use orpc_prototype.Rpc.Aborts.Invariant.{unparks}

-- A thread in the loop of `abort` has the mutex of `server_threads`.
abbrev Locked : Threads → Type 0
Locked s = (t : ℕ) (l : List ℕ) → s.place t ≡ unparking l → s.holder ≡ some t

moved-Locked :
    (s : Threads) (v : ℕ) (p : Place) (holder : Option ℕ)
    → Locked s
    → ((l : List ℕ) → p ≡ unparking l → holder ≡ some v)
    → ((t : ℕ) → v ≢ t → s.holder ≡ some t → holder ≡ some t)
    → (t : ℕ) (l : List ℕ) → update s.place v p t ≡ unparking l
    → holder ≡ some t
moved-Locked s v p holder locked own others t l e = elim (ℕ_discrete v t) [
  | yes q ↦
      let at : update s.place v p v ≡ unparking l = ap (update s.place v p) q ∙ e in
      own l (rw (==-refl v) at at) ∙ ap (λ k. some k) q
  | no n ↦ others t n (locked t l (rw (==-false v t n) at e))
]

-- The step of a thread that is not in the loop after it.
quiet-Locked :
    (s : Threads) (v : ℕ) (p : Place)
    → Locked s
    → ((l : List ℕ) → p ≢ unparking l)
    → (t : ℕ) (l : List ℕ) → update s.place v p t ≡ unparking l
    → s.holder ≡ some t
quiet-Locked s v p locked n =
    moved-Locked s v p s.holder locked (λ l e. absurd (n l e)) (λ t m e. e)

not_unparking :
    (b : Bool) (p : Place)
    → ((l : List ℕ) → p ≢ unparking l)
    → (l : List ℕ) → (if b then unwinding else p) ≢ unparking l
not_unparking true p n l = λ e. cc
not_unparking false p n l = n l

step-Locked : (s s' : Threads) → Step s s' → Locked s → Locked s'
step-Locked s _ (attach t at free) k = k
step-Locked s _ (change_server t b at) k = k
step-Locked s _ (enter t at) k = quiet-Locked s t entered k (λ l e. cc)
step-Locked s _ (abort_point t at) k =
    quiet-Locked s t _ k (not_unparking (sees_abort s t) passed (λ l e. cc))
step-Locked s _ (retry t at) k = quiet-Locked s t idle k (λ l e. cc)
step-Locked s _ (park t at) k = quiet-Locked s t parked k (λ l e. cc)
step-Locked s _ (resume t at runs) k =
    quiet-Locked s t _ k (not_unparking (sees_abort s t) idle (λ l e. cc))
step-Locked s _ (wake u awake) k = k
step-Locked s _ (store t from) k = quiet-Locked s t storing k (λ l e. cc)
step-Locked s _ (lock_threads t at free) k =
    moved-Locked s t (unparking s.base.server_threads) (some t) k (λ l e. refl)
      (λ u n e. absurd (let f : none ≡ some u = sym free ∙ e in cc))
step-Locked s _ (unpark_next t u l at awake) k =
    moved-Locked s t (unparking l) s.holder k (λ l' e. k t (u ∷ l) at) (λ v n e. e)
step-Locked s _ (unlock_threads t at) k =
    moved-Locked s t idle none k (λ l e. absurd (cc))
      (λ u n e. absurd (let f : some t ≡ some u = sym (k t [] at) ∙ e in let g : t ≡ u = cc in n g))

Run-Locked : (s s' : Threads) → Run s s' → Locked s → Locked s'
Run-Locked s _ here k = k
Run-Locked s s' (later r p) k = step-Locked _ s' p (Run-Locked s _ r k)

-- The thread is in `abort`, still to unpark itself, and in the state `Blocking`.
abbrev pub Stuck : Threads → ℕ → Type 0
Stuck s t = (s.tasks t ≡ blocking) × (unparks s.base.server_threads (s.place t) t ≡ true)

-- The step of a thread from a place outside of `abort`.
outside :
    (s : Threads) (t v : ℕ) (p p' : Place) (tasks : Tasks)
    → s.place v ≡ p
    → unparks s.base.server_threads p t ≡ false
    → (v ≢ t → tasks t ≡ s.tasks t)
    → Stuck s t
    → (tasks t ≡ blocking) × (unparks s.base.server_threads (update s.place v p' t) t ≡ true)
outside s t v p p' tasks at no_wake same (b, u) = (same differ ∙ b, rw (==-false v t differ) u)
  where
    differ : v ≢ t
    differ e =
        let f : s.place t ≡ p = ap s.place (sym e) ∙ at in
        let g : true ≡ false = sym (rw f at u) ∙ no_wake in cc

-- The step of a thread in `abort`.
inside :
    (s : Threads) (t v : ℕ) (p p' : Place)
    → s.place v ≡ p
    → (unparks s.base.server_threads p t ≡ true → unparks s.base.server_threads p' t ≡ true)
    → unparks s.base.server_threads (s.place t) t ≡ true
    → unparks s.base.server_threads (update s.place v p' t) t ≡ true
inside s t v p p' at own u = elim (ℕ_discrete v t) [
  | yes e ↦ let f : s.place t ≡ p = ap s.place (sym e) ∙ at in rw (e, ==-refl t) (own (rw f at u))
  | no n ↦ rw (==-false v t n) u
]

still_blocking :
    (tasks : Tasks) (u t : ℕ)
    → tasks u ≢ blocking
    → tasks t ≡ blocking
    → update tasks u running t ≡ blocking
still_blocking tasks u t awake b = rw (==-false u t (λ e. awake (ap tasks e ∙ b))) b

attached-keeps :
    (threads : List ℕ) (v t : ℕ) (p : Place)
    → unparks threads p t ≡ true
    → unparks (threads ++ (v ∷ [])) p t ≡ true
attached-keeps threads v t storing u = contains-append threads v t u
attached-keeps threads v t (unparking l) u = u
attached-keeps threads v t idle u = absurd (cc)
attached-keeps threads v t entered u = absurd (cc)
attached-keeps threads v t passed u = absurd (cc)
attached-keeps threads v t parked u = absurd (cc)
attached-keeps threads v t unwinding u = absurd (cc)

step-Stuck : (s s' : Threads) (t : ℕ) → Step s s' → Stuck s t → Stuck s' t
step-Stuck s _ t (attach v at free) (b, u) =
    (b, attached-keeps s.base.server_threads v t (s.place t) u)
step-Stuck s _ t (change_server v c at) h = h
step-Stuck s _ t (enter v at) h =
    outside s t v idle entered (update s.tasks v blocking) at refl (λ n. rw (==-false v t n)) h
step-Stuck s _ t (abort_point v at) h = outside s t v entered _ s.tasks at refl (λ n. refl) h
step-Stuck s _ t (retry v at) h = outside s t v passed idle s.tasks at refl (λ n. refl) h
step-Stuck s _ t (park v at) h =
    outside s t v passed parked (update s.tasks v blocked) at refl (λ n. rw (==-false v t n)) h
step-Stuck s _ t (resume v at runs) h = outside s t v parked _ s.tasks at refl (λ n. refl) h
step-Stuck s _ t (wake u awake) (b, p) = (still_blocking s.tasks u t awake b, p)
step-Stuck s _ t (store v (inl at)) h = outside s t v idle storing s.tasks at refl (λ n. refl) h
step-Stuck s _ t (store v (inr at)) h =
    outside s t v unwinding storing s.tasks at refl (λ n. refl) h
step-Stuck s _ t (lock_threads v at free) (b, p) =
    (b, inside s t v storing (unparking s.base.server_threads) at (λ e. e) p)
step-Stuck s _ t (unpark_next v u l at awake) (b, p) = (
  still_blocking s.tasks u t awake b,
  inside s t v (unparking (u ∷ l)) (unparking l) at
      (λ e. rw (==-false u t (λ q. awake (ap s.tasks q ∙ b))) at e) p,
)
step-Stuck s _ t (unlock_threads v at) (b, p) = (b, inside s t v (unparking []) idle at (λ e. e) p)

Run-Stuck : (s s' : Threads) (t : ℕ) → Run s s' → Stuck s t → Stuck s' t
Run-Stuck s _ t here h = h
Run-Stuck s s' t (later r p) h = step-Stuck _ s' t p (Run-Stuck s _ t r h)

unparks-place :
    (s : Threads) (t : ℕ) (p : Place)
    → s.place t ≡ p
    → unparks s.base.server_threads p t ≡ true
    → Locked s
    → (s.place t ≡ storing) ⊎ (s.holder ≡ some t)
unparks-place s t storing e u k = inl e
unparks-place s t (unparking l) e u k = inr (k t l e)
unparks-place s t idle e u k = absurd (cc)
unparks-place s t entered e u k = absurd (cc)
unparks-place s t passed e u k = absurd (cc)
unparks-place s t parked e u k = absurd (cc)
unparks-place s t unwinding e u k = absurd (cc)

-- A thread that is attached to the server and starts to abort it in the state `Blocking`, in which
-- `block_on` leaves it when it returns without parking or unwinds, never ends the abort: after any
-- further steps of all threads it is still in `abort`, with itself among those that it is going to
-- unpark, and in the state `Blocking`; and once it is in the loop, it keeps the mutex of
-- `server_threads`.
pub abort_spins :
    (s s' : Threads) (t : ℕ)
    → Run start s
    → s.place t ≡ storing
    → s.tasks t ≡ blocking
    → contains s.base.server_threads t ≡ true
    → Run s s'
    → Stuck s' t × ((s'.place t ≡ storing) ⊎ (s'.holder ≡ some t))
abort_spins s s' t reach at b listed run =
    let stuck =
      Run-Stuck s s' t run
        (b, subst (λ p. unparks s.base.server_threads p t ≡ true) (sym at) listed) in
    let locked = Run-Locked start s' (Run-append start s s' reach run) (λ u l e. absurd (cc)) in
    (stuck, unparks-place s' t (s'.place t) refl stuck.1 locked)
