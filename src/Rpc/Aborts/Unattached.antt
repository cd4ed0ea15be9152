-- ===== src/Rpc/Aborts/Unattached.antt =====
-- A thread that is in the server's context without being attached, as one that called a method.
use orpc_prototype.Prelude.{
  ℕ, ◌≡◌, refl, sym, ◌∙◌, subst, Bool, true, false, List, [], ◌∷◌, ◌++◌, if◌then◌else◌, ==-false,
  ==-refl, ℕ_discrete,
}
use orpc_prototype.Sync.{update, contains}
use orpc_prototype.Sync.WaitList.{contains-append}
use orpc_prototype.Rpc.Aborts.{
  Place, idle, entered, passed, parked, unwinding, storing, unparking, Threads, sees_abort, Step,
  attach, change_server, enter, abort_point, retry, park, resume, wake, store, lock_threads,
  unpark_next, unlock_threads, Run, here, later, start,
}
use orpc_prototype.Rpc.Aborts.Invariant.{unparks, Pending}

-- Only attached threads are unparked by an abort.
abbrev Listed : Threads → Type 0
Listed s =
    (t u : ℕ)
    → unparks s.base.server_threads (s.place u) t ≡ true
    → contains s.base.server_threads t ≡ true

-- The step of thread `v` to `p`.
moved-Listed :
    (s : Threads) (v : ℕ) (p : Place)
    → Listed s
    → ((t : ℕ) → unparks s.base.server_threads p t ≡ true → contains s.base.server_threads t ≡ true)
    → (t u : ℕ) → unparks s.base.server_threads (update s.place v p u) t ≡ true
    → contains s.base.server_threads t ≡ true
moved-Listed s v p listed own t u e = elim (ℕ_discrete v u) [
  | yes q ↦ own t (rw (q, ==-refl u) at e)
  | no n ↦ listed t u (rw (==-false v u n) at e)
]

branch_unparks :
    (threads : List ℕ) (b : Bool) (p : Place) (t : ℕ)
    → unparks threads p t ≡ false
    → unparks threads (if b then unwinding else p) t ≡ true
    → contains threads t ≡ true
branch_unparks threads true p t quiet e = absurd (cc)
branch_unparks threads false p t quiet e = absurd (let f : true ≡ false = sym e ∙ quiet in cc)

attached-Listed :
    (threads : List ℕ) (v t : ℕ) (p : Place)
    → (unparks threads p t ≡ true → contains threads t ≡ true)
    → unparks (threads ++ (v ∷ [])) p t ≡ true
    → contains (threads ++ (v ∷ [])) t ≡ true
attached-Listed threads v t storing f e = e
attached-Listed threads v t (unparking l) f e = contains-append threads v t (f e)
attached-Listed threads v t idle f e = absurd (cc)
attached-Listed threads v t entered f e = absurd (cc)
attached-Listed threads v t passed f e = absurd (cc)
attached-Listed threads v t parked f e = absurd (cc)
attached-Listed threads v t unwinding f e = absurd (cc)

in_tail : (l : List ℕ) (x t : ℕ) → contains l t ≡ true → contains (x ∷ l) t ≡ true
in_tail l x t e = elim (ℕ_discrete x t) [
  | yes q ↦ rw (q, ==-refl t) refl
  | no n ↦ rw (==-false x t n) e
]

step-Listed : (s s' : Threads) → Step s s' → Listed s → Listed s'
step-Listed s _ (attach v at free) h =
    λ t u e. attached-Listed s.base.server_threads v t (s.place u) (h t u) e
step-Listed s _ (change_server v b at) h = h
step-Listed s _ (enter v at) h = moved-Listed s v entered h (λ t e. absurd (cc))
step-Listed s _ (abort_point v at) h =
    moved-Listed s v _ h
      (λ t e. branch_unparks s.base.server_threads (sees_abort s v) passed t refl e)
step-Listed s _ (retry v at) h = moved-Listed s v idle h (λ t e. absurd (cc))
step-Listed s _ (park v at) h = moved-Listed s v parked h (λ t e. absurd (cc))
step-Listed s _ (resume v at runs) h =
    moved-Listed s v _ h
      (λ t e. branch_unparks s.base.server_threads (sees_abort s v) idle t refl e)
step-Listed s _ (wake u awake) h = h
step-Listed s _ (store v from) h = moved-Listed s v storing h (λ t e. e)
step-Listed s _ (lock_threads v at free) h =
    moved-Listed s v (unparking s.base.server_threads) h (λ t e. e)
step-Listed s _ (unpark_next v x l at awake) h = moved-Listed s v (unparking l) h (λ t e.
    h t v (subst (λ p. unparks s.base.server_threads p t ≡ true) (sym at) (in_tail l x t e)))
step-Listed s _ (unlock_threads v at) h = moved-Listed s v idle h (λ t e. absurd (cc))

Run-Listed : (s s' : Threads) → Run s s' → Listed s → Listed s'
Run-Listed s _ here h = h
Run-Listed s s' (later r p) h = step-Listed _ s' p (Run-Listed s _ r h)

-- A thread that is not attached to the server is unparked by no abort of it, in any interleaving of
-- any number of threads, whether or not it is in the server's context: if it is parked there in a
-- method, then nothing is pending for it after the abort.
pub unattached_unwoken :
    (s : Threads) (t : ℕ) → Run start s → contains s.base.server_threads t ≡ false → ¬ Pending s t
unattached_unwoken s t r absent (u, e) =
    let f : true ≡ false = sym (Run-Listed start s r (λ v w h. absurd (cc)) t u e) ∙ absent in cc
