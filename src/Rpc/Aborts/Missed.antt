-- ===== src/Rpc/Aborts/Missed.antt =====
-- No abort of a server is missed by a thread that waits in its context.
use orpc_prototype.Prelude.{
  ℕ, ◌≡◌, refl, inl, inr, Bool, true, false, [], none, some, if◌then◌else◌, Bool-cases, ==-false,
  ==-refl,
}
use orpc_prototype.Sync.{blocking, blocked, update, contains}
use orpc_prototype.Rpc.Aborts.{
  idle, entered, passed, parked, unwinding, storing, unparking, Threads, attached, sees_abort, Step,
  attach, change_server, enter, abort_point, retry, park, resume, wake, store, lock_threads,
  unpark_next, unlock_threads, Run, here, later, start,
}
use orpc_prototype.Sync.WaitList.{contains-append, contains-append_other}
use orpc_prototype.Rpc.Aborts.Invariant.{Pending, Inv, Inv-at, Promised-moved, steady}
use orpc_prototype.Rpc.Aborts.Steps.{update-other, in_place, store-Inv, unpark-Inv, wake-Inv}

attach-Inv :
    (s : Threads) (v : ℕ) → s.place v ≡ idle → Inv s → Inv (record s { base = attached s.base v })
attach-Inv s v at inv =
    in_place s (attached s.base v) s.current v at refl
      (λ t n. contains-append_other s.base.server_threads v t n)
      (λ t e. contains-append s.base.server_threads v t e) (λ t n. refl) inv

change-Inv :
    (s : Threads) (v : ℕ) (b : Bool)
    → s.place v ≡ idle
    → Inv s
    → Inv (record s { current = update s.current v b })
change-Inv s v b at inv =
    in_place s s.base (update s.current v b) v at refl (λ t n. refl) (λ t e. e)
      (λ t n. rw (==-false v t n)) inv

enter-Inv :
    (s : Threads) (v : ℕ)
    → s.place v ≡ idle
    → Inv s
    → Inv (record s { place = update s.place v entered; tasks = update s.tasks v blocking })
enter-Inv s v at inv =
    steady s v idle entered at s.holder (update s.tasks v blocking) (λ t e. e)
      (λ t n. update-other s.tasks v t blocking n) (rw (==-refl v)) inv

point-Inv :
    (s : Threads) (v : ℕ)
    → s.place v ≡ entered
    → Inv s
    → Inv (record s { place = update s.place v (if sees_abort s v then unwinding else passed) })
point-Inv s v at inv = elim (Bool-cases (sees_abort s v)) [
  | inl e ↦ rw e (steady s v entered unwinding at s.holder s.tasks (λ t e. e) (λ t n. refl) tt inv)
  | inr e ↦ rw e (
      steady s v entered passed at s.holder s.tasks (λ t e. e) (λ t n. refl)
        (Inv-at s v entered inv at, λ c m a. absurd (let f : true ≡ false = rw (c, a) at e in cc))
        inv)
]

park-Inv :
    (s : Threads) (v : ℕ)
    → s.place v ≡ passed
    → Inv s
    → Inv (record s { place = update s.place v parked; tasks = update s.tasks v blocked })
park-Inv s v at inv =
    let h = Inv-at s v passed inv at in
    steady s v passed parked at s.holder (update s.tasks v blocked) (λ t e. e)
      (λ t n. update-other s.tasks v t blocked n)
      (λ e. Promised-moved s v passed parked at s.holder (update s.tasks v blocked) v (λ e. e) h.1)
      inv

resume-Inv :
    (s : Threads) (v : ℕ)
    → s.place v ≡ parked
    → Inv s
    → Inv (record s { place = update s.place v (if sees_abort s v then unwinding else idle) })
resume-Inv s v at inv = elim (Bool-cases (sees_abort s v)) [
  | inl e ↦ rw e (steady s v parked unwinding at s.holder s.tasks (λ t e. e) (λ t n. refl) tt inv)
  | inr e ↦ rw e (steady s v parked idle at s.holder s.tasks (λ t e. e) (λ t n. refl) tt inv)
]

step-Inv : (s s' : Threads) → Step s s' → Inv s → Inv s'
step-Inv s _ (attach t at free) inv = attach-Inv s t at inv
step-Inv s _ (change_server t b at) inv = change-Inv s t b at inv
step-Inv s _ (enter t at) inv = enter-Inv s t at inv
step-Inv s _ (abort_point t at) inv = point-Inv s t at inv
step-Inv s _ (retry t at) inv =
    steady s t passed idle at s.holder s.tasks (λ u e. e) (λ u n. refl) tt inv
step-Inv s _ (park t at) inv = park-Inv s t at inv
step-Inv s _ (resume t at runs) inv = resume-Inv s t at inv
step-Inv s _ (wake u awake) inv = wake-Inv s u awake inv
step-Inv s _ (store t (inl at)) inv = store-Inv s t idle at (λ u. refl) inv
step-Inv s _ (store t (inr at)) inv = store-Inv s t unwinding at (λ u. refl) inv
step-Inv s _ (lock_threads t at free) inv =
    steady s t storing (unparking s.base.server_threads) at (some t) s.tasks (λ u e. e)
      (λ u n. refl) tt inv
step-Inv s _ (unpark_next t u l at awake) inv = unpark-Inv s t u l at awake inv
step-Inv s _ (unlock_threads t at) inv =
    steady s t (unparking []) idle at none s.tasks (λ u e. e) (λ u n. refl) tt inv

Run-Inv : (s s' : Threads) → Run s s' → Inv s → Inv s'
Run-Inv s _ here inv = inv
Run-Inv s s' (later r p) inv = step-Inv _ s' p (Run-Inv s _ r inv)

-- No abort is missed, in any interleaving of any number of threads: a thread that is attached to an
-- aborted server and that is parked in its context, in the state `Blocked`, is going to be unparked
-- by a thread in `abort`, which either is still to lock `server_threads` or has the thread in what
-- is left of its loop.
pub no_abort_missed :
    (s : Threads) (t : ℕ)
    → Run start s
    → s.place t ≡ parked
    → s.tasks t ≡ blocked
    → s.current t ≡ true
    → contains s.base.server_threads t ≡ true
    → s.base.aborted ≡ true
    → Pending s t
no_abort_missed s t r at b = Inv-at s t parked (Run-Inv start s r (λ u. tt)) at b
