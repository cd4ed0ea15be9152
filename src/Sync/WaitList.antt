-- ===== src/Sync/WaitList.antt =====
-- Wait lists as sets of tasks: entering, leaving, and waking.
use orpc_prototype.Prelude.{
  ℕ, ◌≡◌, ◌≢◌, refl, sym, ap, ◌∙◌, subst, ◌⊎◌, inl, inr, arith, Bool, true, false, ◌||◌, List, [],
  ◌∷◌, ◌++◌, ◌==◌, if◌then◌else◌, All, Bool-cases, ==-false, ==-refl, or-false, ℕ_discrete,
}
use orpc_prototype.Sync.{
  Tasks, TaskState, running, blocking, blocked, update, finished, spinning, unpark, unpark_each,
  contains, add_task, remove_task,
}

contains-append_last : (l : List ℕ) (t : ℕ) → contains (l ++ (t ∷ [])) t ≡ true
contains-append_last [] t = rw (==-refl t)
contains-append_last (u ∷ l) t = elim (Bool-cases (u == t)) [
  | inl e ↦ rw e
  | inr e ↦ rw e (contains-append_last l t)
]

pub contains-append_other :
    (l : List ℕ) (t u : ℕ) → t ≢ u → contains (l ++ (t ∷ [])) u ≡ contains l u
contains-append_other [] t u n = rw (==-false t u n)
contains-append_other (v ∷ l) t u n = rw (contains-append_other l t u n)

pub contains-append :
    (l : List ℕ) (v t : ℕ) → contains l t ≡ true → contains (l ++ (v ∷ [])) t ≡ true
contains-append l v t e = elim (ℕ_discrete v t) [
  | yes q ↦ subst (λ k. contains (l ++ (v ∷ [])) k ≡ true) q (contains-append_last l v)
  | no n ↦ contains-append_other l v t n ∙ e
]

-- After `add_task` the task is in the list, and the others are as before.
pub contains-add_task :
    (l : List ℕ) (t u : ℕ) → contains (add_task l t) u ≡ (t == u || contains l u)
unfolding add_task
contains-add_task l t u = elim (Bool-cases (contains l t)) [
  | inl e ↦
      rw e (elim (ℕ_discrete t u) [ yes p ↦ rw (← p, ==-refl t) e | no n ↦ rw (==-false t u n) ])
  | inr e ↦ rw e (elim (ℕ_discrete t u) [
    | yes p ↦ rw (← p, ==-refl t) (contains-append_last l t)
    | no n ↦ rw (==-false t u n) (contains-append_other l t u n)
  ])
]

remove_task-append : (l : List ℕ) (t : ℕ) → contains l t ≡ false → remove_task (l ++ (t ∷ [])) t ≡ l
unfolding remove_task
remove_task-append [] t e = rw (==-refl t)
remove_task-append (u ∷ l) t e =
    let (here, there) = or-false (u == t) (contains l t) e in
    rw (here, remove_task-append l t there)

-- A task that was not waiting leaves the list as it was.
pub remove_task-add_task :
    (l : List ℕ) (t : ℕ) → contains l t ≡ false → remove_task (add_task l t) t ≡ l
unfolding add_task
remove_task-add_task l t e = rw e (remove_task-append l t e)

pub remove_task-absent : (l : List ℕ) (t : ℕ) → contains l t ≡ false → remove_task l t ≡ l
unfolding remove_task
remove_task-absent [] t e = refl
remove_task-absent (u ∷ l) t e =
    let (here, there) = or-false (u == t) (contains l t) e in
    rw (here, remove_task-absent l t there)

pub remove_task-other : (l : List ℕ) (t u : ℕ) → t ≢ u → contains (remove_task l t) u ≡ contains l u
unfolding remove_task
remove_task-other [] t u n = refl
remove_task-other (v ∷ l) t u n = elim (ℕ_discrete v t) [
  | yes p ↦ rw (p, ==-refl t, ==-false t u n)
  | no m ↦ rw (==-false v t m, remove_task-other l t u n)
]

-- No task of the list is in the state `Blocking`.
abbrev pub NoneBlocking : Tasks → List ℕ → Type 0
NoneBlocking tasks l = All (λ t. tasks t ≢ blocking) l

update-keeps :
    (tasks : Tasks) (t : ℕ) (l : List ℕ)
    → NoneBlocking tasks l
    → NoneBlocking (update tasks t running) l
update-keeps tasks t [] h = tt
update-keeps tasks t (u ∷ l) h = (here (Bool-cases (t == u)), update-keeps tasks t l h.1)
  where
    here : ((t == u) ≡ true) ⊎ ((t == u) ≡ false) → update tasks t running u ≢ blocking
    here (inl e) = rw e (λ p. cc)
    here (inr e) = rw e h.0

if-or {ℓ} :
    {A : Type ℓ} (c d : Bool) (x y : A)
    → (if c then x else if d then x else y) ≡ (if d || c then x else y)
if-or true true x y = refl
if-or true false x y = refl
if-or false true x y = refl
if-or false false x y = refl

unpark-done :
    (tasks : Tasks) (t : ℕ)
    → tasks t ≢ blocking
    → unpark tasks t ≡ finished (update tasks t running)
unfolding unpark
unpark-done tasks t n = ground arith

-- `unpark` of a task that is in the state `Blocking` goes round.
pub unpark-spinning : (tasks : Tasks) (t : ℕ) → tasks t ≡ blocking → unpark tasks t ≡ spinning t
unfolding unpark
unpark-spinning tasks t e = rw (e, unpark)

-- If no task of the list is in the state `Blocking`, the loop ends; it makes the tasks of the list
-- running and leaves the others as they are.
pub unpark_each_lem :
    (tasks : Tasks) (l : List ℕ)
    → NoneBlocking tasks l
    → (tasks' : Tasks) × (unpark_each tasks l ≡ finished tasks')
      × ((u : ℕ) → tasks' u ≡ (if contains l u then running else tasks u))
unfolding unpark_each
unpark_each_lem tasks [] h = (tasks, refl, λ u. refl)
unpark_each_lem tasks (t ∷ ts) h =
    let (tasks', e, f) =
      unpark_each_lem (update tasks t running) ts (update-keeps tasks t ts h.1) in
    (
      tasks',
      rw (unpark-done tasks t h.0, unpark_each) e,
      λ u. f u ∙ if-or (contains ts u) (t == u) running (tasks u),
    )

unpark-cases : (tasks : Tasks) (t : ℕ) → (tasks t ≡ blocking) ⊎ (tasks t ≢ blocking)
unpark-cases tasks t = go (tasks t) refl
  where
    go : (s : TaskState) → tasks t ≡ s → (tasks t ≡ blocking) ⊎ (tasks t ≢ blocking)
    go blocking h = inl h
    go running h = inr (λ p. let clash : running ≡ blocking = sym h ∙ p in cc)
    go blocked h = inr (λ p. let clash : blocked ≡ blocking = sym h ∙ p in cc)

-- A loop over a list with a task in the state `Blocking` does not end: it goes round at that task
-- or at one before it.
pub unpark_each-spinning :
    (tasks : Tasks) (l : List ℕ) (t : ℕ)
    → contains l t ≡ true
    → tasks t ≡ blocking
    → (u : ℕ) × (unpark_each tasks l ≡ spinning u)
unfolding unpark_each
unpark_each-spinning tasks [] t e b = absurd (cc)
unpark_each-spinning tasks (v ∷ vs) t e b = elim (unpark-cases tasks v) [
  | inl h ↦ (v, rw (unpark-spinning tasks v h, unpark_each))
  | inr n ↦
      let differ = ==-false v t (λ p. n (ap tasks p ∙ b)) in
      let (u, f) =
        unpark_each-spinning (update tasks v running) vs t (rw differ at e) (rw differ b) in
      (u, rw (unpark-done tasks v n, unpark_each) f)
]
