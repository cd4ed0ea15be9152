-- ===== src/Sync/BlockOn.antt =====
-- What a call of `block_on` leaves in the wait lists and in the task's state.
use orpc_prototype.Prelude.{
  ℕ, zero, suc, ◌≡◌, refl, ap, Bool, true, false, List, [], ◌∷◌, ◌++◌, map, done, length, ==-refl,
  length-append, get_elem?-append_mid, set-append_mid,
}
use mathlib.Core.List.{append_assoc}
use native.Mathlib.Numerals.{add-one}
use orpc_prototype.Sync.{
  Tasks, blocking, blocked, update, spinning, contains, add_task, finish_waits, prepare_each,
  queue_at, park, settle, block_on, retry, parked, aborted, unpark_each,
}
use orpc_prototype.Sync.WaitList.{remove_task-add_task, remove_task-absent, unpark_each-spinning}

queue_at-mid :
    (pre : List (List ℕ)) (l : List ℕ) (post : List (List ℕ))
    → queue_at (pre ++ (l ∷ post)) (length pre) ≡ l
queue_at-mid pre l post = rw (get_elem?-append_mid pre l post, queue_at)

-- Once the task is out of the list, going round again changes nothing.
finish_waits-absent :
    (n t : ℕ) (pre : List (List ℕ)) (l : List ℕ) (post : List (List ℕ))
    → contains l t ≡ false
    → finish_waits n (length pre) t (pre ++ (l ∷ post)) ≡ pre ++ (l ∷ post)
unfolding finish_waits
finish_waits-absent zero t pre l post e = refl
finish_waits-absent (suc n) t pre l post e =
    rw (queue_at-mid pre l post, remove_task-absent l t e, set-append_mid pre l l post)
      (finish_waits-absent n t pre l post e)

finish_waits-added :
    (n t : ℕ) (pre : List (List ℕ)) (l : List ℕ) (post : List (List ℕ))
    → contains l t ≡ false
    → finish_waits (suc n) (length pre) t (pre ++ (add_task l t ∷ post)) ≡ pre ++ (l ∷ post)
unfolding finish_waits
finish_waits-added n t pre l post e =
    rw
      (
        queue_at-mid pre (add_task l t) post,
        remove_task-add_task l t e,
        set-append_mid pre (add_task l t) l post,
      )
      (finish_waits-absent n t pre l post e)

-- The wait lists of blockers that the task waits for.
abbrev pub entered : ℕ → List (List ℕ) → List (List ℕ)
entered t lists = map (λ l. add_task l t) lists

-- The answers of blockers of which none is ready.
abbrev pub none_ready : List (List ℕ) → List Bool
none_ready [] = []
none_ready (l ∷ ls) = false ∷ none_ready ls

prepare_each-none :
    (t : ℕ) (pre lists : List (List ℕ))
    → prepare_each t (length pre) (none_ready lists) (pre ++ lists)
      ≡ (parked, pre ++ entered t lists)
unfolding prepare_each
prepare_each-none t pre [] = refl
prepare_each-none t pre (l ∷ ls) =
    let x = add_task l t in
    rw (queue_at-mid pre l ls, set-append_mid pre l x ls)
      (rw
        (
          length-append pre (x ∷ []),
          append_assoc pre (x ∷ []) ls,
          append_assoc pre (x ∷ []) (entered t ls),
        )
        at (prepare_each-none t (pre ++ (x ∷ [])) ls))

prepare_each-ready :
    (t : ℕ) (pre before : List (List ℕ)) (l : List ℕ) (after : List (List ℕ)) (others : List Bool)
    → contains l t ≡ false
    → prepare_each t
        (length pre)
        (none_ready before ++ (true ∷ others))
        (pre ++ (before ++ (l ∷ after)))
      ≡ (retry, pre ++ (entered t before ++ (l ∷ after)))
unfolding prepare_each
prepare_each-ready t pre [] l after others e =
    rw (queue_at-mid pre l after, set-append_mid pre l (add_task l t) after, add-one)
      (ap (λ (ls : List (List ℕ)). (retry, ls)) (finish_waits-added (length pre) t pre l after e))
prepare_each-ready t pre (b ∷ before) l after others e =
    let x = add_task b t in
    rw (queue_at-mid pre b (before ++ (l ∷ after)), set-append_mid pre b x (before ++ (l ∷ after)))
      (rw
        (
          length-append pre (x ∷ []),
          append_assoc pre (x ∷ []) (before ++ (l ∷ after)),
          append_assoc pre (x ∷ []) (entered t before ++ (l ∷ after)),
        )
        at (prepare_each-ready t (pre ++ (x ∷ [])) before l after others e))

park-done :
    (tasks : Tasks) (t : ℕ) → tasks t ≡ blocking → park tasks t ≡ done (update tasks t blocked)
unfolding park
park-done tasks t e = rw (e, park)

-- If no blocker is ready, the task parks: it is in the wait list of every blocker, and its state is
-- `Blocked`. The assertion of `park` holds.
pub block_on-parks :
    (t : ℕ) (tasks : Tasks) (lists : List (List ℕ))
    → block_on false t (none_ready lists) tasks lists
      ≡ done (parked, update (update tasks t blocking) t blocked, entered t lists)
unfolding block_on
block_on-parks t tasks lists =
    rw
      (prepare_each-none t [] lists, settle, park-done (update tasks t blocking) t (rw (==-refl t)))

-- If the blocker behind those in `before` is the first that is ready, and the task was not waiting
-- for it, the call returns. The task has left the wait list of that blocker, but it stays in those
-- of all blockers before it; and its state is still `Blocking`.
pub block_on-returns :
    (t : ℕ) (tasks : Tasks) (before : List (List ℕ)) (l : List ℕ) (after : List (List ℕ))
    (others : List Bool)
    → contains l t ≡ false
    → block_on false t (none_ready before ++ (true ∷ others)) tasks (before ++ (l ∷ after))
      ≡ done (retry, update tasks t blocking, entered t before ++ (l ∷ after))
unfolding block_on
block_on-returns t tasks before l after others e =
    rw (prepare_each-ready t [] before l after others e, settle)

-- A task that calls `block_on` after its server was aborted unwinds in the state `Blocking`, and a
-- loop of `unpark` over a list with this task, such as the `abort` that its own thread then calls,
-- does not end.
pub block_on-aborted :
    (t : ℕ) (answers : List Bool) (tasks : Tasks) (lists : List (List ℕ)) (threads : List ℕ)
    → contains threads t ≡ true
    → (tasks' : Tasks) × (block_on true t answers tasks lists ≡ done (aborted, tasks', lists))
      × ((u : ℕ) × (unpark_each tasks' threads ≡ spinning u))
unfolding block_on
block_on-aborted t answers tasks lists threads e =
    let entering = update tasks t blocking in
    (entering, refl, unpark_each-spinning entering threads t e (rw (==-refl t)))
