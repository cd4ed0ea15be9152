-- ===== src/Rpc/Aborts/Steps.antt =====
-- What the steps that change the server, or the state of a task, keep of the invariant.
use orpc_prototype.Prelude.{
  ℕ, ◌≡◌, ◌≢◌, refl, sym, ap, ◌∙◌, subst, Bool, true, false, List, ◌∷◌, ==-false, ==-refl,
  ℕ_discrete,
}
use orpc_prototype.Sync.{Tasks, TaskState, running, blocking, update, contains}
use orpc_prototype.Rpc.{ServerBase}
use orpc_prototype.Rpc.Aborts.{
  Place, idle, entered, passed, parked, unwinding, storing, unparking, Threads, stored,
}
use orpc_prototype.Rpc.Aborts.Invariant.{
  unparks, Pending, Holds, Inv, Holds-Keeps, Holds-running, moved, Promised-moved,
}

pub update-other : (tasks : Tasks) (v t : ℕ) (x : TaskState) → v ≢ t → update tasks v x t ≡ tasks t
update-other tasks v t x n = rw (==-false v t n)

-- A step in which no thread moves and no state of a task changes.
pub in_place :
    (s : Threads) (base : ServerBase) (current : ℕ → Bool) (v : ℕ)
    → s.place v ≡ idle
    → base.aborted ≡ s.base.aborted
    → ((t : ℕ) → v ≢ t → contains base.server_threads t ≡ contains s.base.server_threads t)
    → ((t : ℕ) → contains s.base.server_threads t ≡ true → contains base.server_threads t ≡ true)
    → ((t : ℕ) → v ≢ t → current t ≡ s.current t)
    → Inv s
    → Inv (record s { base = base; current = current })
in_place s base current v at aborts listed grows same inv t = elim (ℕ_discrete v t) [
  | yes q ↦ subst (λ p. Holds after t p) (sym (ap s.place (sym q) ∙ at)) tt
  | no n ↦
      Holds-Keeps s after t (s.place t)
        (
          (λ e. e),
          (λ e. e),
          λ h c m a. keep t (h (sym (same t n) ∙ c) (sym (listed t n) ∙ m) (sym aborts ∙ a)),
        )
        (inv t)
]
  where
    after : Threads
    after = record s { base = base; current = current }

    goes :
        (t : ℕ) (p : Place)
        → unparks s.base.server_threads p t ≡ true
        → unparks base.server_threads p t ≡ true
    goes t storing e = grows t e
    goes t (unparking l) e = e
    goes t idle e = e
    goes t entered e = e
    goes t passed e = e
    goes t parked e = e
    goes t unwinding e = e

    keep : (t : ℕ) → Pending s t → Pending after t
    keep t (u, e) = (u, goes t (s.place u) e)

pub store-Inv :
    (s : Threads) (v : ℕ) (p : Place)
    → s.place v ≡ p
    → ((t : ℕ) → unparks s.base.server_threads p t ≡ false)
    → Inv s
    → Inv (record s { base = stored s.base; place = update s.place v storing })
store-Inv s v p at none_yet inv =
    moved s v p storing at after refl tt
      (λ t n h.
        Holds-Keeps s after t (s.place t) ((λ e. e), (λ e. e), λ h' c m a. (v, rw (==-refl v) m)) h)
      inv
  where
    after : Threads
    after = record s { base = stored s.base; place = update s.place v storing }

pub unpark-Inv :
    (s : Threads) (t v : ℕ) (l : List ℕ)
    → s.place t ≡ unparking (v ∷ l)
    → s.tasks v ≢ blocking
    → Inv s
    → Inv (record s { place = update s.place t (unparking l); tasks = update s.tasks v running })
unpark-Inv s t v l at awake inv =
    moved s t (unparking (v ∷ l)) (unparking l) at after refl tt others inv
  where
    after : Threads
    after = record s { place = update s.place t (unparking l); tasks = update s.tasks v running }

    others : (u : ℕ) → t ≢ u → Holds s u (s.place u) → Holds after u (s.place u)
    others u n h = elim (ℕ_discrete v u) [
      | yes e ↦
          Holds-running s after u (s.place u) (λ b. awake (ap s.tasks e ∙ b)) (rw (e, ==-refl u)) h
      | no m ↦
          Holds-Keeps s after u (s.place u)
            (
              (λ e. update-other s.tasks v u running m ∙ e),
              (λ e. sym (update-other s.tasks v u running m) ∙ e),
              Promised-moved s t (unparking (v ∷ l)) (unparking l) at s.holder
                  (update s.tasks v running) u (λ e. rw (==-false v u m) at e),
            )
            h
    ]

pub wake-Inv :
    (s : Threads) (v : ℕ)
    → s.tasks v ≢ blocking
    → Inv s
    → Inv (record s { tasks = update s.tasks v running })
wake-Inv s v awake inv u = elim (ℕ_discrete v u) [
  | yes e ↦
      Holds-running s after u (s.place u) (λ b. awake (ap s.tasks e ∙ b)) (rw (e, ==-refl u))
        (inv u)
  | no m ↦
      Holds-Keeps s after u (s.place u)
        (
          (λ e. update-other s.tasks v u running m ∙ e),
          (λ e. sym (update-other s.tasks v u running m) ∙ e),
          λ h. h,
        )
        (inv u)
]
  where
    after : Threads
    after = record s { tasks = update s.tasks v running }
