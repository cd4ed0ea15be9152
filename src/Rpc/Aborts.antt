-- ===== src/Rpc/Aborts.antt =====
-- orpc/src/orpc_impl/framework.rs with orpc/src/sync/blocker.rs and task.rs: the interleavings of an
-- abort of one server with the threads of the process that attach to it, enter and leave its context
-- and wait in `block_on`. A step is what happens under one lock, or one access of `aborted`; the
-- mutex of `server_threads` is held for all of the loop of `abort`, so it has a holder.
pub mod Invariant
pub mod Steps
pub mod Missed
pub mod Spins
pub mod Unattached
mod Tests
use orpc_prototype.Prelude.{
  ℕ, ◌≡◌, ◌≢◌, ◌⊎◌, Bool, true, false, ◌&&◌, Option, none, some, List, [], ◌∷◌, ◌++◌, if◌then◌else◌,
}
use orpc_prototype.Sync.{Tasks, running, blocking, blocked, update}
use orpc_prototype.Rpc.{ServerBase, new_base}

-- Where a thread is.
pub data Place : Type 0 where
  -- Outside `block_on` and `abort`.
  idle : Place
  -- In `block_on`: before its first abort point, after it, and in `park`.
  entered passed parked : Place
  -- Unwinding from an abort point, up to the `catch_unwind`.
  unwinding : Place
  -- In `abort`, before it locks `server_threads`.
  storing : Place
  -- In the loop of `abort`, with the threads still to unpark.
  unparking : List ℕ → Place

pub record Threads : Type 0 where
  pub base : ServerBase
  -- The thread that has the mutex of `server_threads` during its `abort`.
  pub holder : Option ℕ
  -- Whether the server is the thread's `CURRENT_SERVER`.
  pub current : ℕ → Bool
  pub place : ℕ → Place
  pub tasks : Tasks

abbrev pub attached : ServerBase → ℕ → ServerBase
attached b t = record b { server_threads = b.server_threads ++ (t ∷ []) }

abbrev pub stored : ServerBase → ServerBase
stored b = record b { aborted = true }

-- What `CurrentServer::abort_point` finds.
abbrev pub sees_abort : Threads → ℕ → Bool
sees_abort s t = s.current t && s.base.aborted

pub data Step (s : Threads) : Threads → Type 0 where
  -- `attach_task`
  attach :
      (t : ℕ) → s.place t ≡ idle → s.holder ≡ none → Step s (record s { base = attached s.base t })
  -- `enter_server_context`, and the drop of its guard, for this server and for others.
  change_server :
      (t : ℕ) (b : Bool) → s.place t ≡ idle → Step s (record s { current = update s.current t b })
  enter :
      (t : ℕ)
      → s.place t ≡ idle
      → Step s (record s { place = update s.place t entered; tasks = update s.tasks t blocking })
  abort_point :
      (t : ℕ)
      → s.place t ≡ entered
      → Step s
          (record s { place = update s.place t (if sees_abort s t then unwinding else passed) })
  -- `block_on` returns because `should_try` of a blocker holds.
  retry : (t : ℕ) → s.place t ≡ passed → Step s (record s { place = update s.place t idle })
  park :
      (t : ℕ)
      → s.place t ≡ passed
      → Step s (record s { place = update s.place t parked; tasks = update s.tasks t blocked })
  -- `park` returns, and the second abort point.
  resume :
      (t : ℕ)
      → s.place t ≡ parked
      → s.tasks t ≡ running
      → Step s (record s { place = update s.place t (if sees_abort s t then unwinding else idle) })
  -- `unpark` by a blocker's `wake_all`.
  wake : (u : ℕ) → s.tasks u ≢ blocking → Step s (record s { tasks = update s.tasks u running })
  -- `abort` stores the flag: after an error or a panic of the thread's own, or after the unwinding.
  store :
      (t : ℕ)
      → (s.place t ≡ idle) ⊎ (s.place t ≡ unwinding)
      → Step s (record s { base = stored s.base; place = update s.place t storing })
  lock_threads :
      (t : ℕ)
      → s.place t ≡ storing
      → s.holder ≡ none
      → Step s
          (record s { holder = some t; place = update s.place t (unparking s.base.server_threads) })
  -- `unpark` goes round while the task's state is `Blocking`.
  unpark_next :
      (t u : ℕ) (l : List ℕ)
      → s.place t ≡ unparking (u ∷ l)
      → s.tasks u ≢ blocking
      → Step s
          (record s { place = update s.place t (unparking l); tasks = update s.tasks u running })
  unlock_threads :
      (t : ℕ)
      → s.place t ≡ unparking []
      → Step s (record s { holder = none; place = update s.place t idle })

-- The sequences of steps.
pub data Run (s : Threads) : Threads → Type 0 where
  here : Run s s
  later : {s' s'' : Threads} → Run s s' → Step s' s'' → Run s s''

pub Run-append : (s s' s'' : Threads) → Run s s' → Run s' s'' → Run s s''
Run-append s s' _ r here = r
Run-append s s' s'' r (later q p) = later (Run-append s s' _ r q) p

-- A new server, with all tasks running and outside of it.
abbrev pub start : Threads
start = record {
  base = record { aborted = false; server_threads = []; referenced = true };
  holder = none;
  current = λ t. false;
  place = λ t. idle;
  tasks = λ t. running;
}
