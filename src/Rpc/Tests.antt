-- ===== src/Rpc/Tests.antt =====
-- Runs of RPC methods and server threads, and uses of their theorems.
use orpc_prototype.Prelude.{ℕ, ◌≡◌, refl, true, false, none, some, [], ◌∷◌, ◌==◌, if◌then◌else◌}
use orpc_prototype.Sync.{running, blocked, update, finished}
use orpc_prototype.Sync.WaitList.{NoneBlocking}
use orpc_prototype.Rpc.{
  str, RpcError, server_missing, from_panic, Result, ok, err, Unwound, returned, unwound, World,
  is_aborted, attach_task, enter_server_context, leave_server_context, conclude, call, run_thread,
  ThreadBody,
}
use orpc_prototype.Rpc.Calls.{call-panics}
use orpc_prototype.Rpc.Threads.{Ended, run_thread_lem}

-- Server 1 has the threads 5 and 6, of which 6 waits, and thread 9 is its client in server 2.
abbrev world : World
world = record {
  servers = λ s.
      if s == 1
      then record { aborted = false; server_threads = 5 ∷ 6 ∷ []; referenced = true }
      else record { aborted = false; server_threads = []; referenced = true };
  tasks = λ t. if t == 6 then blocked else running;
  current = λ t. if t == 9 then some 2 else none;
}

abbrev into : RpcError → RpcError
into e = e

-- The addition method of a server.
abbrev answers : World → Unwound (Result ℕ RpcError) × World
answers w = (returned (ok 7), w)

abbrev panics : World → Unwound (Result ℕ RpcError) × World
panics w = (unwound (str "no"), w)

answers_test :
    call into 1 answers world 9
    ≡ finished
        (ok 7, record world { current = update (update world.current 9 (some 1)) 9 (some 2) })
unfolding call conclude is_aborted enter_server_context leave_server_context
answers_test = refl

awake : (w : World) → (w.tasks ≡ world.tasks) → NoneBlocking w.tasks (5 ∷ 6 ∷ [])
awake w e = (rw e (λ p. cc), (rw e (λ p. cc), tt))

call-panics_example :
    (w' : World) × (call into 1 panics world 9 ≡ finished (err (into (from_panic (str "no"))), w'))
    × (w'.current 9 ≡ some 2)
    × ((later : World → Unwound (Result ℕ RpcError) × World) (u : ℕ)
        → call into 1 later w' u ≡ finished (err (into server_missing), w'))
unfolding is_aborted enter_server_context
call-panics_example =
    call-panics into 1 panics world (enter_server_context world 9 1).0 9 (str "no") refl refl
      (awake (enter_server_context world 9 1).0 refl)

abbrev fails : ThreadBody
fails w = (returned (err "out of blocks"), w)

abbrev started : World
started = (enter_server_context (attach_task world 1 6) 6 1).0

run_thread_lem_example :
    (w' : World) × (run_thread 1 fails world 6 ≡ finished w')
    × Ended (returned (err "out of blocks")) started w' 1 6 none
unfolding enter_server_context attach_task
run_thread_lem_example =
    run_thread_lem 1 6 fails world started (returned (err "out of blocks")) refl
      ((λ p. cc), ((λ p. cc), ((λ p. cc), tt)))
