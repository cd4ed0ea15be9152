-- ===== src/Rpc/Aborts/Tests.antt =====
-- A thread that is woken by an abort, one that aborts itself, and a caller that nobody wakes.
use orpc_prototype.Prelude.{◌≡◌, refl, inl, ◌⊎◌, true, none, some, []}
use orpc_prototype.Sync.{blocking, blocked, update}
use orpc_prototype.Rpc.Aborts.{
  idle, entered, passed, parked, storing, unparking, Threads, attached, stored, Run, here, later,
  start, attach, change_server, enter, abort_point, retry, park, store, lock_threads,
  unlock_threads,
}
use orpc_prototype.Rpc.Aborts.Invariant.{Pending}
use orpc_prototype.Rpc.Aborts.Missed.{no_abort_missed}
use orpc_prototype.Rpc.Aborts.Spins.{Stuck, abort_spins}
use orpc_prototype.Rpc.Aborts.Unattached.{unattached_unwoken}

-- Thread 1 starts as a server thread.
abbrev joined : Threads
joined = record start { base = attached start.base 1; current = update start.current 1 true }

joined-Run : Run start joined
joined-Run = later (later here (attach 1 refl refl)) (change_server 1 true refl)

-- Thread 1 gets past the first abort point of `block_on`.
abbrev checked : Threads → Threads
checked s = record s {
  place = update (update s.place 1 entered) 1 passed;
  tasks = update s.tasks 1 blocking;
}

-- It parks, and then thread 2 begins to abort the server.
abbrev aborting : Threads → Threads
aborting s = record (checked s) {
  base = stored s.base;
  place = update (update (checked s).place 1 parked) 2 storing;
  tasks = update (checked s).tasks 1 blocked;
}

aborting-Run : Run start (aborting joined)
aborting-Run =
    later (later (later (later joined-Run (enter 1 refl)) (abort_point 1 refl)) (park 1 refl))
      (store 2 (inl refl))

no_abort_missed_example : Pending (aborting joined) 1
no_abort_missed_example = no_abort_missed (aborting joined) 1 aborting-Run refl refl refl refl refl

-- Thread 1 returns from `block_on` without parking, and then panics.
abbrev failing : Threads
failing = record (checked joined) {
  base = stored joined.base;
  place = update (update (checked joined).place 1 idle) 1 storing;
}

failing-Run : Run start failing
failing-Run =
    later (later (later (later joined-Run (enter 1 refl)) (abort_point 1 refl)) (retry 1 refl))
      (store 1 (inl refl))

abbrev looping : Threads
looping = record failing {
  holder = some 1;
  place = update failing.place 1 (unparking failing.base.server_threads);
}

abort_spins_example : Stuck looping 1 × ((looping.place 1 ≡ storing) ⊎ (looping.holder ≡ some 1))
abort_spins_example =
    abort_spins failing looping 1 failing-Run refl refl refl (later here (lock_threads 1 refl refl))

-- Thread 1 calls a method of the server without being attached, and parks in it; thread 2 aborts the
-- server, and nobody is going to wake thread 1.
abbrev called : Threads
called = record start { current = update start.current 1 true }

abbrev forgotten : Threads
forgotten = record (aborting called) {
  holder = none;
  place = update (update (aborting called).place 2 (unparking [])) 2 idle;
}

forgotten-Run : Run start forgotten
forgotten-Run =
    later
      (later
        (later
          (later
            (later (later (later here (change_server 1 true refl)) (enter 1 refl))
              (abort_point 1 refl))
            (park 1 refl))
          (store 2 (inl refl)))
        (lock_threads 2 refl refl))
      (unlock_threads 2 refl)

-- Nobody is in `abort` any more, and thread 1 is parked in the context of the aborted server.
forgotten_lem :
    (forgotten.place 1 ≡ parked)
    × (forgotten.tasks 1 ≡ blocked)
    × (forgotten.current 1 ≡ true)
    × (forgotten.base.aborted ≡ true)
    × (forgotten.place 2 ≡ idle)
forgotten_lem = (refl, refl, refl, refl, refl)

unattached_unwoken_example : ¬ Pending forgotten 1
unattached_unwoken_example = unattached_unwoken forgotten 1 forgotten-Run refl
