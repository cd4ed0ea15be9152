-- ===== src/Lib.antt =====
-- orpc-prototype: a prototype of ORPC (object RPC between servers in one process) and of OQueues
-- (observable queues), with a demo in which servers cache, evict and prefetch the blocks of a
-- device.
--
-- The program's parts:
-- - An OQueue (orpc/src/oqueue) is a bounded queue with any number of senders and receivers. On an
--   observable one, strong observers get every value and hold the senders back, and weak observers
--   look at the history that is still there. `LockingQueue` implements it as a ring under one
--   mutex.
-- - Tasks and blockers (orpc/src/sync): a task that cannot go on enters the wait list of each
--   handle that it waits for, asks each whether it should try again, and parks. Senders wake the
--   readers' list and readers the senders'.
-- - Servers (orpc/src/orpc_impl, and the code that the `orpc_impl` macro generates): an RPC method
--   runs in the server's context, a panic in it becomes an error and aborts the server, and abort
--   points make the server's threads unwind.
-- - The demo (prefetcher_demo/src): a cache server in front of a block device, with an eviction
--   policy and a prefetcher as servers of their own, all of them connected by OQueues and RPC.
--
-- The files:
-- - Prelude: the names that all modules share. Prelude/Tests has Boolean tests, Prelude/Lists
--   vectors, Prelude/Panics panics as values and checked arithmetic of a 64-bit `usize`,
--   Prelude/Every what holds of all elements of a list, Prelude/Maps maps, Prelude/Keys names and
--   members of lists.
-- - Cursor: `Cursor` of orpc/src/oqueue/mod.rs.
-- - Locking: orpc/src/oqueue/locking.rs, `LockingTableInner`, one function for each critical
--   section under its name in the source. Locking/Invariant has the representation invariant,
--   Locking/Effects what each operation does under it, Locking/Preserve that it is kept.
--   Locking/Spec is the abstract queue, and Locking/Calls, History, Receivers, Observers and
--   Refine show that the ring implements it. Locking/Ownership is about the slots of observers,
--   Locking/Reading, ReadStep and Order about the order of what is read, Locking/Weak about weak
--   observers, Locking/Unread about a ring without readers, Locking/Guarded about calls on the
--   mutex of a queue and Guarded/Poisoned about a panic in one, and Locking/Blocking relates
--   `should_try` to the `try_` methods.
-- - Handles: the queue around the ring with its wait lists, and the handles; Handles/Attach has
--   the `attach_` methods, Handles/Attach/Observing what attaching an observer does,
--   Handles/Contracts what the handles' operations do and whom they wake, and Handles/Blockers the
--   handles as blockers and the rounds of the blocking loops. Handles/Wakeups applies the
--   interleavings of Sync/Wakeup to the handles of any number of queues, with Quiet on what makes
--   a reader ready, and Readers and Senders on what those wait for; Handles/Wakeups/Ring does so
--   for queues that are rings.
-- - Sync: orpc/src/sync/task.rs and blocker.rs; Sync/Mutex is the mutex of sync/mod.rs;
--   Sync/WaitList and Sync/BlockOn have the lemmas. Sync/Select is the code that
--   orpc_macros/src/select.rs generates. Sync/Wakeup has the interleavings of any number of tasks
--   that wait for any handles, one step for what happens under one lock, and its Invariant, Steps,
--   Wakes and Safety that no wake-up is lost; Progress says when a pending wake-up is carried out.
-- - Registry: orpc/src/oqueue/registry.rs.
-- - Rpc: orpc/src/orpc_impl/framework.rs and errors.rs, and orpc_macros/src/orpc_impl.rs;
--   Rpc/Calls is about method calls and Rpc/Threads about server threads. Rpc/Aborts has the
--   interleavings of an abort with the threads of the process; its Invariant, Steps and Missed
--   show what a parked thread is told, Spins when an abort does not end, and Unattached whom it
--   does not wake.
-- - Macros: orpc_macros/src/parsing_utils.rs, with the parts of Rust's syntax that the attribute
--   macros read; Macros/Trait is orpc_trait.rs, Macros/Server orpc_server.rs and Macros/Impl
--   orpc_impl.rs, each with a child on what it generates and when it reports errors
--   (Macros/Trait/Accepts, Trait/Queues, Server/Internals and Impl/Methods); Macros/Accessors puts
--   the three together.
-- - Demo: prefetcher_demo/src/block_device.rs and shutdown.rs; Demo/Cache is cache.rs,
--   Demo/Eviction eviction_policy.rs, Demo/Prefetch prefetch_policy.rs, Demo/Disk disk.rs (with
--   Demo/Disk/Calls and Demo/Cache/Calls a read through the cache and the disk as a whole),
--   Demo/Spawn the `spawn` functions of all of them, and Demo/Main main.rs: Demo/Main/Policies and
--   Reach about the prefetchers that run, Demo/Main/Client about the reads, Demo/Main/Frames about
--   the interface's frames and Demo/Main/Refused about a prefetcher that cannot be spawned.
-- - A module Tests in each part has runs on concrete inputs and uses of the theorems.
--
-- The modelling: code that changes state takes the state and returns the new one; panics are
-- values of `Outcome` or `Unwound`; a loop that waits for another thread is a value of `Loop`,
-- which says whether it ends. An operation of a queue is atomic, as the mutex makes it; what tasks
-- do is given as a sequence of calls or, in the interleavings, as a sequence of steps. Loops are
-- structural recursions, so no fuel is needed. `usize` has 64 bits, and overflow is checked as a
-- debug build does. Tasks, threads, servers and reply handles are named by numbers.
--
-- Not modelled: the memory model of the atomics, the printing, the drawing of the interface of
-- prefetcher_demo/src/main.rs, the parser and the printer of Rust's syntax (the macros are
-- functions between data types), and the syntax of `select!`. In the interleavings of Sync/Wakeup
-- no server is aborted; those of Rpc/Aborts have no queues, and any blocker's wake-up may come at
-- any time.
pub mod Prelude
pub mod Cursor
pub mod Locking
pub mod Handles
pub mod Macros
pub mod Sync
pub mod Rpc
pub mod Registry
pub mod Demo
