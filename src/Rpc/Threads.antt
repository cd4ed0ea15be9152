-- ===== src/Rpc/Threads.antt =====
-- What `spawn_thread` makes of the ways in which the body of a server thread ends.
use orpc_prototype.Prelude.{ℕ, ◌≡◌, refl, ap, ◌∙◌, Bool, true, false, Option}
use Prim.Native.String.{String}
use orpc_prototype.Sync.{finished}
use orpc_prototype.Sync.WaitList.{NoneBlocking}
use orpc_prototype.Rpc.{
  Result, ok, err, Unwound, returned, unwound, World, is_aborted, attach_task, enter_server_context,
  leave_server_context, ThreadBody, end_thread, run_thread,
}
use orpc_prototype.Rpc.Calls.{abort_lem, threads_of, update_self}

-- The body returned an error or panicked.
abbrev pub failed : Unwound (Result (Unit {0}) String) → Bool
failed (returned (ok u)) = false
failed (returned (err e)) = true
failed (unwound payload) = true

-- How a thread ends: its server context is the one it had, and its server is aborted if the body
-- failed and otherwise all servers are as the body left them.
abbrev pub Ended : Unwound (Result (Unit {0}) String) → World → World → ℕ → ℕ → Option ℕ → Type 0
Ended r w w' s t guard =
    (w'.current t ≡ guard)
    × (failed r ≡ true → (w'.servers s).aborted ≡ true)
    × (failed r ≡ false → (u : ℕ) → w'.servers u ≡ w.servers u)

end_thread_lem :
    (r : Unwound (Result (Unit {0}) String)) (w : World) (s t : ℕ) (guard : Option ℕ)
    → NoneBlocking w.tasks (threads_of w s)
    → (w' : World) × (end_thread s t guard (r, w) ≡ finished w') × Ended r w w' s t guard
unfolding end_thread is_aborted leave_server_context
end_thread_lem (returned (ok u)) w s t guard h = (
  leave_server_context w t guard,
  refl,
  (update_self w.current t guard, λ p. absurd (cc), λ p v. refl),
)
end_thread_lem (returned (err e)) w s t guard h =
    let (w', ends, dead, woken, others, same) = abort_lem w s h in
    (
      leave_server_context w' t guard,
      rw (ends, end_thread),
      (update_self w'.current t guard, λ p. dead, λ p. absurd (cc)),
    )
end_thread_lem (unwound payload) w s t guard h =
    let (w', ends, dead, woken, others, same) = abort_lem (leave_server_context w t guard) s h in
    (
      w',
      ends,
      (
        ap (λ (c : ℕ → Option ℕ). c t) same ∙ update_self w.current t guard,
        λ p. dead,
        λ p. absurd (cc),
      ),
    )

-- A server thread whose body ends with the result `r`, when no thread of its server is in the state
-- `Blocking`, ends too. If the body returned an error or panicked, the server is aborted; if it
-- returned `Ok`, every server is as the body left it. Either way the thread is back in the server
-- context that it had.
pub run_thread_lem :
    (s t : ℕ) (body : ThreadBody) (w w₂ : World) (r : Unwound (Result (Unit {0}) String))
    → body (enter_server_context (attach_task w s t) t s).0 ≡ (r, w₂)
    → NoneBlocking w₂.tasks (threads_of w₂ s)
    → (w' : World) × (run_thread s body w t ≡ finished w') × Ended r w₂ w' s t (w.current t)
unfolding run_thread enter_server_context attach_task
run_thread_lem s t body w w₂ r runs h =
    let (w', e, f) = end_thread_lem r w₂ s t (w.current t) h in (w', rw (runs, end_thread) e, f)
