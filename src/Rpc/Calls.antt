-- ===== src/Rpc/Calls.antt =====
-- What a caller of an RPC method can rely on: failure by panic, and the current server.
use orpc_prototype.Prelude.{
  ℕ, ◌≡◌, ◌≢◌, refl, sym, ap, ◌∙◌, inl, inr, arith, true, false, Option, List, if◌then◌else◌,
  Bool-cases, ==-false, ==-refl,
}
use orpc_prototype.Sync.{running, update, Loop, finished, contains}
use orpc_prototype.Sync.WaitList.{NoneBlocking, unpark_each_lem}
use orpc_prototype.Rpc.{
  Payload, RpcError, server_missing, from_panic, Result, err, Unwound, unwound, World, is_aborted,
  abort, enter_server_context, leave_server_context, conclude, call,
}

pub update_self {ℓ} : {A : Type ℓ} (f : ℕ → A) (i : ℕ) (a : A) → update f i a i ≡ a
update_self f i a = rw (==-refl i)

abbrev pub threads_of : World → ℕ → List ℕ
threads_of w s = (w.servers s).server_threads

-- If no thread of the server is in the state `Blocking`, `abort` ends. The server is then aborted,
-- its threads are running, no other task has changed, and no other server.
pub abort_lem :
    (w : World) (s : ℕ)
    → NoneBlocking w.tasks (threads_of w s)
    → (w' : World) × (abort w s ≡ finished w')
      × (is_aborted w' s ≡ true)
      × ((t : ℕ) → w'.tasks t ≡ (if contains (threads_of w s) t then running else w.tasks t))
      × ((r : ℕ) → s ≢ r → w'.servers r ≡ w.servers r)
      × (w'.current ≡ w.current)
unfolding abort is_aborted
abort_lem w s h =
    let (tasks', e, f) = unpark_each_lem w.tasks (w.servers s).server_threads h in
    (
      record w {
        servers = update w.servers s (record (w.servers s) { aborted = true });
        tasks = tasks';
      },
      rw (e, abort),
      rw (==-refl s, is_aborted),
      f,
      λ r n. rw (==-false s r n),
      refl,
    )

abort-current : (w w' : World) (s : ℕ) → abort w s ≡ finished w' → w'.current ≡ w.current
unfolding abort
abort-current w w' s e = ground arith

module _ {ℓ κ} {R : Type ℓ} {E : Type κ} (into : RpcError → E) where
  -- A method of an aborted server does not run.
  call-aborted :
      (s : ℕ) (body : World → Unwound (Result R E) × World) (w : World) (t : ℕ)
      → is_aborted w s ≡ true
      → call into s body w t ≡ finished (err (into server_missing), w)
  unfolding call
  call-aborted s body w t e = rw (e, call)

  conclude-current :
      (w w' : World) (s : ℕ) (r : Unwound (Result R E)) (out : Result R E)
      → conclude into w s r ≡ finished (out, w')
      → w'.current ≡ w.current
  unfolding conclude
  conclude-current w w' s r out e = ground arith

  call-runs :
      (s : ℕ) (body : World → Unwound (Result R E) × World) (w w₂ : World) (t : ℕ)
      (r : Unwound (Result R E))
      → is_aborted w s ≡ false
      → body (enter_server_context w t s).0 ≡ (r, w₂)
      → call into s body w t ≡ conclude into (leave_server_context w₂ t (w.current t)) s r
  unfolding call
  call-runs s body w w₂ t r live runs = rw (live, call, runs)

  conclude-unwound :
      (w w' : World) (s : ℕ) (payload : Payload)
      → abort w s ≡ finished w'
      → conclude {R = R} into w s (unwound payload) ≡ finished (err (into (from_panic payload)), w')
  unfolding conclude
  conclude-unwound w w' s payload ends = rw (ends, conclude)

  finished-world :
      (w w' : World) (r r' : Result R E)
      → Path (Loop (Result R E × World)) (finished (r, w)) (finished (r', w'))
      → w' ≡ w
  finished-world w w' r r' e = cc

  -- However a call of an RPC method ends, the calling thread is in the server context in which it
  -- made the call, whatever contexts the method itself entered.
  pub call-current :
      (s : ℕ) (body : World → Unwound (Result R E) × World) (w w' : World) (t : ℕ)
      (out : Result R E)
      → call into s body w t ≡ finished (out, w')
      → w'.current t ≡ w.current t
  unfolding call
  call-current s body w w' t out e = elim (Bool-cases (is_aborted w s)) [
    | inl dead ↦
        ap (λ (x : World). x.current t)
          (finished-world w w' (err (into server_missing)) out
            (sym (call-aborted s body w t dead) ∙ e))
    | inr live ↦
        let (r, w₂) = body (enter_server_context w t s).0 in
        ap (λ (c : ℕ → Option ℕ). c t)
          (conclude-current (leave_server_context w₂ t (w.current t)) w' s r out
            (rw (live, call) at e))
        ∙ update_self w₂.current t (w.current t)
  ]

  -- A method of a server that is not aborted panics, at a moment at which no thread of the server is
  -- in the state `Blocking`: the call returns the panic as an error, the caller is back in its own
  -- server context, and on the world that the call leaves every call of any method of the server,
  -- from any thread, returns `ServerMissing` and changes nothing.
  pub call-panics :
      (s : ℕ) (body : World → Unwound (Result R E) × World) (w w₂ : World) (t : ℕ)
      (payload : Payload)
      → is_aborted w s ≡ false
      → body (enter_server_context w t s).0 ≡ (unwound payload, w₂)
      → NoneBlocking w₂.tasks (threads_of w₂ s)
      → (w' : World) × (call into s body w t ≡ finished (err (into (from_panic payload)), w'))
        × (w'.current t ≡ w.current t)
        × ((later : World → Unwound (Result R E) × World) (u : ℕ)
            → call into s later w' u ≡ finished (err (into server_missing), w'))
  unfolding leave_server_context
  call-panics s body w w₂ t payload live runs awake =
      let (w', ends, dead, woken, others, same) =
        abort_lem (leave_server_context w₂ t (w.current t)) s awake in
      (
        w',
        call-runs s body w w₂ t (unwound payload) live runs
            ∙ conclude-unwound (leave_server_context w₂ t (w.current t)) w' s payload ends,
        ap (λ (c : ℕ → Option ℕ). c t) same ∙ update_self w₂.current t (w.current t),
        λ later u. call-aborted s later w' u dead,
      )
