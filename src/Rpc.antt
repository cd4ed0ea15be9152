-- ===== src/Rpc.antt =====
-- orpc/src/orpc_impl/framework.rs and errors.rs, and the method bodies that the `orpc_impl` macro
-- generates (orpc_macros/src/orpc_impl.rs). Servers and threads are numbers. User code is a function
-- on the world that returns or unwinds; it may call other servers.
pub mod Calls
pub mod Threads
pub mod Aborts
mod Tests
use Prim.Native.String.{String}
use orpc_prototype.Prelude.{
  ℕ, zero, suc, ◌+◌, ◌-◌, Bool, true, false, Option, none, some, List, [], ◌∷◌, ◌++◌, if◌then◌else◌,
}
use orpc_prototype.Sync.{Tasks, update, Loop, finished, spinning, unpark_each, contains}

-- What a panic carries: a `&str`, a `String`, or a value of another type.
pub data Payload : Type 0 where
  str : String → Payload
  string : String → Payload
  other : Payload

pub data RpcError : Type 0 where
  panic : String → RpcError
  server_missing : RpcError

unfoldable pub payload_as_str : Payload → Option String
payload_as_str (str s) = some s
payload_as_str (string s) = some s
payload_as_str other = none

-- `RPCError::from_panic`
unfoldable pub from_panic : Payload → RpcError
unfolding payload_as_str
from_panic payload =
    panic (elim (payload_as_str payload) [ none ↦ "Non-string panic payload" | some s ↦ s ])

-- `Result<R, E>`
pub data Result {ℓ κ} (R : Type ℓ) (E : Type κ) : Type (ℓ ⊔ κ) where
  ok : R → Result R E
  err : E → Result R E

-- How a closure under `catch_unwind` ends.
pub data Unwound {ℓ} (A : Type ℓ) : Type ℓ where
  returned : A → Unwound A
  unwound : Payload → Unwound A

pub record ServerBase : Type 0 where
  pub aborted : Bool
  pub server_threads : List ℕ
  -- Whether `weak_this` can be upgraded.
  pub referenced : Bool

-- `ServerBase::new`
unfoldable pub new_base : ServerBase
new_base = record { aborted = false; server_threads = []; referenced = true }

-- All servers, all tasks, and the `CURRENT_SERVER` of each thread.
pub record World : Type 0 where
  pub servers : ℕ → ServerBase
  pub tasks : Tasks
  pub current : ℕ → Option ℕ

unfoldable pub is_aborted : World → ℕ → Bool
is_aborted w s = (w.servers s).aborted

-- `ServerBase::abort`
unfoldable pub abort : World → ℕ → Loop World
abort w s =
    let servers' = update w.servers s (record (w.servers s) { aborted = true }) in
    elim (unpark_each w.tasks (w.servers s).server_threads) [
      | spinning t ↦ spinning t
      | finished tasks' ↦ finished (record w { servers = servers'; tasks = tasks' })
    ]

-- `ServerBase::attach_task`, by thread `t`
unfoldable pub attach_task : World → ℕ → ℕ → World
attach_task w s t = record w {
  servers =
      update w.servers s
        (record (w.servers s) { server_threads = (w.servers s).server_threads ++ (t ∷ []) });
}

-- `ServerBase::abort_point`
unfoldable pub server_abort_point : World → ℕ → Unwound (Unit {0})
unfolding is_aborted
server_abort_point w s =
    if is_aborted w s then unwound (str "Server aborted in another thread") else returned tt

-- `CurrentServer::abort_point`, by thread `t`
unfoldable pub abort_point : World → ℕ → Unwound (Unit {0})
unfolding server_abort_point
abort_point w t = elim (w.current t) [ none ↦ returned tt | some s ↦ server_abort_point w s ]

-- `get_ref`
unfoldable pub get_ref : World → ℕ → Option ℕ
get_ref w s = if (w.servers s).referenced then some s else none

-- `enter_server_context`, by thread `t`: the world, and the server that the guard holds.
unfoldable pub enter_server_context : World → ℕ → ℕ → World × Option ℕ
unfolding get_ref
enter_server_context w t s = (record w { current = update w.current t (get_ref w s) }, w.current t)

-- The guard's `drop`.
unfoldable pub leave_server_context : World → ℕ → Option ℕ → World
leave_server_context w t previous = record w { current = update w.current t previous }

module _ {ℓ κ} {R : Type ℓ} {E : Type κ} (into : RpcError → E) where
  -- The match on the result of `catch_unwind`.
  unfoldable pub conclude : World → ℕ → Unwound (Result R E) → Loop (Result R E × World)
  unfolding abort from_panic
  conclude w s (returned ret) = finished (ret, w)
  conclude w s (unwound payload) =
      let e = from_panic payload in
      elim (abort w s) [ spinning t ↦ spinning t | finished w' ↦ finished (err (into e), w') ]

  -- The body that the macro generates for an RPC method of server `s`, called by thread `t`.
  unfoldable pub call :
      ℕ → (World → Unwound (Result R E) × World) → World → ℕ → Loop (Result R E × World)
  unfolding conclude enter_server_context leave_server_context
  call s body w t =
      if is_aborted w s
      then finished (err (into server_missing), w)
      else let (w₁, guard) = enter_server_context w t s in
        let (r, w₂) = body w₁ in conclude (leave_server_context w₂ t guard) s r

-- What a server thread does: `Ok(())`, an error (shown as a text), or a panic.
abbrev pub ThreadBody : Type 0
ThreadBody = World → Unwound (Result (Unit {0}) String) × World

-- The end of the closure that `spawn_thread` runs, with the guard to drop.
unfoldable pub end_thread :
    ℕ → ℕ → Option ℕ → Unwound (Result (Unit {0}) String) × World → Loop World
unfolding abort leave_server_context
end_thread s t guard (returned (ok u), w) = finished (leave_server_context w t guard)
end_thread s t guard (returned (err e), w) = elim (abort w s) [
  | spinning u ↦ spinning u
  | finished w' ↦ finished (leave_server_context w' t guard)
]
end_thread s t guard (unwound payload, w) = abort (leave_server_context w t guard) s

-- The closure that `spawn_thread` runs on the new thread `t`.
unfoldable pub run_thread : ℕ → ThreadBody → World → ℕ → Loop World
unfolding end_thread attach_task enter_server_context
run_thread s body w t =
    let (w₁, guard) = enter_server_context (attach_task w s t) t s in end_thread s t guard (body w₁)
