-- ===== src/Demo.antt =====
-- prefetcher_demo/src: block_device.rs, the types of block devices and of the RPC interface of
-- eviction policies, and shutdown.rs. The other files of the demo have a module each.
pub mod Cache
pub mod Eviction
pub mod Prefetch
pub mod Disk
pub mod Spawn
pub mod Main
use orpc_prototype.Prelude.{ℕ, zero, suc, Bool, true, List, if◌then◌else◌}
use Prim.Native.String.{String}
use orpc_prototype.Rpc.{Result, ok, err, RpcError}
use orpc_prototype.Handles.{OQueueAttachError}

-- `Box<[u8]>`
abbrev pub Bytes : Type 0
Bytes = List ℕ

-- The field `data` is called `content`.
pub record Block : Type 0 where
  pub block_id : ℕ
  pub content : Bytes

-- The reply handle is named by a number.
pub record ReadRequest : Type 0 where
  pub block_id : ℕ
  pub reply_to : ℕ

pub data IoError : Type 0 where
  rpc_error : RpcError → IoError
  oqueue_attach_error : OQueueAttachError → IoError
  io_failure : String → IoError

-- The trait of eviction policies, over the state `P` of a policy: a call returns its result and the
-- state after it.
pub record EvictionPolicy {ℓ} (P : Type ℓ) : Type ℓ where
  pub select_victim : P → Result ℕ IoError × P
  pub inserted : P → ℕ → Result (Unit {0}) RpcError × P

pub record ShutdownState : Type 0 where
  pub is_shutdown : Bool

pub data ShutdownError : Type 0 where
  rpc_error : RpcError → ShutdownError
  clean_shutdown : ShutdownError

unfoldable pub check_for_shutdown : ShutdownState → Result (Unit {0}) ShutdownError
check_for_shutdown s = if s.is_shutdown then err clean_shutdown else ok tt

unfoldable pub shutdown : ShutdownState → Result (Unit {0}) RpcError × ShutdownState
shutdown s = (ok tt, record s { is_shutdown = true })
