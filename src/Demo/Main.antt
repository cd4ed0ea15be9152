-- ===== src/Demo/Main.antt =====
-- prefetcher_demo/src/main.rs: the servers of the demo, the client that reads, and what a frame of the
-- interface does with the values of its widgets. Server threads are not run here: of a prefetcher only
-- its state and whether it crashed are kept.
pub mod Policies
pub mod Reach
pub mod Client
pub mod Frames
pub mod Refused
mod Tests
use orpc_prototype.Prelude.{
  ℕ, ◌+◌, ◌-◌, ◌*◌, ◌%◌, ◌^◌, Bool, true, false, Option, none, some, List, [], ◌∷◌, ◌++◌, Outcome,
  done, panic, mul_overflow, add_overflow, ◌>>=◌, ltb, if◌then◌else◌, length, get_elem?, set, take,
  drop, replicate, str_eq,
}
use orpc_prototype.Rpc.{Result, ok, err}
use orpc_prototype.Registry.{Registry, register}
use orpc_prototype.Locking.{LockingTableInner, new_inner, try_send}
use orpc_prototype.Demo.{Bytes, ShutdownState, shutdown}
use orpc_prototype.Demo.Disk.{block_size}
use orpc_prototype.Demo.Cache.{Cache, Outstanding}
use orpc_prototype.Demo.Eviction.{Policy}
use orpc_prototype.Demo.Spawn.{
  Connection, spawn_disk, spawn_random, spawn_cache, spawn_next_page, spawn_stride,
  spawn_stride_load_aware,
}

abbrev pub n_blocks : ℕ
n_blocks = 1024

-- The constructor for `None` is called `no_policy`.
pub data PrefetchPolicyKind : Type 0 where
  no_policy : PrefetchPolicyKind
  next : PrefetchPolicyKind
  strided : PrefetchPolicyKind
  load_aware : PrefetchPolicyKind

pub kind_eq : PrefetchPolicyKind → PrefetchPolicyKind → Bool
kind_eq no_policy no_policy = true
kind_eq next next = true
kind_eq strided strided = true
kind_eq load_aware load_aware = true
kind_eq _ _ = false

-- A prefetcher that was spawned: whether its server is aborted, and the state that `shutdown` changes.
pub record Prefetcher : Type 0 where
  pub kind : PrefetchPolicyKind
  pub aborted : Bool
  pub state : ShutdownState

-- The field `policy` holds a prefetcher by its place among all that were spawned.
pub record DemoServers : Type 0 where
  pub disk : Bytes
  pub cache : Cache Policy × Outstanding
  pub cache_size : ℕ
  pub policy : Option ℕ
  pub spawned : List Prefetcher
  pub system_load_oqueue : LockingTableInner ℕ
  pub stride : ℕ
  pub running : Bool

-- The operator `?`.
chain : {A B E : Type 0} → Result A E → (A → Result B E) → Result B E
chain (err e) f = err e
chain (ok a) f = f a

-- The value that `DemoServers::new` builds.
pub initial_servers : Bytes → Cache Policy × Outstanding → DemoServers
initial_servers disk cache = record {
  disk = disk;
  cache = cache;
  cache_size = 16;
  policy = none;
  spawned = [];
  system_load_oqueue = new_inner ℕ 2 2;
  stride = 1;
  running = true;
}

-- `DemoServers::new` on the file, with the registry that it leaves: `u8` is the type id of the loads,
-- and their queue is named by a number.
pub new_servers :
    {E : Type 0} (attach : Connection → Result (Unit {0}) E) (u8 system_load_oqueue : ℕ)
    → Bytes
    → Registry str_eq
    → Result DemoServers E × Registry str_eq
unfolding chain
new_servers attach u8 system_load_oqueue block_file entries = (
  chain (spawn_disk attach block_file) (λ disk. chain (spawn_random attach) (λ eviction_policy.
      chain (spawn_cache attach eviction_policy) (λ cache. ok (initial_servers disk cache)))),
  register str_eq entries "system_load" u8 system_load_oqueue,
)

-- A write of bytes at a position, beyond the end of the file too.
pub write_at : Bytes → ℕ → Bytes → Bytes
write_at file offset bytes =
    take offset (file ++ replicate (offset - length file) 0)
    ++ (bytes ++ drop (offset + length bytes) file)

-- The file that `setup_block_file` opens, after its write.
pub setup_block_file : Bytes → Bytes
unfolding write_at
setup_block_file file = write_at file (n_blocks * block_size) (0 ∷ [])

-- `isize` has 64 bits; the client's numbers are not negative.
abbrev pub isize_bound : ℕ
isize_bound = 2 ^ 63

abbrev pub isize_mul : ℕ → ℕ → Outcome ℕ
isize_mul a b = if ltb (a * b) isize_bound then done (a * b) else panic mul_overflow

abbrev pub isize_add : ℕ → ℕ → Outcome ℕ
isize_add a b = if ltb (a + b) isize_bound then done (a + b) else panic add_overflow

-- A round of the client's loop: the block that it reads, if any, and its counter after it.
pub client_round : Bool → ℕ → ℕ → Outcome (Option ℕ × ℕ)
client_round running stride i =
    if running
    then (do
      position ← isize_mul i stride
      i' ← isize_add i 1
      done (some (position % n_blocks), i'))
    else done (none, i)

pub record PrefetcherDemo : Type 0 where
  pub servers : DemoServers
  pub policy : PrefetchPolicyKind
  pub system_load : ℕ
  pub stride : ℕ
  pub running : Bool

-- `PrefetcherDemo::new` around the servers.
pub new_demo : DemoServers → PrefetcherDemo
new_demo servers = record {
  servers = servers;
  policy = no_policy;
  system_load = 128;
  stride = 3;
  running = true;
}

-- The values of the widgets in a frame; a slider has one only if it changed.
pub record Widgets : Type 0 where
  pub running : Bool
  pub stride : Option ℕ
  pub policy : PrefetchPolicyKind
  pub system_load : Option ℕ

-- The RPC method `shutdown`, which an aborted server does not run.
pub request_shutdown : Prefetcher → Prefetcher
request_shutdown p = if p.aborted then p else record p { state = (shutdown p.state).1 }

request_at : List Prefetcher → ℕ → Option Prefetcher → List Prefetcher
unfolding request_shutdown
request_at spawned k none = spawned
request_at spawned k (some p) = set spawned k (request_shutdown p)

shutdown_current : List Prefetcher → Option ℕ → List Prefetcher
unfolding request_at
shutdown_current spawned none = spawned
shutdown_current spawned (some k) = request_at spawned k (get_elem? spawned k)

-- `if let Some(p) = &self.servers.policy { p.shutdown(); }`
pub shutdown_policy : DemoServers → DemoServers
unfolding shutdown_current
shutdown_policy s = record s { spawned = shutdown_current s.spawned s.policy }

-- The policy field after a spawn, of which only a success is kept.
pub install : PrefetchPolicyKind → {E : Type 0} → Result ShutdownState E → DemoServers → DemoServers
install kind (ok state) s = record s {
  policy = some (length s.spawned);
  spawned = s.spawned ++ (record { kind = kind; aborted = false; state = state } ∷ []);
}
install kind (err e) s = record s { policy = none }

-- The switch and the slider of the stride.
pub set_running : Bool → Option ℕ → PrefetcherDemo → PrefetcherDemo
set_running running none d = record d {
  running = running;
  servers = record d.servers { running = running };
}
set_running running (some stride) d = record d {
  running = running;
  servers = record d.servers { running = running; stride = stride };
}

-- The demo with the load that is shown and the queue of loads after it.
abbrev pub with_load : ℕ → LockingTableInner ℕ → PrefetcherDemo → PrefetcherDemo
with_load load q d = record d {
  system_load = load;
  servers = record d.servers { system_load_oqueue = q };
}

-- The first attempt of the `send` on the queue of loads: the load that was not accepted, if any.
pub send_load : Option ℕ → PrefetcherDemo → Outcome (Option ℕ × PrefetcherDemo)
send_load none d = done (none, d)
send_load (some load) d = do
  r ← try_send d.servers.system_load_oqueue load
  done (r.0, with_load load r.1 d)

module _ {E : Type 0} (attach : Connection → Result (Unit {0}) E) where
  -- The match on the new policy.
  pub spawn_policy : PrefetchPolicyKind → DemoServers → DemoServers
  unfolding install
  spawn_policy no_policy s = record s { policy = none }
  spawn_policy next s = install next (spawn_next_page attach) s
  spawn_policy strided s = install strided (spawn_stride attach) s
  spawn_policy load_aware s = install load_aware (spawn_stride_load_aware attach) s

  pub change_policy : PrefetchPolicyKind → PrefetcherDemo → PrefetcherDemo
  unfolding kind_eq shutdown_policy spawn_policy
  change_policy policy d =
      if kind_eq d.policy policy
      then d
      else record d { servers = spawn_policy policy (shutdown_policy d.servers); policy = policy }

  -- `update`
  pub update : Widgets → PrefetcherDemo → Outcome (Option ℕ × PrefetcherDemo)
  unfolding set_running change_policy send_load
  update w d = send_load w.system_load (change_policy w.policy (set_running w.running w.stride d))
