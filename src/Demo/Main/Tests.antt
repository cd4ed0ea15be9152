-- ===== src/Demo/Main/Tests.antt =====
-- The demo on an empty file, with attachments that succeed and with one that fails.
use orpc_prototype.Prelude.{ℕ, ◌<◌, ◌≡◌, refl, arith, true, false, none, some, [], done}
use orpc_prototype.Rpc.{Result, ok, err}
use orpc_prototype.Locking.{new_inner}
use orpc_prototype.Demo.{EvictionPolicy, io_failure}
use orpc_prototype.Demo.Disk.Calls.{disk_read, all_attached}
use orpc_prototype.Demo.Disk.Reads.{bytes_of}
use orpc_prototype.Demo.Cache.{Cache}
use orpc_prototype.Demo.Cache.Calls.{cache_read}
use orpc_prototype.Demo.Cache.Contents.{Genuine}
use orpc_prototype.Demo.Eviction.{Policy}
use orpc_prototype.Demo.Spawn.{
  Connection, reads_strong_observer, spawn_disk, spawn_random, spawn_cache,
}
use orpc_prototype.Demo.Main.{
  n_blocks, next, strided, kind_eq, PrefetcherDemo, new_demo, new_servers, initial_servers, Widgets,
  shutdown_policy, change_policy, update, client_round, setup_block_file,
}
use orpc_prototype.Demo.Main.Policies.{AtMostOne, crash}
use orpc_prototype.Demo.Main.Reach.{Reach, start, frame, crashed, Reach-AtMostOne}
use orpc_prototype.Demo.Main.Refused.{change_policy-refused}
use orpc_prototype.Demo.Main.Client.{disk_block, client_read_lem}
use orpc_prototype.Demo.Main.Frames.{update-accepts}

abbrev attached : Connection → Result (Unit {0}) ℕ
attached c = ok tt

-- The slots for strong observers are in use.
abbrev no_slot : Connection → Result (Unit {0}) ℕ
no_slot reads_strong_observer = err 7
no_slot c = ok tt

abbrev policy : Policy
policy = record { blocks_in_cache = []; insertion_oqueue = [] }

abbrev first : PrefetcherDemo
first = new_demo (initial_servers [] (record { cache = []; policy = policy }, []))

abbrev widgets : Widgets
widgets = record { running = true; stride = some 3; policy = next; system_load = none }

started : Reach ℕ 8 40 first
unfolding new_servers spawn_disk spawn_random spawn_cache
started = start attached [] [] refl

abbrev second : PrefetcherDemo
second =
    change_policy attached next (record first { servers = record first.servers { stride = 3 } })

reached : Reach ℕ 8 40 (crash 0 second)
unfolding update new_demo initial_servers
reached = crashed 0 (frame attached widgets started refl)

Reach-AtMostOne_example : AtMostOne (crash 0 second)
Reach-AtMostOne_example = Reach-AtMostOne reached

change_policy-refused_example :
    (change_policy no_slot strided first ≡ record first {
      policy = strided;
      servers = record (shutdown_policy first.servers) { policy = none };
    })
    × ((later : Connection → Result (Unit {0}) ℕ)
        → change_policy later strided (change_policy no_slot strided first)
          ≡ change_policy no_slot strided first)
unfolding kind_eq new_demo
change_policy-refused_example = change_policy-refused no_slot 7 refl strided first refl

update-accepts_example : (d' : PrefetcherDemo) × (update no_slot widgets first ≡ done (none, d'))
unfolding new_demo initial_servers new_inner
update-accepts_example = update-accepts started (omega arith) no_slot widgets

-- A policy that never finds a victim.
abbrev idle : EvictionPolicy (Unit {0})
idle = record { select_victim = λ p. (err (io_failure ""), p); inserted = λ p i. (ok tt, p) }

abbrev empty : Cache (Unit {0})
empty = record { cache = []; policy = tt }

empty-Genuine : Genuine idle 16 (bytes_of (setup_block_file [])) empty
empty-Genuine i content e = absurd (cc)

client_read_lem_example :
    (t : ℕ) × (s' : Cache (Unit {0})) × (client_round true 3 700 ≡ done (some t, 701))
    × (t < n_blocks)
    × (cache_read idle 16 (disk_read (setup_block_file []) (all_attached 9)) empty t
        ≡ done (some (ok (disk_block (setup_block_file []) t), s')))
    × Genuine idle 16 (bytes_of (setup_block_file [])) s'
client_read_lem_example =
    client_read_lem idle 16 [] 9 empty empty-Genuine 3 700 (omega arith) (omega arith)

-- The client that runs with stride 3 reads block 52 in round 700, and nothing while it is paused.
client_round_test : client_round true 3 700 ≡ done (some 52, 701)
unfolding client_round
client_round_test = refl

paused_test : client_round false 3 700 ≡ done (none, 700)
unfolding client_round
paused_test = refl
