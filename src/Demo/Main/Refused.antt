-- ===== src/Demo/Main/Refused.antt =====
-- prefetcher_demo/src/main.rs: a prefetcher that cannot be spawned.
use orpc_prototype.Prelude.{◌≡◌, refl, true, false, none}
use orpc_prototype.Rpc.{Result, err}
use orpc_prototype.Demo.Spawn.{
  Connection, reads_strong_observer, spawn_next_page-refused, spawn_stride-refused,
  spawn_stride_load_aware-refused,
}
use orpc_prototype.Demo.Main.{
  PrefetchPolicyKind, no_policy, next, strided, load_aware, kind_eq, DemoServers, PrefetcherDemo,
  shutdown_policy, install, spawn_policy, change_policy,
}

kind_eq_refl : (k : PrefetchPolicyKind) → kind_eq k k ≡ true
unfolding kind_eq
kind_eq_refl no_policy = refl
kind_eq_refl next = refl
kind_eq_refl strided = refl
kind_eq_refl load_aware = refl

module _ {E : Type 0} (attach : Connection → Result (Unit {0}) E) (e : E)
    (refused : attach reads_strong_observer ≡ err e) where
  spawn_policy-refused :
      (kind : PrefetchPolicyKind) (s : DemoServers)
      → (spawn_policy attach kind s) ≡ record s { policy = none }
  unfolding spawn_policy install
  spawn_policy-refused no_policy s = refl
  spawn_policy-refused next s = rw (spawn_next_page-refused attach e refused)
  spawn_policy-refused strided s = rw (spawn_stride-refused attach e refused)
  spawn_policy-refused load_aware s = rw (spawn_stride_load_aware-refused attach e refused)

  -- If no strong observer of the reads can be attached when another policy is selected, then the old
  -- prefetcher is told to stop, the new policy is shown and no prefetcher is there, and to select that
  -- policy again changes nothing, whatever can be attached by then.
  pub change_policy-refused :
      (kind : PrefetchPolicyKind) (d : PrefetcherDemo)
      → kind_eq d.policy kind ≡ false
      → (change_policy attach kind d ≡ record d {
        policy = kind;
        servers = record (shutdown_policy d.servers) { policy = none };
      })
        × ((later : Connection → Result (Unit {0}) E)
            → change_policy later kind (change_policy attach kind d) ≡ change_policy attach kind d)
  unfolding change_policy
  change_policy-refused kind d e =
      rw (e, spawn_policy-refused kind (shutdown_policy d.servers))
        (refl, (λ later. rw (kind_eq_refl kind)))
