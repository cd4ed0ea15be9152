-- ===== src/Demo/Main/Reach.antt =====
-- prefetcher_demo/src/main.rs: what the demo reaches, whatever its user does and whatever fails.
use orpc_prototype.Prelude.{ℕ, ◌≡◌, refl, Option, done, subst, str_eq}
use orpc_prototype.Rpc.{Result, ok, err}
use orpc_prototype.Registry.{Registry}
use orpc_prototype.Demo.{Bytes}
use orpc_prototype.Demo.Eviction.{Policy}
use orpc_prototype.Demo.Cache.{Cache, Outstanding}
use orpc_prototype.Demo.Spawn.{Connection, spawn_disk, spawn_random, spawn_cache}
use orpc_prototype.Demo.Main
use orpc_prototype.Demo.Main.{
  DemoServers, PrefetcherDemo, new_demo, new_servers, initial_servers, Widgets, update, set_running,
  change_policy,
}
use orpc_prototype.Demo.Main.Policies.{
  AtMostOne, crash, crash-AtMostOne, sent-AtMostOne, running-AtMostOne, change_policy-AtMostOne,
}

chain_inv :
    {A B E : Type 0} (r : Result A E) (f : A → Result B E) {b : B}
    → Main.chain r f ≡ ok b
    → (a : A) × (r ≡ ok a) × (f a ≡ ok b)
unfolding Main.chain
chain_inv (err e) f h = absurd (cc)
chain_inv (ok a) f h = (a, refl, h)

-- The servers that are built, if the connections are made.
pub new_servers_inv :
    {E : Type 0} (attach : Connection → Result (Unit {0}) E) (u8 load_queue : ℕ) (file : Bytes)
    (entries : Registry str_eq) {servers : DemoServers}
    → (new_servers attach u8 load_queue file entries).0 ≡ ok servers
    → (disk : Bytes) × (cache : Cache Policy × Outstanding) × (initial_servers disk cache ≡ servers)
unfolding new_servers
new_servers_inv attach u8 load_queue file entries e =
    let (disk, _, rest) = chain_inv (spawn_disk attach file) _ e in
    let (policy, _, rest') = chain_inv (spawn_random attach) _ rest in
    let (cache, _, last) = chain_inv (spawn_cache attach policy) _ rest' in (disk, cache, cc)

-- The demo starts with no prefetcher.
initial-AtMostOne :
    (disk : Bytes) (cache : Cache Policy × Outstanding)
    → AtMostOne (new_demo (initial_servers disk cache))
unfolding new_demo initial_servers
initial-AtMostOne disk cache = record {
  others = λ j p f n. absurd (cc);
  current = λ k f. absurd (cc);
}

-- What happens to the demo: a frame of the interface, in which any attachment may fail, or a crash.
pub data Reach (E : Type 0) (u8 system_load_oqueue : ℕ) : PrefetcherDemo → Type 0 where
  start :
      {servers : DemoServers} (attach : Connection → Result (Unit {0}) E) (file : Bytes)
      (entries : Registry str_eq)
      → (new_servers attach u8 system_load_oqueue file entries).0 ≡ ok servers
      → Reach E u8 system_load_oqueue (new_demo servers)
  frame :
      {d d' : PrefetcherDemo} {r : Option ℕ} (attach : Connection → Result (Unit {0}) E)
      (w : Widgets)
      → Reach E u8 system_load_oqueue d
      → update attach w d ≡ done (r, d')
      → Reach E u8 system_load_oqueue d'
  crashed :
      {d : PrefetcherDemo} (k : ℕ)
      → Reach E u8 system_load_oqueue d
      → Reach E u8 system_load_oqueue (crash k d)

-- In every state that the demo reaches from its start, by frames of the interface in which any
-- attachment of a prefetcher may fail and by crashes, all prefetchers that were ever spawned have been
-- told to stop or are aborted, but for one at most, and that one is of the kind that is selected.
pub Reach-AtMostOne :
    {E : Type 0} {u8 load_queue : ℕ} {d : PrefetcherDemo} → Reach E u8 load_queue d → AtMostOne d
unfolding update
Reach-AtMostOne (start attach file entries e) =
    let (disk, cache, same) = new_servers_inv attach _ _ file entries e in
    subst (λ (s : DemoServers). AtMostOne (new_demo s)) same (initial-AtMostOne disk cache)
Reach-AtMostOne (frame attach w r e) =
    sent-AtMostOne _
      (change_policy-AtMostOne attach w.policy _
        (running-AtMostOne w.running w.stride _ (Reach-AtMostOne r)))
      w.system_load e
Reach-AtMostOne (crashed k r) = crash-AtMostOne _ (Reach-AtMostOne r) k
