-- ===== src/Demo/Main/Frames.antt =====
-- prefetcher_demo/src/main.rs: a frame of the interface does not wait for the queue of loads.
use orpc_prototype.Prelude.{
  ℕ, ◌<◌, ◌≡◌, refl, sym, subst, inl, inr, arith, Bool, Option, none, some, Outcome-cases, done,
  panic, usize_max, Bool-cases,
}
use orpc_prototype.Rpc.{Result, ok, err}
use orpc_prototype.Locking.{LockingTableInner, try_send}
use orpc_prototype.Locking.Effects.{sent}
use orpc_prototype.Locking.Unread.{
  Unread, UnreadOrEnded, new_inner-Unread, try_send-Unread, try_send-UnreadOrEnded,
}
use orpc_prototype.Demo.{Bytes, ShutdownState}
use orpc_prototype.Demo.Cache.{Cache, Outstanding}
use orpc_prototype.Demo.Eviction.{Policy}
use orpc_prototype.Demo.Spawn.{Connection, spawn_next_page, spawn_stride, spawn_stride_load_aware}
use orpc_prototype.Demo.Main.{
  PrefetchPolicyKind, no_policy, next, strided, load_aware, kind_eq, DemoServers, PrefetcherDemo,
  new_demo, initial_servers, Widgets, shutdown_policy, install, spawn_policy, change_policy,
  set_running, with_load, send_load, update,
}
use orpc_prototype.Demo.Main.Policies.{crash-queue}
use orpc_prototype.Demo.Main.Reach.{Reach, start, frame, crashed, new_servers_inv}

abbrev load_queue : PrefetcherDemo → LockingTableInner ℕ
load_queue d = d.servers.system_load_oqueue

install-queue :
    {E : Type 0} (kind : PrefetchPolicyKind) (r : Result ShutdownState E) (s : DemoServers)
    → (install kind r s).system_load_oqueue ≡ s.system_load_oqueue
unfolding install
install-queue kind (ok state) s = refl
install-queue kind (err e) s = refl

module _ {E : Type 0} (attach : Connection → Result (Unit {0}) E) where
  spawn_policy-queue :
      (kind : PrefetchPolicyKind) (s : DemoServers)
      → (spawn_policy attach kind s).system_load_oqueue ≡ s.system_load_oqueue
  unfolding spawn_policy
  spawn_policy-queue no_policy s = refl
  spawn_policy-queue next s = install-queue next (spawn_next_page attach) s
  spawn_policy-queue strided s = install-queue strided (spawn_stride attach) s
  spawn_policy-queue load_aware s = install-queue load_aware (spawn_stride_load_aware attach) s

  -- What a frame does before it sends leaves the queue of loads alone.
  prepared-queue :
      (kind : PrefetchPolicyKind) (running : Bool) (stride : Option ℕ) (d : PrefetcherDemo)
      → load_queue (change_policy attach kind (set_running running stride d)) ≡ load_queue d
  unfolding change_policy set_running shutdown_policy
  prepared-queue kind running none d = elim (Bool-cases (kind_eq d.policy kind)) [
    | inl e ↦ rw e
    | inr e ↦ rw e (spawn_policy-queue kind _)
  ]
  prepared-queue kind running (some stride) d = elim (Bool-cases (kind_eq d.policy kind)) [
    | inl e ↦ rw e
    | inr e ↦ rw e (spawn_policy-queue kind _)
  ]

-- A load is accepted at once, and the queue stays as it is until the positions are used up.
send_load-UnreadOrEnded :
    (load : Option ℕ) (d : PrefetcherDemo) {r : Option ℕ} {d' : PrefetcherDemo}
    → UnreadOrEnded (load_queue d)
    → send_load load d ≡ done (r, d')
    → UnreadOrEnded (load_queue d')
unfolding send_load
send_load-UnreadOrEnded none d {r} {d'} u e =
    let same : d ≡ d' = cc in subst (λ (x : PrefetcherDemo). UnreadOrEnded (load_queue x)) same u
send_load-UnreadOrEnded (some load) d {r} {d'} u e =
    elim (Outcome-cases (try_send (load_queue d) load)) [
      | inl (p, f) ↦ absurd (let stuck : panic p ≡ done (r, d') = rw f at e in cc)
      | inr (s, f) ↦
          let sends : done (s.0, with_load load s.1 d) ≡ done (r, d') = rw f at e in
          let same : with_load load s.1 d ≡ d' = cc in
          subst (λ (x : PrefetcherDemo). UnreadOrEnded (load_queue x)) same
            (try_send-UnreadOrEnded (load_queue d) load s u f)
    ]

initial-Unread :
    (disk : Bytes) (cache : Cache Policy × Outstanding)
    → Unread (load_queue (new_demo (initial_servers disk cache)))
unfolding new_demo initial_servers
initial-Unread disk cache = new_inner-Unread ℕ 2 2 (omega arith)

-- Whatever happens to the demo, nobody holds back the senders on the queue of loads.
Reach-UnreadOrEnded :
    {E : Type 0} {u8 queue : ℕ} {d : PrefetcherDemo}
    → Reach E u8 queue d
    → UnreadOrEnded (load_queue d)
unfolding update
Reach-UnreadOrEnded (start attach file entries e) =
    let (disk, cache, same) = new_servers_inv attach _ _ file entries e in
    subst (λ (s : DemoServers). UnreadOrEnded (load_queue (new_demo s))) same
      (inl (initial-Unread disk cache))
Reach-UnreadOrEnded (frame attach w r e) =
    send_load-UnreadOrEnded w.system_load _
      (subst UnreadOrEnded (sym (prepared-queue attach w.policy w.running w.stride _))
        (Reach-UnreadOrEnded r))
      e
Reach-UnreadOrEnded (crashed k r) =
    subst UnreadOrEnded (sym (crash-queue k _)) (Reach-UnreadOrEnded r)

accepted :
    (load : Option ℕ) (d : PrefetcherDemo)
    → Unread (load_queue d)
    → (d' : PrefetcherDemo) × (send_load load d ≡ done (none, d'))
unfolding send_load
accepted none d u = (d, refl)
accepted (some load) d u =
    (with_load load (sent (load_queue d) load) d, rw (try_send-Unread (load_queue d) load u))

-- In every state that the demo reaches, as long as the position on the queue of loads is below
-- `usize::MAX`, every frame of the interface ends: whatever its widgets say and whatever can be
-- attached, it does not panic, and the queue accepts the load at the first attempt, so the `send` does
-- not wait.
pub update-accepts :
    {E : Type 0} {u8 queue : ℕ} {d : PrefetcherDemo}
    → Reach E u8 queue d
    → d.servers.system_load_oqueue.tail_index < usize_max
    → (attach : Connection → Result (Unit {0}) E) (w : Widgets)
    → (d' : PrefetcherDemo) × (update attach w d ≡ done (none, d'))
unfolding update
update-accepts {d = d} r small attach w = elim (Reach-UnreadOrEnded r) [
  | inr end ↦ absurd (omega arith)
  | inl u ↦
      accepted w.system_load _
        (subst Unread (sym (prepared-queue attach w.policy w.running w.stride d)) u)
]
