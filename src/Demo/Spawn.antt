-- ===== src/Demo/Spawn.antt =====
-- prefetcher_demo/src: how the servers of the demo are spawned. `spawn` makes the server, attaches
-- the handles that its thread uses, one after the other, and starts the thread only if all of that
-- succeeded; the first attachment that fails is the error that it returns.
use orpc_prototype.Prelude.{◌≡◌, false, List, [], ◌∷◌}
use orpc_prototype.Rpc.{Result, ok, err}
use orpc_prototype.Demo.{Bytes, ShutdownState}
use orpc_prototype.Demo.Cache.{Cache, Outstanding}
use orpc_prototype.Demo.Eviction.{Policy}

-- The handles that the servers attach, and the lookup of a queue in the registry.
pub data Connection : Type 0 where
  reads_strong_observer : Connection
  reads_weak_observer : Connection
  prefetch_sender : Connection
  prefetch_receiver : Connection
  system_load_lookup : Connection
  system_load_observer : Connection
  reply_receiver : Connection
  underlying_sender : Connection
  read_request_receiver : Connection
  insertion_receiver : Connection

module _ {ℓ} {E : Type ℓ} (attach : Connection → Result (Unit {0}) E) where
  pub connect : List Connection → Result (Unit {0}) E
  connect [] = ok tt
  connect (c ∷ cs) = elim (attach c) [ err e ↦ err e | ok u ↦ connect cs ]

  -- The server, if its connections are made.
  started : {A : Type 0} → A → List Connection → Result A E
  unfolding connect
  started server cs = elim (connect cs) [ err e ↦ err e | ok u ↦ ok server ]

  -- `NextPagePrefetcher::spawn`
  pub spawn_next_page : Result ShutdownState E
  unfolding started
  spawn_next_page =
      started (record { is_shutdown = false }) (reads_strong_observer ∷ prefetch_sender ∷ [])

  -- `StridePrefetcher::spawn`
  pub spawn_stride : Result ShutdownState E
  unfolding started
  spawn_stride =
      started (record { is_shutdown = false })
        (reads_strong_observer ∷ reads_weak_observer ∷ prefetch_sender ∷ [])

  -- `StrideLoadAwarePrefetcher::spawn`
  pub spawn_stride_load_aware : Result ShutdownState E
  unfolding started
  spawn_stride_load_aware =
      started (record { is_shutdown = false })
        (reads_strong_observer ∷ reads_weak_observer ∷ prefetch_sender ∷ system_load_lookup
          ∷ system_load_observer ∷ [])

  -- `Cache::spawn` with a policy in the state `p`: the server and the requests of its thread.
  unfoldable pub spawn_cache : {P : Type 0} → P → Result (Cache P × Outstanding) E
  unfolding started
  spawn_cache p =
      started (record { cache = []; policy = p }, [])
        (reply_receiver ∷ underlying_sender ∷ read_request_receiver ∷ prefetch_receiver ∷ [])

  -- `LeastRecentlyUsed::spawn` and `Random::spawn`
  pub spawn_least_recently_used : Result Policy E
  unfolding started
  spawn_least_recently_used =
      started (record { blocks_in_cache = []; insertion_oqueue = [] }) (insertion_receiver ∷ [])

  unfoldable pub spawn_random : Result Policy E
  unfolding started
  spawn_random =
      started (record { blocks_in_cache = []; insertion_oqueue = [] }) (insertion_receiver ∷ [])

  -- `Disk::spawn`
  unfoldable pub spawn_disk : Bytes → Result Bytes E
  unfolding started
  spawn_disk file = started file (read_request_receiver ∷ [])

  -- Without a slot for their strong observer the prefetchers are not spawned.
  module _ (e : E) (refused : attach reads_strong_observer ≡ err e) where
    connect-refused : (cs : List Connection) → connect (reads_strong_observer ∷ cs) ≡ err e
    unfolding connect
    connect-refused cs = rw (refused, connect)

    started-refused :
        {A : Type 0} (server : A) (cs : List Connection)
        → started server (reads_strong_observer ∷ cs) ≡ err e
    unfolding started
    started-refused server cs = rw (connect-refused cs, started)

    pub spawn_next_page-refused : spawn_next_page ≡ err e
    unfolding spawn_next_page
    spawn_next_page-refused =
        started-refused (record { is_shutdown = false }) (prefetch_sender ∷ [])

    pub spawn_stride-refused : spawn_stride ≡ err e
    unfolding spawn_stride
    spawn_stride-refused =
        started-refused (record { is_shutdown = false })
          (reads_weak_observer ∷ prefetch_sender ∷ [])

    pub spawn_stride_load_aware-refused : spawn_stride_load_aware ≡ err e
    unfolding spawn_stride_load_aware
    spawn_stride_load_aware-refused =
        started-refused (record { is_shutdown = false })
          (reads_weak_observer ∷ prefetch_sender ∷ system_load_lookup ∷ system_load_observer ∷ [])
