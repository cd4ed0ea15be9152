-- ===== src/Demo/Cache/Tests.antt =====
-- Runs of the cache on a device of three blocks, and uses of its theorems.
use orpc_prototype.Prelude.{ℕ, zero, suc, ◌+◌, ◌≡◌, refl, arith, List, [], ◌∷◌, ◌++◌, All, ==-false}
use orpc_prototype.Rpc.{Result, ok, err}
use orpc_prototype.Demo.{Bytes, Block, IoError, io_failure, EvictionPolicy}
use orpc_prototype.Demo.Cache.{
  Cache, observation, request, reply, Event, read_request, prefetch_request, read_reply,
  evict_block, insert_cached_block, insert_if_room, insert_vacant, read_underlying, read_block,
  read, send_underlying_request, handle_request, handle, handle_reply, read_handler_thread,
}
use orpc_prototype.Demo.Cache.Rounds.{Inbox, round, events_of, rest_of, round_lem}
use orpc_prototype.Demo.Cache.Bounds.{Fits, read_handler_thread-Fits}
use orpc_prototype.Demo.Cache.Contents.{
  Genuine, GenuineMessage, read_lem, read_handler_thread-Genuine,
}
use orpc_prototype.Demo.Cache.Requests.{
  waiting, asked, answered, OnlyObserved, read_handler_thread-Misses, read_handler_thread-balance,
}

-- A policy that evicts the block inserted first.
abbrev fifo : EvictionPolicy (List ℕ)
fifo = record {
  select_victim =
      λ l. elim l [ [] ↦ (err (io_failure "No block to evict"), []) | k ∷ ks ↦ (ok k, ks) ];
  inserted = λ l i. (ok tt, l ++ (i ∷ []));
}

abbrev device : ℕ → Bytes
device i = i ∷ i ∷ []

abbrev underlying : ℕ → Result Block IoError
underlying i = ok (record { block_id = i; content = device i })

abbrev start : Cache (List ℕ)
start = record { cache = (1, 1 ∷ 1 ∷ []) ∷ (2, 2 ∷ 2 ∷ []) ∷ []; policy = 1 ∷ 2 ∷ [] }

-- A read of a third block through a cache of two evicts the first.
read_test : read fifo 2 underlying start 3 ≡ (
  underlying 3,
  (
    record { cache = (3, 3 ∷ 3 ∷ []) ∷ (2, 2 ∷ 2 ∷ []) ∷ []; policy = 2 ∷ 3 ∷ [] },
    observation 3 ∷ [],
  ),
)
unfolding read read_block read_underlying insert_cached_block insert_if_room insert_vacant
    evict_block
read_test = refl

start-Genuine : Genuine fifo 2 device start
start-Genuine zero c e = cc
start-Genuine (suc zero) c e = cc
start-Genuine (suc (suc zero)) c e = cc
start-Genuine (suc (suc (suc i))) c e = absurd (
    let f =
      rw
        (
          ==-false 1 (suc (suc (suc i))) (λ p. omega arith),
          ==-false 2 (suc (suc (suc i))) (λ p. omega arith),
        )
        at e in
    cc)

read_lem_example :
    ((read fifo 2 underlying start 3).0 ≡ underlying 3)
    × Genuine fifo 2 device (read fifo 2 underlying start 3).1.0
read_lem_example = read_lem fifo 2 device underlying start 3 (λ b e. cc) start-Genuine

-- Handles 7 and 8 ask for block 3, which the device then sends after a prefetch of it.
abbrev events : List Event
events =
    read_request (record { block_id = 3; reply_to = 7 })
    ∷ read_request (record { block_id = 1; reply_to = 8 })
    ∷ prefetch_request 4
    ∷ read_reply (record { block_id = 3; content = 3 ∷ 3 ∷ [] })
    ∷ []

events_test :
    (read_handler_thread fifo 2 (start, []) events).0
    ≡ observation 3
      ∷ observation 1
      ∷ reply 8 (record { block_id = 1; content = 1 ∷ 1 ∷ [] })
      ∷ request 4
      ∷ reply 7 (record { block_id = 3; content = 3 ∷ 3 ∷ [] })
      ∷ []
unfolding read_handler_thread handle handle_request send_underlying_request handle_reply
events_test = refl

read_handler_thread-Fits_example : Fits fifo 2 (read_handler_thread fifo 2 (start, []) events).1.0
read_handler_thread-Fits_example = read_handler_thread-Fits fifo 2 events start [] (omega arith)

read_handler_thread-Genuine_example :
    All (GenuineMessage fifo 2 device) (read_handler_thread fifo 2 (start, []) events).0
    × Genuine fifo 2 device (read_handler_thread fifo 2 (start, []) events).1.0
read_handler_thread-Genuine_example =
    read_handler_thread-Genuine fifo 2 device events start [] (tt, (tt, (tt, (refl, tt))))
      start-Genuine

read_handler_thread-balance_example :
    answered 3 7 (read_handler_thread fifo 2 (start, []) events).0
      + waiting 3 7 (read_handler_thread fifo 2 (start, []) events).1.1
    ≡ asked 3 7 events + 0
read_handler_thread-balance_example = read_handler_thread-balance fifo 2 events start [] 3 7

abbrev misses : List Event
misses =
    read_request (record { block_id = 3; reply_to = 7 })
    ∷ read_request (record { block_id = 4; reply_to = 7 })
    ∷ []

read_handler_thread-Misses_example :
    All (OnlyObserved fifo 2) (read_handler_thread fifo 2 (start, []) misses).0
read_handler_thread-Misses_example =
    read_handler_thread-Misses fifo 2 misses start [] (refl, (refl, tt))

abbrev inbox : Inbox
inbox = record {
  read_requests =
      record { block_id = 3; reply_to = 7 } ∷ record { block_id = 1; reply_to = 8 } ∷ [];
  prefetch_requests = 4 ∷ [];
  replies = [];
}

round_lem_example :
    let out = read_handler_thread fifo 2 (start, []) (events_of fifo 2 inbox) in
    round fifo 2 (inbox, ([], (start, []))) ≡ (rest_of fifo 2 inbox, (out.0, out.1))
round_lem_example = round_lem fifo 2 inbox [] (start, [])
