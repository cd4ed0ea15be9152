-- ===== src/Demo/Cache.antt =====
-- prefetcher_demo/src/cache.rs: the block cache. An operation returns the state of the server and
-- the messages it sends, in their order. The eviction policy is any implementation of its trait,
-- and `underlying_read` is the RPC method of the underlying device. The queues to which the server
-- attaches are its own, which it keeps alive, so attaching a sender does not fail.
pub mod Bounds
pub mod Calls
pub mod Contents
pub mod Requests
pub mod Rounds
mod Tests
use orpc_prototype.Prelude.{
  Map, get, contains_key, remove, insert, ℕ, zero, suc, ◌+◌, not, ◌&&◌, Option, none, some, List,
  [], ◌∷◌, ◌++◌, map, leb, if◌then◌else◌, length,
}
use orpc_prototype.Rpc.{Result, ok, err}
use orpc_prototype.Demo.{Bytes, Block, ReadRequest, IoError, EvictionPolicy}

-- The state that the server's mutex protects, and the state of its policy.
pub record Cache {ℓ} (P : Type ℓ) : Type ℓ where
  pub cache : Map Bytes
  pub policy : P

-- The reply handles that wait for each block.
abbrev pub Outstanding : Type 0
Outstanding = Map (List ℕ)

pub data Message : Type 0 where
  -- On `read_request_observation_oqueue`.
  observation : ℕ → Message
  -- To the underlying device.
  request : ℕ → Message
  -- To a reply handle.
  reply : ℕ → Block → Message

-- What an arm of the `select!` of `read_handler_thread` receives.
pub data Event : Type 0 where
  read_request : ReadRequest → Event
  prefetch_request : ℕ → Event
  read_reply : Block → Event

abbrev pub waiting_for : Outstanding → ℕ → List ℕ
waiting_for outstanding i = elim (get outstanding i) [ none ↦ [] | some waiting ↦ waiting ]

-- `entry.or_insert_with` and `waiting.push`
abbrev pub push_waiting : Outstanding → ReadRequest → Outstanding
push_waiting outstanding req =
    insert outstanding req.block_id (waiting_for outstanding req.block_id ++ (req.reply_to ∷ []))

module _ {ℓ} {P : Type ℓ} (eviction_policy : EvictionPolicy P) (cache_size : ℕ) where
  pub evict_block : Cache P → Cache P
  evict_block s =
      let (victim, policy') = eviction_policy.select_victim s.policy in
      elim victim [
        | ok k ↦ record s { cache = remove s.cache k; policy = policy' }
        | err e ↦ record s { policy = policy' }
      ]

  -- The match on `cache.entry`.
  pub insert_vacant : Cache P → Block → Cache P
  insert_vacant s block = if contains_key s.cache block.block_id then s else record s {
    cache = insert s.cache block.block_id block.content;
    policy = (eviction_policy.inserted s.policy block.block_id).1;
  }

  -- What `insert_cached_block` does after it may have evicted a block.
  pub insert_if_room : Cache P → Block → Cache P
  unfolding insert_vacant
  insert_if_room s block = if leb cache_size (length s.cache) then s else insert_vacant s block

  pub insert_cached_block : Cache P → Block → Cache P
  unfolding evict_block insert_if_room
  insert_cached_block s block =
      insert_if_room (if leb cache_size (length s.cache) then evict_block s else s) block

  -- What `read` makes of the answer of the underlying device.
  read_underlying : Cache P → Result Block IoError → Result Block IoError × Cache P
  unfolding insert_cached_block
  read_underlying s (err e) = (err e, s)
  read_underlying s (ok block) = (ok block, insert_cached_block s block)

  read_block :
      (ℕ → Result Block IoError) → Cache P → ℕ → Option Bytes → Result Block IoError × Cache P
  unfolding read_underlying
  read_block underlying_read s i (some content) =
      (ok (record { block_id = i; content = content }), s)
  read_block underlying_read s i none = read_underlying s (underlying_read i)

  -- `read`, which observers see first.
  pub read :
      (ℕ → Result Block IoError) → Cache P → ℕ → Result Block IoError × (Cache P × List Message)
  unfolding read_block
  read underlying_read s i =
      let (res, s') = read_block underlying_read s i (get s.cache i) in
      (res, (s', observation i ∷ []))

  pub send_underlying_request : Cache P → ℕ → Outstanding → List Message
  send_underlying_request s i outstanding =
      if not (contains_key outstanding i) && not (contains_key s.cache i)
      then request i ∷ []
      else []

  pub handle_request : Cache P → ReadRequest → Outstanding → List Message × Outstanding
  unfolding send_underlying_request
  handle_request s req outstanding =
      let outstanding' = push_waiting outstanding req in
      elim (get s.cache req.block_id) [
        | some content ↦ (
          reply req.reply_to (record { block_id = req.block_id; content = content }) ∷ [],
          outstanding,
        )
        | none ↦ (send_underlying_request s req.block_id outstanding', outstanding')
      ]

  pub handle_reply : Cache P → Block → Outstanding → List Message × (Cache P × Outstanding)
  unfolding insert_cached_block
  handle_reply s block outstanding = (
    map (λ w. reply w block) (waiting_for outstanding block.block_id),
    (insert_cached_block s block, remove outstanding block.block_id),
  )

  -- One arm of the `select!` of `read_handler_thread`.
  pub handle : Cache P × Outstanding → Event → List Message × (Cache P × Outstanding)
  unfolding handle_request send_underlying_request handle_reply
  handle (s, outstanding) (read_request req) =
      let (messages, outstanding') = handle_request s req outstanding in
      (observation req.block_id ∷ messages, (s, outstanding'))
  handle (s, outstanding) (prefetch_request i) =
      (send_underlying_request s i outstanding, (s, outstanding))
  handle (s, outstanding) (read_reply block) = handle_reply s block outstanding

  -- The loop of `read_handler_thread` over the events it receives.
  pub read_handler_thread :
      Cache P × Outstanding → List Event → List Message × (Cache P × Outstanding)
  unfolding handle
  read_handler_thread s [] = ([], s)
  read_handler_thread s (e ∷ es) =
      let (messages, s') = handle s e in
      let (others, s'') = read_handler_thread s' es in (messages ++ others, s'')
