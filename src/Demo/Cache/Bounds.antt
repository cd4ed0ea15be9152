-- ===== src/Demo/Cache/Bounds.antt =====
-- prefetcher_demo/src/cache.rs: induction over what changes the cache, and that it never holds more blocks than its size.
use orpc_prototype.Prelude.{
  get, contains_key, remove, insert, length-remove, remove-absent, ℕ, ◌≤◌, ◌<◌, ◌≡◌, inl, inr,
  arith, Bool, true, false, Option, none, some, List, [], ◌∷◌, leb, if◌then◌else◌, length,
  Bool-cases,
}
use orpc_prototype.Rpc.{Result, ok, err}
use orpc_prototype.Demo.{Bytes, Block, IoError, EvictionPolicy}
use orpc_prototype.Demo.Cache.{
  Cache, Outstanding, Event, read_request, prefetch_request, read_reply, evict_block, insert_vacant,
  insert_if_room, insert_cached_block, read_underlying, read_block, read, handle, handle_reply,
  read_handler_thread,
}

module _ {ℓ} {P : Type ℓ} (eviction_policy : EvictionPolicy P) (cache_size : ℕ) where
  -- A property of the server's state that eviction keeps, and insertion into a cache with room.
  module _ {κ} (I : Cache P → Type κ) (b : Block)
      (evicts : (s : Cache P) → I s → I (evict_block eviction_policy cache_size s))
      (inserts : (s : Cache P)
        → I s
        → length s.cache < cache_size
        → contains_key s.cache b.block_id ≡ false
        → I (record s {
          cache = insert s.cache b.block_id b.content;
          policy = (eviction_policy.inserted s.policy b.block_id).1;
        })) where
    pub insert_vacant-keeps :
        (s : Cache P)
        → I s
        → length s.cache < cache_size
        → I (insert_vacant eviction_policy cache_size s b)
    unfolding insert_vacant
    insert_vacant-keeps s h lt = elim (Bool-cases (contains_key s.cache b.block_id)) [
      | inl e ↦ rw e h
      | inr e ↦ rw e (inserts s h lt e)
    ]

    insert_if_room-keeps : (s : Cache P) → I s → I (insert_if_room eviction_policy cache_size s b)
    unfolding insert_if_room
    insert_if_room-keeps s h = elim (Bool-cases (leb cache_size (length s.cache))) [
      | inl e ↦ rw e h
      | inr e ↦ rw e (insert_vacant-keeps s h (ground arith))
    ]

    evict_if_full-keeps :
        (c : Bool) (s : Cache P)
        → I s
        → I (if c then evict_block eviction_policy cache_size s else s)
    evict_if_full-keeps true s h = evicts s h
    evict_if_full-keeps false s h = h

    pub insert_cached_block-keeps :
        (s : Cache P) → I s → I (insert_cached_block eviction_policy cache_size s b)
    unfolding insert_cached_block
    insert_cached_block-keeps s h =
        insert_if_room-keeps _ (evict_if_full-keeps (leb cache_size (length s.cache)) s h)

  abbrev pub Fits : Cache P → Type 0
  Fits s = length s.cache ≤ cache_size

  evict_victim :
      (s : Cache P) (r : Result ℕ IoError) (p : P)
      → length
          (elim r as (λ x. Cache P) [
            | ok k ↦ record s { cache = remove s.cache k; policy = p }
            | err e ↦ record s { policy = p }
          ]).cache
        ≤ length s.cache
  evict_victim s (ok k) p = length-remove s.cache k
  evict_victim s (err e) p = omega arith

  pub evict_block-length :
      (s : Cache P) → length (evict_block eviction_policy cache_size s).cache ≤ length s.cache
  unfolding evict_block
  evict_block-length s =
      evict_victim s (eviction_policy.select_victim s.policy).0
        (eviction_policy.select_victim s.policy).1

  -- Whatever the policy does, the insertion of a block keeps the cache within its size.
  insert_cached_block-Fits :
      (s : Cache P) (b : Block) → Fits s → Fits (insert_cached_block eviction_policy cache_size s b)
  insert_cached_block-Fits s b h =
      insert_cached_block-keeps Fits b (λ s h. omega (arith, evict_block-length s))
        (λ s h lt e. rw (remove-absent s.cache b.block_id e) (omega arith)) s h

  -- Whatever the policy and the underlying device answer, a read leaves a cache that is within its
  -- size within its size.
  pub read-Fits :
      (underlying_read : ℕ → Result Block IoError) (s : Cache P) (i : ℕ)
      → Fits s
      → Fits (read eviction_policy cache_size underlying_read s i).1.0
  unfolding read read_block read_underlying
  read-Fits underlying_read s i h = hit (get s.cache i)
    where
      answer : (r : Result Block IoError) → Fits (read_underlying eviction_policy cache_size s r).1
      answer (ok b) = insert_cached_block-Fits s b h
      answer (err e) = h

      hit :
          (o : Option Bytes) → Fits (read_block eviction_policy cache_size underlying_read s i o).1
      hit (some content) = h
      hit none = answer (underlying_read i)

  -- Whatever the handler thread receives, and whatever the policy does, a cache that is within its
  -- size stays within it.
  pub read_handler_thread-Fits :
      (events : List Event) (s : Cache P) (outstanding : Outstanding)
      → Fits s
      → Fits (read_handler_thread eviction_policy cache_size (s, outstanding) events).1.0
  unfolding read_handler_thread handle handle_reply
  read_handler_thread-Fits [] s outstanding h = h
  read_handler_thread-Fits (read_request req ∷ es) s outstanding h =
      read_handler_thread-Fits es s _ h
  read_handler_thread-Fits (prefetch_request i ∷ es) s outstanding h =
      read_handler_thread-Fits es s _ h
  read_handler_thread-Fits (read_reply b ∷ es) s outstanding h =
      read_handler_thread-Fits es _ _ (insert_cached_block-Fits s b h)
