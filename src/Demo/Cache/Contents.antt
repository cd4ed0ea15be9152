-- ===== src/Demo/Cache/Contents.antt =====
-- prefetcher_demo/src/cache.rs: what the cache and the replies hold is what the device holds.
use orpc_prototype.Prelude.{
  get, contains_key, remove, insert, get-remove_self, get-remove_other, get-insert_other,
  get-absent, get-present, ℕ, ◌≡◌, refl, sym, ap, ◌∙◌, subst, inl, inr, Bool, true, false, not,
  ◌&&◌, Option, some, List, [], ◌∷◌, map, if◌then◌else◌, All, Option-cases, ==-refl, All-append,
  ℕ_discrete,
}
use orpc_prototype.Rpc.{Result, ok, err}
use orpc_prototype.Demo.{Bytes, Block, IoError, EvictionPolicy}
use orpc_prototype.Demo.Cache.{
  Cache, Outstanding, push_waiting, waiting_for, Message, observation, request, reply, Event,
  read_request, prefetch_request, read_reply, evict_block, insert_cached_block, read_underlying,
  read_block, read, send_underlying_request, handle_request, handle, handle_reply,
  read_handler_thread,
}
use orpc_prototype.Demo.Cache.Bounds.{insert_cached_block-keeps}

module _ {ℓ} {P : Type ℓ} (eviction_policy : EvictionPolicy P) (cache_size : ℕ)
    (device : ℕ → Bytes) where
  abbrev pub block_of : ℕ → Block
  block_of i = record { block_id = i; content = device i }

  -- Every cached block has the device's bytes.
  abbrev pub Genuine : Cache P → Type 0
  Genuine s = (i : ℕ) (content : Bytes) → get s.cache i ≡ some content → content ≡ device i

  remove-Genuine :
      (s : Cache P) (p : P) (k : ℕ)
      → Genuine s
      → Genuine (record s { cache = remove s.cache k; policy = p })
  remove-Genuine s p k g i content e = elim (ℕ_discrete k i) [
    | yes q ↦ absurd (
        let f : get (remove s.cache k) k ≡ some content =
          ap (λ x. get (remove s.cache k) x) q ∙ e in
        let f' = get-remove_self s.cache k in cc)
    | no n ↦ g i content (sym (get-remove_other s.cache k i n) ∙ e)
  ]

  evict_block-Genuine :
      (s : Cache P) → Genuine s → Genuine (evict_block eviction_policy cache_size s)
  unfolding evict_block
  evict_block-Genuine s g =
      victim (eviction_policy.select_victim s.policy).0 (eviction_policy.select_victim s.policy).1
    where
      victim :
          (r : Result ℕ IoError) (p : P)
          → Genuine (elim r as (λ x. Cache P) [
            | ok k ↦ record s { cache = remove s.cache k; policy = p }
            | err e ↦ record s { policy = p }
          ])
      victim (ok k) p = remove-Genuine s p k g
      victim (err e) p = g

  insert-Genuine :
      (s : Cache P) (p : P) (i : ℕ)
      → Genuine s
      → Genuine (record s { cache = insert s.cache i (device i); policy = p })
  insert-Genuine s p i g j content e = elim (ℕ_discrete i j) [
    | yes q ↦
        let f : Path (Option Bytes) (some (device j)) (some content) = rw (q, ==-refl j) at e in cc
    | no n ↦ g j content (sym (get-insert_other s.cache i j (device i) n) ∙ e)
  ]

  insert_cached_block-Genuine :
      (s : Cache P) (i : ℕ)
      → Genuine s
      → Genuine (insert_cached_block eviction_policy cache_size s (block_of i))
  insert_cached_block-Genuine s i g =
      insert_cached_block-keeps eviction_policy cache_size Genuine (block_of i) evict_block-Genuine
        (λ s g lt e. insert-Genuine s (eviction_policy.inserted s.policy i).1 i g) s g

  -- Provided that the device's answer, unless it is an error, is its block, `read` returns the
  -- device's block if it is cached and the device's answer if not, and every cached block stays
  -- genuine, whatever the eviction policy does.
  pub read_lem :
      (underlying_read : ℕ → Result Block IoError) (s : Cache P) (i : ℕ)
      → ((b : Block) → underlying_read i ≡ ok b → b ≡ block_of i)
      → Genuine s
      → ((read eviction_policy cache_size underlying_read s i).0
          ≡ (if contains_key s.cache i then ok (block_of i) else underlying_read i))
        × Genuine (read eviction_policy cache_size underlying_read s i).1.0
  unfolding read read_block read_underlying
  read_lem underlying_read s i h g = elim (Option-cases (get s.cache i)) [
    | inl e ↦ rw (e, get-absent s.cache i e) (answer (underlying_read i) h)
    | inr (content, e) ↦
        rw (e, get-present s.cache i content e)
          (ap (λ c. ok (record { block_id = i; content = c })) (g i content e), g)
  ]
    where
      answer :
          (r : Result Block IoError)
          → ((b : Block) → r ≡ ok b → b ≡ block_of i)
          → ((read_underlying eviction_policy cache_size s r).0 ≡ r)
            × Genuine (read_underlying eviction_policy cache_size s r).1
      answer (ok b) h = (refl, rw (h b refl) (insert_cached_block-Genuine s i g))
      answer (err e) h = (refl, g)

  -- A block that the device sends is one of its blocks.
  abbrev pub GenuineEvent : Event → Type 0
  GenuineEvent (read_request req) = Unit
  GenuineEvent (prefetch_request i) = Unit
  GenuineEvent (read_reply b) = b ≡ block_of b.block_id

  abbrev pub GenuineMessage : Message → Type 0
  GenuineMessage (observation i) = Unit
  GenuineMessage (request i) = Unit
  GenuineMessage (reply w b) = b ≡ block_of b.block_id

  replies-Genuine :
      (b : Block) (l : List ℕ)
      → b ≡ block_of b.block_id
      → All GenuineMessage (map (λ w. reply w b) l)
  replies-Genuine b [] e = tt
  replies-Genuine b (w ∷ l) e = (e, replies-Genuine b l e)

  request-Genuine :
      (s : Cache P) (i : ℕ) (outstanding : Outstanding)
      → All GenuineMessage (send_underlying_request eviction_policy cache_size s i outstanding)
  unfolding send_underlying_request
  request-Genuine s i outstanding =
      go (not (contains_key outstanding i) && not (contains_key s.cache i))
    where
      go : (c : Bool) → All GenuineMessage (if c then request i ∷ [] else [])
      go true = (tt, tt)
      go false = tt

  handle-Genuine :
      (e : Event) (s : Cache P) (outstanding : Outstanding)
      → GenuineEvent e
      → Genuine s
      → All GenuineMessage (handle eviction_policy cache_size (s, outstanding) e).0
        × Genuine (handle eviction_policy cache_size (s, outstanding) e).1.0
  unfolding handle handle_request handle_reply
  handle-Genuine (read_request req) s outstanding h g =
      elim (Option-cases (get s.cache req.block_id)) [
        | inl e ↦ rw e ((tt, request-Genuine s req.block_id (push_waiting outstanding req)), g)
        | inr (content, e) ↦ rw e (
          (
            tt,
            (
              ap (λ (c : Bytes). record { block_id = req.block_id; content = c })
                  (g req.block_id content e),
              tt,
            ),
          ),
          g,
        )
      ]
  handle-Genuine (prefetch_request i) s outstanding h g = (request-Genuine s i outstanding, g)
  handle-Genuine (read_reply b) s outstanding h g = (
    replies-Genuine b (waiting_for outstanding b.block_id) h,
    subst (λ c. Genuine (insert_cached_block eviction_policy cache_size s c)) (sym h)
        (insert_cached_block-Genuine s b.block_id g),
  )

  -- If every block that the device sends is one of its blocks, then every block that the handler
  -- thread sends in reply is the device's block of its number, and every cached block stays genuine.
  pub read_handler_thread-Genuine :
      (events : List Event) (s : Cache P) (outstanding : Outstanding)
      → All GenuineEvent events
      → Genuine s
      → All GenuineMessage
          (read_handler_thread eviction_policy cache_size (s, outstanding) events).0
        × Genuine (read_handler_thread eviction_policy cache_size (s, outstanding) events).1.0
  unfolding read_handler_thread
  read_handler_thread-Genuine [] s outstanding h g = (tt, g)
  read_handler_thread-Genuine (e ∷ es) s outstanding (h, hs) g =
      let (sends, g') = handle-Genuine e s outstanding h g in
      let (others, g'') = read_handler_thread-Genuine es _ _ hs g' in
      (All-append GenuineMessage _ _ sends others, g'')
