-- ===== src/Demo/Cache/Requests.antt =====
-- prefetcher_demo/src/cache.rs: which requests the handler thread answers.
use orpc_prototype.Prelude.{
  times, times-append, get, contains_key, remove, get-remove_self, get-remove_other,
  get-insert_self, get-insert_other, ℕ, ◌+◌, ◌≡◌, refl, ap, ◌∙◌, subst, inl, inr, arith, Bool, true,
  false, not, ◌&&◌, Option, none, some, List, [], ◌∷◌, ◌++◌, map, ◌==◌, if◌then◌else◌, All,
  Bool-cases, Option-cases, ==-false, ==-refl, ℕ_discrete,
}
use orpc_prototype.Demo.{Bytes, Block, ReadRequest, EvictionPolicy}
use orpc_prototype.Demo.Cache.{
  Cache, Outstanding, waiting_for, push_waiting, Message, observation, request, reply, Event,
  read_request, prefetch_request, read_reply, send_underlying_request, handle_request, handle,
  handle_reply, read_handler_thread,
}

-- How often handle `w` asked for block `i`, and how often it was sent one of that number.
abbrev pub asks : ℕ → ℕ → Event → ℕ
asks i w (read_request req) = if req.block_id == i && req.reply_to == w then 1 else 0
asks i w (prefetch_request j) = 0
asks i w (read_reply b) = 0

abbrev pub asked : ℕ → ℕ → List Event → ℕ
asked i w [] = 0
asked i w (e ∷ es) = asks i w e + asked i w es

abbrev pub answered : ℕ → ℕ → List Message → ℕ
answered i w [] = 0
answered i w (reply v b ∷ ms) = (if b.block_id == i && v == w then 1 else 0) + answered i w ms
answered i w (observation j ∷ ms) = answered i w ms
answered i w (request j ∷ ms) = answered i w ms

abbrev pub waiting : ℕ → ℕ → Outstanding → ℕ
waiting i w outstanding = times w (waiting_for outstanding i)

answered-append :
    (i w : ℕ) (ms ns : List Message) → answered i w (ms ++ ns) ≡ answered i w ms + answered i w ns
answered-append i w [] ns = omega arith
answered-append i w (reply v b ∷ ms) ns = omega (arith, answered-append i w ms ns)
answered-append i w (observation j ∷ ms) ns = answered-append i w ms ns
answered-append i w (request j ∷ ms) ns = answered-append i w ms ns

answered-replies :
    (i w : ℕ) (b : Block) (l : List ℕ)
    → answered i w (map (λ v. reply v b) l) ≡ (if b.block_id == i then times w l else 0)
answered-replies i w b [] = elim (Bool-cases (b.block_id == i)) [ inl e ↦ rw e | inr e ↦ rw e ]
answered-replies i w b (v ∷ l) = elim (Bool-cases (b.block_id == i)) [
  | inl e ↦
      let rest = rw e at (answered-replies i w b l) in rw e (rw rest (one (v == w) (times w l)))
  | inr e ↦ let rest = rw e at (answered-replies i w b l) in rw e (omega (arith, rest))
]
  where
    one : (c : Bool) (n : ℕ) → (if c then 1 else 0) + n ≡ (if c then 1 + n else n)
    one true n = refl
    one false n = omega arith

waiting-get :
    (i w : ℕ) (outstanding : Outstanding) (o : Option (List ℕ))
    → get outstanding i ≡ o
    → waiting i w outstanding ≡ times w (elim o [ none ↦ [] | some l ↦ l ])
waiting-get i w outstanding o e =
    ap (λ (o : Option (List ℕ)). times w (elim o [ none ↦ [] | some l ↦ l ])) e

one_more : (c : Bool) (n : ℕ) → n + (if c then 1 else 0) ≡ (if true && c then 1 else 0) + n
one_more true n = omega arith
one_more false n = omega arith

-- A handle enters the list of its block and no other.
push_waiting-waiting :
    (i w : ℕ) (outstanding : Outstanding) (req : ReadRequest)
    → waiting i w (push_waiting outstanding req)
      ≡ asks i w (read_request req) + waiting i w outstanding
push_waiting-waiting i w outstanding req = elim (ℕ_discrete req.block_id i) [
  | yes p ↦
      subst
        (λ j.
          waiting j w (push_waiting outstanding req)
          ≡ asks j w (read_request req) + waiting j w outstanding)
        p same
  | no n ↦
      waiting-get i w (push_waiting outstanding req) (get outstanding i)
        (get-insert_other outstanding req.block_id i _ n)
      ∙ rw (==-false req.block_id i n) (omega arith)
]
  where
    j : ℕ
    j = req.block_id

    same :
        waiting j w (push_waiting outstanding req)
        ≡ asks j w (read_request req) + waiting j w outstanding
    same =
        waiting-get j w (push_waiting outstanding req) _ (get-insert_self outstanding j _)
        ∙ times-append w (waiting_for outstanding j) (req.reply_to ∷ [])
        ∙ rw (==-refl j) (one_more (req.reply_to == w) (waiting j w outstanding))

remove-waiting :
    (i w : ℕ) (outstanding : Outstanding) (b : Block)
    → answered i w (map (λ v. reply v b) (waiting_for outstanding b.block_id))
        + waiting i w (remove outstanding b.block_id)
      ≡ waiting i w outstanding
remove-waiting i w outstanding b = elim (ℕ_discrete b.block_id i) [
  | yes p ↦
      rw (answered-replies i w b (waiting_for outstanding b.block_id), p, ==-refl i)
        (omega (arith, waiting-get i w (remove outstanding i) none (get-remove_self outstanding i)))
  | no n ↦
      rw (answered-replies i w b (waiting_for outstanding b.block_id), ==-false b.block_id i n)
        (omega (
          arith,
          waiting-get i w (remove outstanding b.block_id) (get outstanding i)
              (get-remove_other outstanding b.block_id i n),
        ))
]

module _ {ℓ} {P : Type ℓ} (eviction_policy : EvictionPolicy P) (cache_size : ℕ) where
  send-answered :
      (s : Cache P) (j : ℕ) (outstanding : Outstanding) (i w : ℕ)
      → answered i w (send_underlying_request eviction_policy cache_size s j outstanding) ≡ 0
  unfolding send_underlying_request
  send-answered s j outstanding i w =
      go (not (contains_key outstanding j) && not (contains_key s.cache j))
    where
      go : (c : Bool) → answered i w (if c then request j ∷ [] else []) ≡ 0
      go true = refl
      go false = refl

  handle_request-hit :
      (s : Cache P) (req : ReadRequest) (outstanding : Outstanding) (content : Bytes)
      → get s.cache req.block_id ≡ some content
      → handle_request eviction_policy cache_size s req outstanding ≡ (
        reply req.reply_to (record { block_id = req.block_id; content = content }) ∷ [],
        outstanding,
      )
  unfolding handle_request
  handle_request-hit s req outstanding content e = rw (e, handle_request)

  -- The block is in the map of outstanding requests before it is looked up there.
  handle_request-miss :
      (s : Cache P) (req : ReadRequest) (outstanding : Outstanding)
      → get s.cache req.block_id ≡ none
      → handle_request eviction_policy cache_size s req outstanding
        ≡ ([], push_waiting outstanding req)
  unfolding handle_request send_underlying_request
  handle_request-miss s req outstanding e = rw (e, handle_request, ==-refl req.block_id)

  handle-balance :
      (e : Event) (s : Cache P) (outstanding : Outstanding) (i w : ℕ)
      → answered i w (handle eviction_policy cache_size (s, outstanding) e).0
          + waiting i w (handle eviction_policy cache_size (s, outstanding) e).1.1
        ≡ asks i w e + waiting i w outstanding
  unfolding handle handle_request handle_reply
  handle-balance (read_request req) s outstanding i w =
      elim (Option-cases (get s.cache req.block_id)) [
        | inl e ↦
            rw (handle_request-miss s req outstanding e, handle)
              (omega (arith, push_waiting-waiting i w outstanding req))
        | inr (content, e) ↦
            rw (handle_request-hit s req outstanding content e, handle) (omega arith)
      ]
  handle-balance (prefetch_request j) s outstanding i w =
      omega (arith, send-answered s j outstanding i w)
  handle-balance (read_reply b) s outstanding i w = omega (arith, remove-waiting i w outstanding b)

  -- No request is lost and none is answered twice: for every block and every reply handle, the
  -- replies sent and the requests that wait at the end are as many as the requests received and
  -- those that waited at the start.
  pub read_handler_thread-balance :
      (events : List Event) (s : Cache P) (outstanding : Outstanding) (i w : ℕ)
      → answered i w (read_handler_thread eviction_policy cache_size (s, outstanding) events).0
          + waiting i w (read_handler_thread eviction_policy cache_size (s, outstanding) events).1.1
        ≡ asked i w events + waiting i w outstanding
  unfolding read_handler_thread
  read_handler_thread-balance [] s outstanding i w = refl
  read_handler_thread-balance (e ∷ es) s outstanding i w =
      let (ms, s₁) = handle eviction_policy cache_size (s, outstanding) e in
      let (ns, s₂) = read_handler_thread eviction_policy cache_size s₁ es in
      omega (
        arith,
        answered-append i w ms ns,
        handle-balance e s outstanding i w,
        read_handler_thread-balance es s₁.0 s₁.1 i w,
      )

  -- Requests for blocks that are not cached.
  abbrev pub Misses : Cache P → List Event → Type 0
  Misses s [] = Unit
  Misses s (read_request req ∷ es) = (get s.cache req.block_id ≡ none) × Misses s es
  Misses s (prefetch_request j ∷ es) = ⊥
  Misses s (read_reply b ∷ es) = ⊥

  -- Messages that only the observers of the cache get.
  abbrev pub OnlyObserved : Message → Type 0
  OnlyObserved (observation i) = Unit
  OnlyObserved (request i) = ⊥
  OnlyObserved (reply w b) = ⊥

  -- Requests for blocks that are not cached are not passed on: whatever their number, if the handler
  -- thread receives nothing else, it sends nothing to the underlying device and nothing to a reply
  -- handle.
  pub read_handler_thread-Misses :
      (events : List Event) (s : Cache P) (outstanding : Outstanding)
      → Misses s events
      → All OnlyObserved (read_handler_thread eviction_policy cache_size (s, outstanding) events).0
  unfolding read_handler_thread handle handle_request send_underlying_request
  read_handler_thread-Misses [] s outstanding h = tt
  read_handler_thread-Misses (read_request req ∷ es) s outstanding (h, hs) =
      rw (handle_request-miss s req outstanding h, handle)
        (tt, read_handler_thread-Misses es s (push_waiting outstanding req) hs)
  read_handler_thread-Misses (prefetch_request j ∷ es) s outstanding h = absurd h
  read_handler_thread-Misses (read_reply b ∷ es) s outstanding h = absurd h
