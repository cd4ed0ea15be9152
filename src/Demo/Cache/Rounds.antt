-- ===== src/Demo/Cache/Rounds.antt =====
-- prefetcher_demo/src/cache.rs: the `select!` of `read_handler_thread` on the three queues that it
-- receives from, each by its contract, as the messages in it.
use orpc_prototype.Prelude.{ℕ, ◌≡◌, sym, ap, ◌∙◌, Option, none, some, List, [], ◌∷◌, ◌++◌, drop}
use mathlib.Core.List.{append_assoc, append-nil}
use orpc_prototype.Demo.{Block, ReadRequest, EvictionPolicy}
use orpc_prototype.Sync.Select.{BlockerClause, check_statements, method_call, other}
use orpc_prototype.Demo.Cache.{
  Cache, Outstanding, Message, Event, read_request, prefetch_request, read_reply, handle,
  read_handler_thread,
}

-- The messages that have not been received yet.
pub record Inbox : Type 0 where
  pub read_requests : List ReadRequest
  pub prefetch_requests : List ℕ
  pub replies : List Block

-- `try_receive` of a queue
abbrev pub take_front {ℓ} : {A : Type ℓ} → List A → Option (A × List A)
take_front [] = none
take_front (x ∷ xs) = some (x, xs)

module _ {ℓ} {P : Type ℓ} (eviction_policy : EvictionPolicy P) (cache_size : ℕ) where
  -- What the thread's loop works on: its queues, what it has sent, and its state.
  abbrev pub Thread : Type ℓ
  Thread = Inbox × (List Message × (Cache P × Outstanding))

  serve : Event → Thread → Thread
  serve e (inbox, (sent, s)) =
      let (messages, s') = handle eviction_policy cache_size s e in (inbox, (sent ++ messages, s'))

  request_clause : BlockerClause Thread Event
  unfolding serve
  request_clause = record {
    expr = method_call (other 0);
    attempt = λ w. elim (take_front w.0.read_requests) [
      | none ↦ (none, w)
      | some (x, rest) ↦ (some (read_request x), (record w.0 { read_requests = rest }, w.1))
    ];
    body = serve;
  }

  prefetch_clause : BlockerClause Thread Event
  unfolding serve
  prefetch_clause = record {
    expr = method_call (other 1);
    attempt = λ w. elim (take_front w.0.prefetch_requests) [
      | none ↦ (none, w)
      | some (x, rest) ↦ (some (prefetch_request x), (record w.0 { prefetch_requests = rest }, w.1))
    ];
    body = serve;
  }

  reply_clause : BlockerClause Thread Event
  unfolding serve
  reply_clause = record {
    expr = method_call (other 2);
    attempt = λ w. elim (take_front w.0.replies) [
      | none ↦ (none, w)
      | some (x, rest) ↦ (some (read_reply x), (record w.0 { replies = rest }, w.1))
    ];
    body = serve;
  }

  -- A round of the loop, once `block_on` has returned.
  pub round : Thread → Thread
  unfolding request_clause prefetch_clause reply_clause
  round = check_statements (request_clause ∷ prefetch_clause ∷ reply_clause ∷ [])

  -- The events of a round: the first message of each queue.
  first_of {κ} : {A : Type κ} → (A → Event) → List A → List Event
  first_of f [] = []
  first_of f (x ∷ xs) = f x ∷ []

  pub events_of : Inbox → List Event
  unfolding first_of
  events_of inbox =
      first_of read_request inbox.read_requests
      ++ (first_of prefetch_request inbox.prefetch_requests ++ first_of read_reply inbox.replies)

  pub rest_of : Inbox → Inbox
  rest_of inbox = record {
    read_requests = drop 1 inbox.read_requests;
    prefetch_requests = drop 1 inbox.prefetch_requests;
    replies = drop 1 inbox.replies;
  }

  serve_all : List Event → Thread → Thread
  unfolding serve
  serve_all [] w = w
  serve_all (e ∷ es) w = serve_all es (serve e w)

  serve_all_lem :
      (events : List Event) (inbox : Inbox) (sent : List Message) (s : Cache P × Outstanding)
      → serve_all events (inbox, (sent, s)) ≡ (
        inbox,
        (
          sent ++ (read_handler_thread eviction_policy cache_size s events).0,
          (read_handler_thread eviction_policy cache_size s events).1,
        ),
      )
  unfolding serve_all serve read_handler_thread
  serve_all_lem [] inbox sent s =
      ap (λ (ms : List Message). (inbox, (ms, s))) (sym (append-nil sent))
  serve_all_lem (e ∷ es) inbox sent s =
      let (ms, s') = handle eviction_policy cache_size s e in
      let (ns, s'') = read_handler_thread eviction_policy cache_size s' es in
      serve_all_lem es inbox (sent ++ ms) s'
      ∙ ap (λ (ks : List Message). (inbox, (ks, s''))) (append_assoc sent ms ns)

  -- A round of the handler thread receives at most one message from each queue, in the order of the
  -- clauses, and does with them what the loop over these events does.
  pub round_lem :
      (inbox : Inbox) (sent : List Message) (s : Cache P × Outstanding)
      → let out = read_handler_thread eviction_policy cache_size s (events_of inbox) in
        round (inbox, (sent, s)) ≡ (rest_of inbox, (sent ++ out.0, out.1))
  unfolding round serve_all read_handler_thread events_of first_of rest_of check_statements
      request_clause prefetch_clause reply_clause serve
  round_lem inbox sent s = go inbox.read_requests inbox.prefetch_requests inbox.replies
    where
      go :
          (a : List ReadRequest) (b : List ℕ) (c : List Block)
          → let inbox : Inbox = record { read_requests = a; prefetch_requests = b; replies = c } in
            let out = read_handler_thread eviction_policy cache_size s (events_of inbox) in
            round (inbox, (sent, s)) ≡ (rest_of inbox, (sent ++ out.0, out.1))
      go [] [] [] = serve_all_lem [] _ sent s
      go [] [] (z ∷ c) = serve_all_lem (read_reply z ∷ []) _ sent s
      go [] (y ∷ b) [] = serve_all_lem (prefetch_request y ∷ []) _ sent s
      go [] (y ∷ b) (z ∷ c) = serve_all_lem (prefetch_request y ∷ read_reply z ∷ []) _ sent s
      go (x ∷ a) [] [] = serve_all_lem (read_request x ∷ []) _ sent s
      go (x ∷ a) [] (z ∷ c) = serve_all_lem (read_request x ∷ read_reply z ∷ []) _ sent s
      go (x ∷ a) (y ∷ b) [] = serve_all_lem (read_request x ∷ prefetch_request y ∷ []) _ sent s
      go (x ∷ a) (y ∷ b) (z ∷ c) =
          serve_all_lem (read_request x ∷ prefetch_request y ∷ read_reply z ∷ []) _ sent s
