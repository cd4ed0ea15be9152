-- ===== src/Demo/Disk/Calls.antt =====
-- prefetcher_demo/src/disk.rs: `Disk::read` as a whole, with the round of the disk's thread that
-- receives its request, and the ring of its reply queue. The sends of the observation and of the
-- request find room.
use orpc_prototype.Prelude.{
  ℕ, ◌≡◌, refl, ap, ◌∙◌, ==-refl, Option, none, some, List, [], ◌∷◌, Outcome, done, panic, ◌>>=◌,
  ◌==◌, if◌then◌else◌,
}
use orpc_prototype.Rpc.{Result, ok, err}
use orpc_prototype.Locking.{
  LockingTableInner, new_inner, attach_receiver, mod_len, blocks, any_blocks, can_send, put_at,
  try_send, try_take_for_head, receive_from, try_receive,
}
use orpc_prototype.Demo.{Bytes, Block, ReadRequest, IoError}
use orpc_prototype.Demo.Disk.{Sent, handle_round, Attachments, read}

-- `LockingQueue::new(2)`, with the receiver that `read` attaches.
reply_oqueue : Outcome (LockingTableInner Block)
reply_oqueue = attach_receiver (new_inner Block 2 0)

-- What the thread sends to reply handles in the round of a request. If the round panics, it unwinds
-- the thread, which sends nothing.
thread_replies : Bytes → ReadRequest → List (ℕ × Block)
thread_replies file req = elim (handle_round file req) [ panic p ↦ [] | done s ↦ s.replies ]

-- The sends to a handle of the reply queue, each at its first `try_send`.
send_replies : ℕ → LockingTableInner Block → List (ℕ × Block) → Outcome (LockingTableInner Block)
send_replies h q [] = done q
send_replies h q ((w, b) ∷ rest) = do
  q' ← (if w == h then (do r ← try_send q b; done r.1) else done q)
  send_replies h q' rest

-- What `receive` of the reply returns; none if it waits.
returned_reply : Option Block → Option (Result Block IoError)
returned_reply none = none
returned_reply (some b) = some (ok b)

receive_reply : LockingTableInner Block → Outcome (Option (Result Block IoError))
unfolding returned_reply
receive_reply q = do r ← try_receive q; done (returned_reply r.0)

-- The reply queue from its construction on: the sends of the thread to its handle, and the wait.
answered : ℕ → List (ℕ × Block) → Outcome (Option (Result Block IoError))
unfolding reply_oqueue send_replies receive_reply
answered h replies = do q ← reply_oqueue; q' ← send_replies h q replies; receive_reply q'

-- What `read` returns, or none if it waits for the reply after the thread's round.
pub disk_read : Bytes → Attachments → ℕ → Outcome (Option (Result Block IoError))
unfolding thread_replies answered
disk_read file a i = elim (read a i).1 [
  | err e ↦ done (some (err e))
  | ok req ↦ answered req.reply_to (thread_replies file req)
]

-- Attachments that all succeed, with the handle for the reply.
abbrev pub all_attached : ℕ → Attachments
all_attached h = record {
  observation_sender = ok tt;
  reply_receiver = ok tt;
  request_sender = ok tt;
  reply_sender = ok h;
}

-- One reply to the handle goes through the ring of the reply queue.
answered-one : (h : ℕ) (b : Block) → answered h ((h, b) ∷ []) ≡ done (some (ok b))
unfolding answered reply_oqueue send_replies receive_reply returned_reply new_inner attach_receiver
    mod_len blocks any_blocks can_send put_at try_send try_take_for_head receive_from try_receive
answered-one h b = rw (==-refl h) refl

thread_replies-done :
    (file : Bytes) (req : ReadRequest) (s : Sent)
    → handle_round file req ≡ done s
    → thread_replies file req ≡ s.replies
unfolding thread_replies
thread_replies-done file req s e =
    ap (λ (r : Outcome Sent). elim r [ panic p ↦ [] | done s ↦ s.replies ]) e

-- If the thread sends one reply, to the handle of the request, then the read returns its block.
pub disk_read-returns :
    (file : Bytes) (h i o : ℕ) (b : Block)
    → handle_round file (record { block_id = i; reply_to = h })
      ≡ done (record { observation = o; replies = (h, b) ∷ [] })
    → disk_read file (all_attached h) i ≡ done (some (ok b))
unfolding disk_read read
disk_read-returns file h i o b e =
    ap (answered h) (
      thread_replies-done file (record { block_id = i; reply_to = h })
        (record { observation = o; replies = (h, b) ∷ [] }) e)
    ∙ answered-one h b
