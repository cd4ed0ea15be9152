-- ===== src/Demo/Disk/Reads.antt =====
-- prefetcher_demo/src/disk.rs: what the disk answers.
use orpc_prototype.Prelude.{
  ℕ, ◌+◌, ◌*◌, ◌<◌, ◌≡◌, refl, inl, inr, List, [], ◌∷◌, map, done, usize_bound, leb, if◌then◌else◌,
  length, drop, take, All, Bool-cases, lt→ltb,
}
use orpc_prototype.Demo.{Bytes, ReadRequest}
use orpc_prototype.Demo.Disk.{
  block_size, read_at, reply_of, handle_request, Sent, replies_of, handle_round,
  read_handler_thread,
}

-- The bytes of a block.
abbrev pub bytes_of : Bytes → ℕ → Bytes
bytes_of file i = take block_size (drop (i * block_size) file)

-- What the disk sends for a request.
abbrev pub sent_for : Bytes → ReadRequest → Sent
sent_for file req = record {
  observation = req.block_id;
  replies =
      if leb (req.block_id * block_size + block_size) (length file)
      then (req.reply_to, record { block_id = req.block_id; content = bytes_of file req.block_id })
        ∷ []
      else [];
}

pub handle_round_lem :
    (file : Bytes) (req : ReadRequest)
    → req.block_id * block_size < usize_bound
    → handle_round file req ≡ done (sent_for file req)
unfolding handle_round handle_request read_at reply_of replies_of
handle_round_lem file req fits =
    rw (lt→ltb (req.block_id * block_size) usize_bound fits)
      (elim (Bool-cases (leb (req.block_id * block_size + block_size) (length file))) [
        | inl e ↦ rw e
        | inr e ↦ rw e
      ])

-- As long as no block's offset overflows, the disk's thread handles every request: it sends the
-- block of its number with the bytes that the file has there to the reply handle of the request,
-- and, if the file ends before the block does, nothing, so that who waits for that reply waits on.
pub read_handler_thread_lem :
    (file : Bytes) (reqs : List ReadRequest)
    → All (λ req. req.block_id * block_size < usize_bound) reqs
    → read_handler_thread file reqs ≡ done (map (λ req. sent_for file req) reqs)
unfolding read_handler_thread
read_handler_thread_lem file [] h = refl
read_handler_thread_lem file (req ∷ reqs) (h, hs) =
    rw (handle_round_lem file req h, read_handler_thread_lem file reqs hs)
