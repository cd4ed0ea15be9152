-- ===== src/Demo/Disk.antt =====
-- prefetcher_demo/src/disk.rs: the disk server. The file is its bytes; reading past its end is the
-- error `UnexpectedEof` of `read_exact`. Reply handles are named by numbers.
pub mod Calls
pub mod Reads
mod Tests
use orpc_prototype.Prelude.{
  ℕ, zero, suc, ◌+◌, List, [], ◌∷◌, Outcome, done, ◌>>=◌, leb, if◌then◌else◌, length, drop, take,
}
use orpc_prototype.Prelude.{checked_mul}
use orpc_prototype.Rpc.{Result, ok, err}
use orpc_prototype.Handles.{OQueueAttachError}
use orpc_prototype.Demo.{Bytes, Block, ReadRequest, IoError, oqueue_attach_error}

abbrev pub block_size : ℕ
block_size = 4096

pub data FileError : Type 0 where
  unexpected_eof : FileError

-- `seek` to a byte from the start, and `read_exact` of a buffer of `n` bytes.
pub read_at : Bytes → ℕ → ℕ → Result Bytes FileError
read_at file offset n =
    if leb (offset + n) (length file) then ok (take n (drop offset file)) else err unexpected_eof

reply_of : ReadRequest → Result Bytes FileError → Result (ℕ × Block) FileError
reply_of req (err e) = err e
reply_of req (ok content) = ok (req.reply_to, record { block_id = req.block_id; content = content })

-- `handle_request`: the reply that it sends and the handle it sends it to, or its error.
pub handle_request : Bytes → ReadRequest → Outcome (Result (ℕ × Block) FileError)
unfolding read_at reply_of
handle_request file req = do
  offset ← checked_mul req.block_id block_size
  done (reply_of req (read_at file offset block_size))

-- What a round of `read_handler_thread` sends: the observation of a request, and the reply if there
-- is one. An error is printed.
pub record Sent : Type 0 where
  pub observation : ℕ
  pub replies : List (ℕ × Block)

replies_of : Result (ℕ × Block) FileError → List (ℕ × Block)
replies_of (ok r) = r ∷ []
replies_of (err e) = []

pub handle_round : Bytes → ReadRequest → Outcome Sent
unfolding handle_request replies_of
handle_round file req = do
  r ← handle_request file req
  done (record { observation = req.block_id; replies = replies_of r })

-- `read_handler_thread` over the requests that it receives.
pub read_handler_thread : Bytes → List ReadRequest → Outcome (List Sent)
unfolding handle_round
read_handler_thread file [] = done []
read_handler_thread file (req ∷ reqs) = do
  s ← handle_round file req
  rest ← read_handler_thread file reqs
  done (s ∷ rest)

-- How the attachments that `read` makes end.
pub record Attachments : Type 0 where
  pub observation_sender : Result (Unit {0}) OQueueAttachError
  pub reply_receiver : Result (Unit {0}) OQueueAttachError
  pub request_sender : Result (Unit {0}) OQueueAttachError
  -- The handle for the reply.
  pub reply_sender : Result ℕ OQueueAttachError

-- `read` up to the wait for the reply: the observations sent, and the request or the error returned.
pub read : Attachments → ℕ → List ℕ × Result ReadRequest IoError
read a i = elim a.observation_sender [
  | err e ↦ ([], err (oqueue_attach_error e))
  | ok u ↦ (
    i ∷ [],
    elim a.reply_receiver [
      | err e ↦ err (oqueue_attach_error e)
      | ok v ↦ elim a.request_sender [
        | err e ↦ err (oqueue_attach_error e)
        | ok w ↦ elim a.reply_sender [
          | err e ↦ err (oqueue_attach_error e)
          | ok h ↦ ok (record { block_id = i; reply_to = h })
        ]
      ]
    ],
  )
]
