-- ===== src/Demo/Disk/Tests.antt =====
-- A disk of one block, asked for two.
use orpc_prototype.Prelude.{◌≡◌, arith, List, [], ◌∷◌, map, done, replicate}
use orpc_prototype.Demo.{Bytes, ReadRequest}
use orpc_prototype.Demo.Disk.{block_size, read_handler_thread}
use orpc_prototype.Demo.Disk.Reads.{sent_for, read_handler_thread_lem}

abbrev requests : List ReadRequest
requests = record { block_id = 0; reply_to = 7 } ∷ record { block_id = 1; reply_to = 8 } ∷ []

read_handler_thread_lem_example :
    read_handler_thread (replicate block_size 5) requests
    ≡ done (map (λ req. sent_for (replicate block_size 5) req) requests)
read_handler_thread_lem_example =
    read_handler_thread_lem (replicate block_size 5) requests (omega arith, (omega arith, tt))

-- A file of one block, whose next block is read.
abbrev one_block : Bytes
one_block = replicate block_size 5
