-- ===== src/Demo/Main/Client.antt =====
-- prefetcher_demo/src/main.rs: the reads of the client, on the file that the demo sets up.
use orpc_prototype.Prelude.{
  ℕ, zero, suc, ◌+◌, ◌-◌, ◌*◌, ◌%◌, ◌≤◌, ◌<◌, ◌≡◌, refl, ap, ◌∙◌, arith, true, some, List, [], ◌∷◌,
  ◌++◌, done, length, take, drop, replicate, leb-true, lt→ltb, length-append, length-replicate,
  if◌then◌else◌, Bool, false, contains_key,
}
use orpc_prototype.Rpc.{Result, ok}
use orpc_prototype.Demo.{Bytes, Block, ReadRequest, IoError, EvictionPolicy}
use orpc_prototype.Demo.Disk.{block_size, handle_round}
use orpc_prototype.Demo.Disk.Reads.{bytes_of, handle_round_lem}
use orpc_prototype.Demo.Disk.Calls.{disk_read, all_attached, disk_read-returns}
use orpc_prototype.Demo.Cache.{Cache, read}
use orpc_prototype.Demo.Cache.Calls.{cache_read, cache_read-returns}
use orpc_prototype.Demo.Cache.Contents.{Genuine, read_lem}
use orpc_prototype.Demo.Main.{n_blocks, write_at, setup_block_file, isize_bound, client_round}

length-take {ℓ} : {A : Type ℓ} (n : ℕ) (xs : List A) → n ≤ length xs → length (take n xs) ≡ n
length-take zero xs h = refl
length-take (suc n) [] h = absurd (omega arith)
length-take (suc n) (x ∷ xs) h = omega (arith, length-take n xs (omega arith))

-- The file reaches as far as the write did.
length-write_at :
    (file : Bytes) (offset : ℕ) (bytes : Bytes)
    → offset + length bytes ≤ length (write_at file offset bytes)
unfolding write_at
length-write_at file offset bytes =
    let padded = file ++ replicate (offset - length file) 0 in
    let size = length-append file (replicate (offset - length file) 0) in
    let kept =
      length-take offset padded
        (omega (arith, size, length-replicate {A = ℕ} (offset - length file) 0)) in
    omega (
      arith,
      kept,
      length-append (take offset padded) (bytes ++ drop (offset + length bytes) file),
      length-append bytes (drop (offset + length bytes) file),
    )

-- On the file that the demo sets up the disk answers for every block number of the client.
setup_answered :
    (file : Bytes) (req : ReadRequest)
    → req.block_id < n_blocks
    → handle_round (setup_block_file file) req
      ≡ done (record {
        observation = req.block_id;
        replies =
            (
              req.reply_to,
              record {
                block_id = req.block_id;
                content = bytes_of (setup_block_file file) req.block_id;
              },
            )
            ∷ [];
      })
unfolding setup_block_file
setup_answered file req lt =
    let size = length-write_at file (n_blocks * block_size) (0 ∷ []) in
    handle_round_lem (setup_block_file file) req (omega arith)
    ∙ (rw (
        leb-true (req.block_id * block_size + block_size) (length (setup_block_file file))
          (omega arith)))

abbrev pub disk_block : Bytes → ℕ → Block
disk_block disk t = record { block_id = t; content = bytes_of disk t }

either :
    (cached : Bool) {r : Result Block IoError} {b : Block}
    → r ≡ ok b
    → (if cached then ok b else r) ≡ ok b
either true e = refl
either false e = e

client_round_lem :
    (stride i : ℕ)
    → i * stride < isize_bound
    → i + 1 < isize_bound
    → client_round true stride i ≡ done (some ((i * stride) % n_blocks), i + 1)
unfolding client_round
client_round_lem stride i small more =
    rw (lt→ltb (i * stride) isize_bound small, lt→ltb (i + 1) isize_bound more)

module _ {P : Type 0} (eviction_policy : EvictionPolicy P) (cache_size : ℕ) (file : Bytes) where
  -- As long as the client's counter and its position fit an `isize`, each round of the running client
  -- reads a block number of the device, and on the file that the demo sets up the read returns the
  -- disk's block, from a cache with genuine blocks or from the disk, through the request, the round of
  -- the disk's thread for it and the reply queue; so the client's `unwrap` does not panic, and the
  -- cached blocks stay genuine. Provided that the servers are not aborted, that the attachments of the
  -- disk's read succeed and that the sends of the observations and of the request find room.
  pub client_read_lem :
      (reply_to : ℕ) (s : Cache P)
      → Genuine eviction_policy cache_size (bytes_of (setup_block_file file)) s
      → (stride i : ℕ) → i * stride < isize_bound
      → i + 1 < isize_bound
      → (t : ℕ) × (s' : Cache P) × (client_round true stride i ≡ done (some t, i + 1))
        × (t < n_blocks)
        × (cache_read eviction_policy cache_size
              (disk_read (setup_block_file file) (all_attached reply_to))
              s
              t
            ≡ done (some (ok (disk_block (setup_block_file file) t), s')))
        × Genuine eviction_policy cache_size (bytes_of (setup_block_file file)) s'
  client_read_lem reply_to s genuine stride i small more =
      let t : ℕ = (i * stride) % n_blocks in
      let lt : t < n_blocks = omega arith in
      let answers : ℕ → Result Block IoError = λ j. ok (disk_block (setup_block_file file) j) in
      let from_disk =
        disk_read-returns (setup_block_file file) reply_to t t
          (disk_block (setup_block_file file) t)
          (setup_answered file (record { block_id = t; reply_to = reply_to }) lt) in
      let (result, stays) =
        read_lem eviction_policy cache_size (bytes_of (setup_block_file file)) answers s t
          (λ b e. cc) genuine in
      let s' : Cache P = (read eviction_policy cache_size answers s t).1.0 in
      (
        t,
        s',
        client_round_lem stride i small more,
        lt,
        cache_read-returns eviction_policy cache_size
              (disk_read (setup_block_file file) (all_attached reply_to)) answers s t from_disk
            ∙ ap (λ r. done (some (r, s'))) (result ∙ either (contains_key s.cache t) refl),
        stays,
      )
