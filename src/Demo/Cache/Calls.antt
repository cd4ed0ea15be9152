-- ===== src/Demo/Cache/Calls.antt =====
-- prefetcher_demo/src/cache.rs: `read` of the cache on an underlying device whose read may panic or
-- wait.
use orpc_prototype.Prelude.{
  get, ℕ, ◌≡◌, refl, inl, inr, Option, none, some, Outcome, done, ◌>>=◌, Option-cases,
}
use orpc_prototype.Rpc.{Result, ok}
use orpc_prototype.Demo.{Bytes, Block, IoError, EvictionPolicy}
use orpc_prototype.Demo.Cache.{Cache, read_underlying, read}

module _ {ℓ} {P : Type ℓ} (eviction_policy : EvictionPolicy P) (cache_size : ℕ) where
  -- What the cache makes of the answer of the device, if there is one.
  on_answer : Cache P → Option (Result Block IoError) → Option (Result Block IoError × Cache P)
  on_answer s none = none
  on_answer s (some r) = some (read_underlying eviction_policy cache_size s r)

  cache_read_block :
      (ℕ → Outcome (Option (Result Block IoError)))
      → Cache P
      → ℕ
      → Option Bytes
      → Outcome (Option (Result Block IoError × Cache P))
  unfolding on_answer
  cache_read_block underlying_read s i (some content) =
      done (some (ok (record { block_id = i; content = content }), s))
  cache_read_block underlying_read s i none = do
    answer ← underlying_read i
    done (on_answer s answer)

  -- `read`: what it returns, or none if it waits, and the state of the cache.
  pub cache_read :
      (ℕ → Outcome (Option (Result Block IoError)))
      → Cache P
      → ℕ
      → Outcome (Option (Result Block IoError × Cache P))
  unfolding cache_read_block
  cache_read underlying_read s i = cache_read_block underlying_read s i (get s.cache i)

  -- If the device answers, the read is that of the answer.
  pub cache_read-returns :
      (underlying_read : ℕ → Outcome (Option (Result Block IoError)))
      (answers : ℕ → Result Block IoError) (s : Cache P) (i : ℕ)
      → underlying_read i ≡ done (some (answers i))
      → cache_read underlying_read s i
        ≡ done (
            some (
              (read eviction_policy cache_size answers s i).0,
              (read eviction_policy cache_size answers s i).1.0,
            ))
  unfolding cache_read read
  cache_read-returns underlying_read answers s i e = elim (Option-cases (get s.cache i)) [
    | inl f ↦ rw (f, e) refl
    | inr (content, f) ↦ rw f refl
  ]
