-- ===== src/Demo/Eviction.antt =====
-- prefetcher_demo/src/eviction_policy.rs: the policies `LeastRecentlyUsed` and `Random`, each with
-- the thread that takes the insertions from its queue. The queue is modelled by its contract, as the
-- values sent that are not received yet; a `send` into a queue that is full waits. The random number
-- generator is a function that is given the bound of the range.
pub mod Order
mod Tests
use orpc_prototype.Prelude.{
  ℕ, zero, suc, ◌+◌, Bool, Option, none, some, List, [], ◌∷◌, ◌++◌, ltb, ◌==◌, if◌then◌else◌,
  length, get_elem?, set, pop,
}
use Prim.Native.String.{String}
use orpc_prototype.Rpc.{Result, ok, err, RpcError, server_missing}
use orpc_prototype.Demo.{IoError, io_failure}

-- The blocks that are known to be in the cache, and the insertions that wait in the queue.
pub record Policy : Type 0 where
  pub blocks_in_cache : List ℕ
  pub insertion_oqueue : List ℕ

-- A queue made with `LockingQueue::new(16)` holds one value less than its size.
abbrev pub queue_room : ℕ
queue_room = 15

abbrev pub no_block : IoError
no_block = io_failure "No block to evict"

-- `select_victim` of `LeastRecentlyUsed`
pub select_oldest : Policy → Result ℕ IoError × Policy
select_oldest p = elim p.blocks_in_cache [
  | [] ↦ (err no_block, p)
  | k ∷ ks ↦ (ok k, record p { blocks_in_cache = ks })
]

-- `Vec::swap_remove` at an index within the vector: the element, and the vector with the last
-- element in its place.
pub swap_remove : List ℕ → ℕ → Option (ℕ × List ℕ)
swap_remove l i = elim (get_elem? l i) [
  | none ↦ none
  | some v ↦ elim (pop l) [ none ↦ none | some (last, rest) ↦ some (v, set rest i last) ]
]

-- `remove_random`
pub remove_random : (ℕ → ℕ) → List ℕ → Option (ℕ × List ℕ)
unfolding swap_remove
remove_random random_range l =
    if length l == 0 then none else swap_remove l (random_range (length l))

-- `select_victim` of `Random`
pub select_random : (ℕ → ℕ) → Policy → Result ℕ IoError × Policy
unfolding remove_random
select_random random_range p = elim (remove_random random_range p.blocks_in_cache) [
  | none ↦ (err no_block, p)
  | some (k, ks) ↦ (ok k, record p { blocks_in_cache = ks })
]

-- `inserted` of both policies, or none while it waits for room. `attached` says that the policy's
-- queue accepts senders.
pub inserted : Bool → Policy → ℕ → Option (Result (Unit {0}) RpcError × Policy)
inserted attached p i =
    if attached
    then (if ltb (length p.insertion_oqueue) queue_room
        then some (ok tt, record p { insertion_oqueue = p.insertion_oqueue ++ (i ∷ []) })
        else none)
    else some (err server_missing, p)

-- One round of the policy's thread, which waits for a value.
pub receive_one : Policy → Policy
receive_one p = elim p.insertion_oqueue [
  | [] ↦ p
  | i ∷ is ↦ record { blocks_in_cache = p.blocks_in_cache ++ (i ∷ []); insertion_oqueue = is }
]

-- The calls that reach a policy, and the rounds of its thread, in an order in which they happen. A
-- call that waits is tried again later.
pub data Step : Type 0 where
  select : Step
  insert_block : ℕ → Step
  receive : Step

-- What a step brings: the victims selected and the blocks whose insertion was accepted.
abbrev pub Outputs : Type 0
Outputs = List ℕ × List ℕ

after_select : Result ℕ IoError × Policy → Outputs × Policy
after_select (ok k, p) = ((k ∷ [], []), p)
after_select (err e, p) = (([], []), p)

after_insert : Policy → ℕ → Option (Result (Unit {0}) RpcError × Policy) → Outputs × Policy
after_insert p i none = (([], []), p)
after_insert p i (some (err e, p')) = (([], []), p')
after_insert p i (some (ok u, p')) = (([], i ∷ []), p')

module _ (select_victim : Policy → Result ℕ IoError × Policy) (attached : Bool) where
  pub step : Policy → Step → Outputs × Policy
  unfolding after_select after_insert inserted receive_one
  step p select = after_select (select_victim p)
  step p (insert_block i) = after_insert p i (inserted attached p i)
  step p receive = (([], []), receive_one p)

  pub run : Policy → List Step → Outputs × Policy
  unfolding step
  run p [] = (([], []), p)
  run p (s ∷ ss) =
      let (out, p') = step p s in
      let (outs, p'') = run p' ss in ((out.0 ++ outs.0, out.1 ++ outs.1), p'')

-- The blocks that a policy knows of, in the order in which their insertions were accepted.
abbrev pub known : Policy → List ℕ
known p = p.blocks_in_cache ++ p.insertion_oqueue
