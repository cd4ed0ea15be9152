-- ===== src/Handles/Wakeups.antt =====
-- orpc/src/oqueue/locking.rs: the receivers, strong observers and senders of any number of queues as
-- handles that tasks wait for. The queues are the abstract ones that the ring implements. A
-- `try_send` that put its value is followed by `read_wait_queue.wake_all`, and a read that returned a
-- value by `put_wait_queue.wake_all`.
pub mod Quiet
pub mod Readers
pub mod Senders
pub mod Ring
mod Tests
use orpc_prototype.Prelude.{
  ℕ, zero, suc, ◌+◌, ◌*◌, Bool, true, false, not, Option, none, some, ◌==◌, length,
}
use orpc_prototype.Sync.{update}
use orpc_prototype.Locking.Spec
use orpc_prototype.Locking.Spec.{Spec, Op, Reply, is_full}
use orpc_prototype.Locking.Reading.{Reader, receivers, observer, place}

-- Whether a position is behind `n`.
abbrev pub is_behind : ℕ → Option (Option ℕ) → Bool
is_behind n none = false
is_behind n (some none) = false
is_behind n (some (some c)) = not (c == n)

-- The handles of the queues, which have numbers.
pub data QueueHandle : Type 0 where
  reader : ℕ → Reader → QueueHandle
  sender : ℕ → QueueHandle

-- `read_wait_queue` and `put_wait_queue` of a queue.
abbrev pub read_list : ℕ → ℕ
read_list k = 2 * k

abbrev pub put_list : ℕ → ℕ
put_list k = 2 * k + 1

abbrev pub list_of : QueueHandle → ℕ
list_of (reader k r) = read_list k
list_of (sender k) = put_list k

-- The list to wake, by whether the readers and whether the senders are to be woken.
abbrev pub list_woken : ℕ → Bool → Bool → Option ℕ
list_woken k true senders = some (read_list k)
list_woken k false true = some (put_list k)
list_woken k false false = none

-- Nothing is asked of the queues or of the calls.
abbrev pub AnyQueues {ℓ} : {Q : Type ℓ} → Q → Type 0
AnyQueues qs = Unit

abbrev pub AnyCall {ℓ κ} : {Q : Type ℓ} {Op : Type κ} → Q → Op → Type 0
AnyCall qs o = Unit

module _ {ℓ} {T : Type ℓ} where
  -- `should_try` of the handle of a reader.
  abbrev pub should_read : Spec T → Reader → Bool
  should_read s r = is_behind (length s.log) (place r s)

  -- `should_try` of a sender.
  abbrev pub should_send : ℕ → Spec T → Bool
  should_send turn s = not (is_full turn s)

  -- A `try_send` that put its value wakes the readers.
  abbrev pub wakes_readers : ℕ → Spec T → Op T → Bool
  wakes_readers turn s (Op.send x) = not (is_full turn s)
  wakes_readers turn s o = false

  abbrev pub has_value : Reply T → Bool
  has_value (Reply.returned (some x)) = true
  has_value r = false

  -- A `try_receive` or `try_strong_observe` that returned a value wakes the senders.
  abbrev pub wakes_senders : ℕ → Spec T → Op T → Bool
  wakes_senders turn s (Op.send x) = false
  wakes_senders turn s Op.attach_receiver = false
  wakes_senders turn s Op.drop_receiver = false
  wakes_senders turn s Op.attach_observer = false
  wakes_senders turn s (Op.drop_observer i) = false
  wakes_senders turn s o = has_value (Spec.step turn s o).0

  -- Queues, each with the number of values that it may hold.
  module _ (turns : ℕ → ℕ) where
    abbrev pub apply : (ℕ → Spec T) → ℕ × Op T → ℕ → Spec T
    apply qs (k, o) = update qs k (Spec.step (turns k) (qs k) o).1

    abbrev pub wakes : (ℕ → Spec T) → ℕ × Op T → Option ℕ
    wakes qs (k, o) =
        list_woken k (wakes_readers (turns k) (qs k) o) (wakes_senders (turns k) (qs k) o)

    abbrev pub handle_should_try : (ℕ → Spec T) → QueueHandle → Bool
    handle_should_try qs (reader k r) = should_read (qs k) r
    handle_should_try qs (sender k) = should_send (turns k) (qs k)
