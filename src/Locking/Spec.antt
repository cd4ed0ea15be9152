-- ===== src/Locking/Spec.antt =====
-- What orpc/src/oqueue/mod.rs promises of an `OQueue` over a ring of `turn` slots: the history of all
-- values sent, one position for the receivers together and one for each strong observer. Senders
-- wait only for those positions.
use orpc_prototype.Prelude.{
  ℕ, ◌+◌, ◌-◌, ◌<◌, ◌≡◌, Bool, false, ◌||◌, Option, none, some, List, [], ◌∷◌, ◌++◌, usize_max,
  ◌==◌, if◌then◌else◌, length, get_elem?, set, pop, any,
}

pub record Spec {ℓ} (T : Type ℓ) : Type ℓ where
  pub log : List T
  pub receivers : ℕ
  pub next : Option ℕ
  pub observers : List (Option ℕ)
  pub free : List ℕ

-- The calls made through handles. An observer is named by its slot.
pub data Op {ℓ} (T : Type ℓ) : Type ℓ where
  send : T → Op T
  receive : Op T
  observe : ℕ → Op T
  attach_receiver : Op T
  drop_receiver : Op T
  attach_observer : Op T
  drop_observer : ℕ → Op T

pub data Reply {ℓ} (T : Type ℓ) : Type ℓ where
  returned : Option T → Reply T
  attached : Option ℕ → Reply T
  finished : Reply T

module _ {ℓ} {T : Type ℓ} where
  -- A position that a whole turn of the ring separates from the position after the next value.
  abbrev pub waits_for : ℕ → Spec T → Option ℕ → Bool
  waits_for turn s none = false
  waits_for turn s (some c) = length s.log + 1 == c + turn

  abbrev pub is_full : ℕ → Spec T → Bool
  is_full turn s = waits_for turn s s.next || any (waits_for turn s) s.observers

  pub send_value : ℕ → Spec T → T → Reply T × Spec T
  send_value turn s x =
      if is_full turn s
      then (returned (some x), s)
      else (returned none, record s { log = s.log ++ (x ∷ []) })

  -- The value at a position, and the position after it.
  pub receive_value : Spec T → Option ℕ → Reply T × Spec T
  receive_value s none = (returned none, s)
  receive_value s (some c) = elim (get_elem? s.log c) [
    | none ↦ (returned none, s)
    | some x ↦ (returned (some x), record s { next = some (c + 1) })
  ]

  pub observe_value : Spec T → ℕ → Option (Option ℕ) → Reply T × Spec T
  observe_value s i none = (returned none, s)
  observe_value s i (some none) = (returned none, s)
  observe_value s i (some (some c)) = elim (get_elem? s.log c) [
    | none ↦ (returned none, s)
    | some x ↦ (returned (some x), record s { observers = set s.observers i (some (c + 1)) })
  ]

  -- A new observer starts at the next value to be sent.
  pub allocate : Spec T → Option (ℕ × List ℕ) → Reply T × Spec T
  allocate s none = (attached none, s)
  allocate s (some (i, rest)) = (
    attached (some i),
    record s { observers = set s.observers i (some (length s.log)); free = rest },
  )

  -- The first receiver starts at the next value to be sent; the last one to go takes the position
  -- with it.
  unfoldable pub step : ℕ → Spec T → Op T → Reply T × Spec T
  unfolding send_value receive_value observe_value allocate
  step turn s (send x) = send_value turn s x
  step turn s receive = receive_value s s.next
  step turn s (observe i) = observe_value s i (get_elem? s.observers i)
  step turn s attach_receiver = (
    finished,
    record s {
      receivers = s.receivers + 1;
      next = if s.receivers == 0 then some (length s.log) else s.next;
    },
  )
  step turn s drop_receiver = (
    finished,
    record s { receivers = s.receivers - 1; next = if s.receivers - 1 == 0 then none else s.next },
  )
  step turn s attach_observer = allocate s (pop s.free)
  step turn s (drop_observer i) =
      (finished, record s { observers = set s.observers i none; free = s.free ++ (i ∷ []) })

  -- What ownership of the handles guarantees of a call, and that the history stays within `usize`.
  abbrev pub Permitted : Spec T → Op T → Type 0
  Permitted s (send x) = length s.log + 1 < usize_max
  Permitted s receive = 0 < s.receivers
  Permitted s (observe i) = (c : ℕ) × (get_elem? s.observers i ≡ some (some c))
  Permitted s attach_receiver = s.receivers < usize_max
  Permitted s drop_receiver = 0 < s.receivers
  Permitted s attach_observer = Unit
  Permitted s (drop_observer i) = (c : ℕ) × (get_elem? s.observers i ≡ some (some c))

  unfoldable pub run : ℕ → Spec T → List (Op T) → List (Reply T) × Spec T
  run turn s [] = ([], s)
  run turn s (o ∷ ops) =
      let (r, s') = step turn s o in let (rs, s'') = run turn s' ops in (r ∷ rs, s'')

  abbrev pub AllPermitted : ℕ → Spec T → List (Op T) → Type 0
  AllPermitted turn s [] = Unit
  AllPermitted turn s (o ∷ ops) = Permitted s o × AllPermitted turn (step turn s o).1 ops
