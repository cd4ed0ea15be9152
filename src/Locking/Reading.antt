-- ===== src/Locking/Reading.antt =====
-- What the readers of a queue read of the values sent: the receivers together, and each strong
-- observer.
use orpc_prototype.Prelude.{
  ℕ, ◌≤◌, ◌<◌, ◌≡◌, ◌≢◌, refl, sym, ◌∙◌, Option, none, some, List, [], ◌∷◌, ◌++◌, ◌==◌,
  if◌then◌else◌, length, get_elem?, drop, ==-false,
}
use mathlib.Core.List.{append-nil}
use orpc_prototype.Locking.Spec
use orpc_prototype.Locking.Spec.{Spec, Op, Reply, Permitted, AllPermitted}

-- The receivers share one position; each strong observer has its own.
pub data Reader : Type 0 where
  receivers : Reader
  observer : ℕ → Reader

module _ {ℓ} {T : Type ℓ} where
  abbrev to_list : Option T → List T
  to_list none = []
  to_list (some x) = x ∷ []

  -- What a call hands to the reader.
  abbrev pub read : Reader → Op T → Reply T → List T
  read receivers Op.receive (Reply.returned o) = to_list o
  read (observer i) (Op.observe j) (Reply.returned o) = if i == j then to_list o else []
  read r o y = []

  -- What a call adds to the history.
  abbrev pub accepted : Op T → Reply T → List T
  accepted (Op.send x) (Reply.returned none) = x ∷ []
  accepted o y = []

  abbrev pub all_read : Reader → List (Op T) → List (Reply T) → List T
  all_read r (o ∷ ops) (y ∷ ys) = read r o y ++ all_read r ops ys
  all_read r ops ys = []

  abbrev pub all_accepted : List (Op T) → List (Reply T) → List T
  all_accepted (o ∷ ops) (y ∷ ys) = accepted o y ++ all_accepted ops ys
  all_accepted ops ys = []

  abbrev pub place : Reader → Spec T → Option (Option ℕ)
  place receivers s = some s.next
  place (observer i) s = get_elem? s.observers i

  -- The call leaves the reader attached.
  abbrev pub Stays : Reader → Spec T → Op T → Type 0
  Stays receivers s Op.attach_receiver = 0 < s.receivers
  Stays receivers s Op.drop_receiver = 1 < s.receivers
  Stays (observer i) s (Op.drop_observer j) = j ≢ i
  Stays r s o = Unit

  abbrev pub AllStay : Reader → ℕ → Spec T → List (Op T) → Type 0
  AllStay r turn s [] = Unit
  AllStay r turn s (o ∷ ops) = Stays r s o × AllStay r turn (Spec.step turn s o).1 ops

  -- From position `c` of history `log` the reader reads `xs` and comes to `c'` of `log'`, which
  -- has the values `ys` more.
  pub record Reads (r : Reader) (c : ℕ) (log : List T) (xs ys : List T) (s : Spec T) : Type ℓ where
    pub position : ℕ
    pub here : place r s ≡ some (some position)
    pub within : position ≤ length s.log
    pub grown : s.log ≡ log ++ ys
    pub order : xs ++ drop position s.log ≡ drop c s.log

  pub read_other : (i j : ℕ) → i ≢ j → (y : Reply T) → read (observer i) (Op.observe j) y ≡ []
  read_other i j n (Reply.returned o) = rw (==-false i j n)
  read_other i j n (Reply.attached o) = refl
  read_other i j n Reply.finished = refl

  -- A call that reads nothing and sends nothing.
  pub idle-Reads :
      (r : Reader) (c : ℕ) (s s' : Spec T)
      → place r s' ≡ some (some c)
      → c ≤ length s.log
      → s'.log ≡ s.log
      → Reads r c s.log [] [] s'
  idle-Reads r c s s' e le same = record {
    position = c;
    here = e;
    within = rw same le;
    grown = same ∙ sym (append-nil s.log);
    order = refl;
  }
