-- ===== src/Locking/Calls.antt =====
-- Calls through handles as one function on the ring, and the view of a ring as a state of the
-- specification.
use orpc_prototype.Prelude.{
  ℕ, ◌≡◌, Option, none, some, List, [], ◌∷◌, map, Outcome, done, ◌>>=◌, usize_max, ◌==◌,
  if◌then◌else◌, length,
}
use orpc_prototype.Locking.{
  LockingTableInner, new_inner, try_send, try_receive, try_receive_clone, try_strong_observe,
  allocate_observer, release_observer,
}
use orpc_prototype.Locking
use orpc_prototype.Locking.History.{Mode, moving, cloning, Stores}
use orpc_prototype.Locking.Spec.{Spec, Op, Reply}

-- `usize::MAX` stands for no position.
abbrev pub position : ℕ → Option ℕ
position h = if h == usize_max then none else some h

module _ {ℓ} {T : Type ℓ} where
  unfoldable pub give :
      Outcome (Option T × LockingTableInner T) → Outcome (Reply T × LockingTableInner T)
  give m = do r ← m; done (Reply.returned r.0, r.1)

  unfoldable pub keep : Outcome (LockingTableInner T) → Outcome (Reply T × LockingTableInner T)
  keep m = do q ← m; done (Reply.finished, q)

  -- A call through a handle of the plain queue or of the observable one.
  unfoldable pub step : Mode → LockingTableInner T → Op T → Outcome (Reply T × LockingTableInner T)
  unfolding give keep
  step m q (Op.send x) = give (try_send q x)
  step moving q Op.receive = give (try_receive q)
  step cloning q Op.receive = give (try_receive_clone q)
  step m q (Op.observe i) = give (try_strong_observe q i)
  step m q Op.attach_receiver = keep (Locking.attach_receiver q)
  step m q Op.drop_receiver = keep (Locking.drop_receiver q)
  step moving q Op.attach_observer = done (Reply.attached none, q)
  step cloning q Op.attach_observer = do r ← allocate_observer q; done (Reply.attached r.0, r.1)
  step m q (Op.drop_observer i) = keep (release_observer q i)

  unfoldable pub run :
      Mode → LockingTableInner T → List (Op T) → Outcome (List (Reply T) × LockingTableInner T)
  run m q [] = done ([], q)
  run m q (o ∷ ops) = do r ← step m q o; rest ← run m r.1 ops; done (r.0 ∷ rest.0, rest.1)

  abbrev pub view : List T → LockingTableInner T → Spec T
  view log q = record {
    log = log;
    receivers = q.n_receivers;
    next = if q.n_receivers == 0 then none else some q.head_index;
    observers = map position q.strong_observer_heads;
    free = q.free_strong_observer_heads;
  }

  -- The call returns `r` and leaves a ring that stands for `s`.
  abbrev pub Refines : Mode → LockingTableInner T → Op T → Reply T × Spec T → Type ℓ
  Refines m q o (r, s) =
      (q' : LockingTableInner T) × (step m q o ≡ done (r, q'))
      × (view s.log q' ≡ s)
      × Stores m s.log q'
      × (length q'.buffer ≡ length q.buffer)
