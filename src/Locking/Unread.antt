-- ===== src/Locking/Unread.antt =====
-- A ring that nobody holds back: without receivers and without strong observers.
use orpc_prototype.Prelude.{
  ℕ, ◌+◌, ◌<◌, ◌≡◌, ◌⊎◌, refl, sym, ◌∙◌, subst, dec_lt, inl, inr, arith, Bool, false, not, ◌&&◌,
  Option, none, List, [], ◌∷◌, done, panic, add_overflow, usize_max, ◌==◌, any, All, All-replicate,
  checked_add, Outcome-cases,
}
use orpc_prototype.Locking.{LockingTableInner, new_inner, mod_len, can_send, try_send}
use orpc_prototype.Locking.Invariant.{IsValid, is_full}
use orpc_prototype.Locking.Effects.{sent, try_send-room}
use orpc_prototype.Locking.Preserve.{sent-IsValid, new_inner-IsValid}

pub record Unread {ℓ} {T : Type ℓ} (q : LockingTableInner T) : Type ℓ where
  pub valid : IsValid q
  pub no_receivers : q.n_receivers ≡ 0
  pub no_observers : All (λ h. h ≡ usize_max) q.strong_observer_heads

unused_heads :
    (hs : List ℕ) (f : ℕ → Bool)
    → All (λ h. h ≡ usize_max) hs
    → any (λ h. not (h == usize_max) && f h) hs ≡ false
unused_heads [] f a = refl
unused_heads (h ∷ hs) f a = rw (a.0, unused_heads hs f a.1)

pub new_inner-Unread {ℓ} :
    (T : Type ℓ) (buffer_size max_strong_observers : ℕ)
    → 0 < buffer_size
    → Unread (new_inner T buffer_size max_strong_observers)
unfolding new_inner
new_inner-Unread T n k pos = record {
  valid = new_inner-IsValid T n k pos;
  no_receivers = refl;
  no_observers = All-replicate (λ h. h ≡ usize_max) k usize_max refl;
}

module _ {ℓ} {T : Type ℓ} (q : LockingTableInner T) where
  Unread-room : Unread q → is_full q ≡ false
  Unread-room u = rw u.no_receivers (unused_heads q.strong_observer_heads _ u.no_observers)

  -- A value is accepted at once.
  pub try_send-Unread : (x : T) → Unread q → try_send q x ≡ done (none, sent q x)
  try_send-Unread x u = try_send-room q x u.valid (Unread-room u)

  pub sent-Unread : (x : T) → Unread q → q.tail_index + 1 < usize_max → Unread (sent q x)
  sent-Unread x u small = record {
    valid = sent-IsValid q u.valid x (Unread-room u) small;
    no_receivers = u.no_receivers;
    no_observers = u.no_observers;
  }

  -- When the positions are used up, nothing is sent.
  pub try_send-end :
      (x : T) (r : Option T × LockingTableInner T)
      → q.tail_index ≡ usize_max
      → try_send q x ≡ done r
      → ⊥
  unfolding try_send can_send
  try_send-end x r end e = elim (Outcome-cases (mod_len q q.head_index)) [
    | inl (p, f) ↦ let stuck : panic p ≡ done r = rw (f, can_send) at e in cc
    | inr (slot, f) ↦
        let full : checked_add q.tail_index 1 ≡ panic add_overflow = rw end in
        let stuck : panic add_overflow ≡ done r = rw (f, can_send, full) at e in cc
  ]

-- The ring is unread, or its positions are used up.
abbrev pub UnreadOrEnded {ℓ} : {T : Type ℓ} → LockingTableInner T → Type ℓ
UnreadOrEnded q = Unread q ⊎ (q.tail_index ≡ usize_max)

pub try_send-UnreadOrEnded {ℓ} :
    {T : Type ℓ} (q : LockingTableInner T) (x : T) (r : Option T × LockingTableInner T)
    → UnreadOrEnded q
    → try_send q x ≡ done r
    → UnreadOrEnded r.1
try_send-UnreadOrEnded {T = T} q x r (inr end) e = absurd (try_send-end q x r end e)
try_send-UnreadOrEnded {T = T} q x r (inl u) e =
    let accepted : done (none, sent q x) ≡ done r = sym (try_send-Unread q x u) ∙ e in
    let same : (none, sent q x) ≡ r = cc in
    subst (λ (s : Option T × LockingTableInner T). UnreadOrEnded s.1) same
      (elim (dec_lt (q.tail_index + 1) usize_max) [
        | yes small ↦ inl (sent-Unread q x u small)
        | no last ↦ inr (omega (arith, u.valid.bounded))
      ])
