-- ===== src/Sync/Mutex.antt =====
-- orpc/src/sync/mod.rs: the mutex around std's, which panics where std's returns an error. What a
-- thread does between `lock` and the drop of the guard is one function on the value; a panic in it
-- poisons the mutex, as std documents, and the value is not seen any more.
use orpc_prototype.Prelude.{
  ◌≡◌, refl, sym, subst, Bool, true, false, Option, none, some, Outcome, Panic, done, panic,
  poisoned, ◌>>=◌, if◌then◌else◌,
}

pub record Mutex {ℓ} (A : Type ℓ) : Type ℓ where
  pub value : A
  -- Whether another thread has the guard.
  pub held : Bool
  pub is_poisoned : Bool

module _ {ℓ} {A : Type ℓ} where
  -- `Mutex::new`
  abbrev pub new_mutex : A → Mutex A
  new_mutex v = record { value = v; held = false; is_poisoned = false }

  -- `Mutex::lock`, when no other thread has the guard: the unwrap of std's `lock`.
  unfoldable pub lock : Mutex A → Outcome A
  lock m = if m.is_poisoned then panic poisoned else done m.value

  -- `Mutex::try_lock`
  unfoldable pub try_lock : Mutex A → Outcome (Option A)
  try_lock m =
      if m.held then done none else if m.is_poisoned then panic poisoned else done (some m.value)

  -- The drop of the guard, at the end of the critical section or while it unwinds.
  unfoldable pub release {κ} : {B : Type κ} → Mutex A → Outcome (B × A) → Outcome B × Mutex A
  release m (done (b, v)) = (done b, record m { value = v })
  release m (panic p) = (panic p, record m { is_poisoned = true })

  -- A critical section after `lock`.
  unfoldable pub section {κ} : {B : Type κ} → (A → Outcome (B × A)) → Mutex A → Outcome B × Mutex A
  unfolding lock release
  section body m = release m (lock m >>= body)

  -- The `?` on what `try_lock` returned.
  unfoldable pub on_guard {κ} :
      {B : Type κ} → B → (A → Outcome (B × A)) → A → Option A → Outcome (B × A)
  on_guard busy body v none = done (busy, v)
  on_guard busy body v (some a) = body a

  -- A critical section after `try_lock`, and what is returned if there is no guard.
  unfoldable pub try_section {κ} :
      {B : Type κ} → B → (A → Outcome (B × A)) → Mutex A → Outcome B × Mutex A
  unfolding try_lock release on_guard
  try_section busy body m = release m (try_lock m >>= on_guard busy body m.value)

-- A call that panicked.
abbrev pub Panicked {ℓ} : {B : Type ℓ} → Outcome B → Type ℓ
Panicked r = (p : Panic) × (r ≡ panic p)

module _ {ℓ κ} {A : Type ℓ} {B : Type κ} where
  release-Panicked :
      (m : Mutex A) (r : Outcome (B × A))
      → Panicked (release m r).0
      → (release m r).1 ≡ record m { is_poisoned = true }
  unfolding release
  release-Panicked m (panic p) e = refl
  release-Panicked m (done x) (p, e) = absurd (cc)

  -- A panic in a critical section leaves the mutex poisoned.
  pub section-Panicked :
      (body : A → Outcome (B × A)) (m : Mutex A)
      → Panicked (section body m).0
      → (section body m).1 ≡ record m { is_poisoned = true }
  unfolding section
  section-Panicked body m h = release-Panicked m (lock m >>= body) h

  pub try_section-Panicked :
      (busy : B) (body : A → Outcome (B × A)) (m : Mutex A)
      → Panicked (try_section busy body m).0
      → (try_section busy body m).1 ≡ record m { is_poisoned = true }
  unfolding try_section
  try_section-Panicked busy body m h =
      release-Panicked m (try_lock m >>= on_guard busy body m.value) h

  -- A critical section of a poisoned mutex does not begin.
  pub section-poisoned :
      (body : A → Outcome (B × A)) (m : Mutex A)
      → m.is_poisoned ≡ true
      → section body m ≡ (panic poisoned, m)
  unfolding section lock release
  section-poisoned body m e =
      subst
        (λ b.
          section body (record m { is_poisoned = b })
          ≡ (panic poisoned, record m { is_poisoned = b }))
        (sym e) refl

  pub try_section-poisoned :
      (busy : B) (body : A → Outcome (B × A)) (m : Mutex A)
      → m.held ≡ false
      → m.is_poisoned ≡ true
      → try_section busy body m ≡ (panic poisoned, m)
  unfolding try_section try_lock release
  try_section-poisoned busy body m free e =
      subst
        (λ b.
          try_section busy body (record m { is_poisoned = b })
          ≡ (panic poisoned, record m { is_poisoned = b }))
        (sym e)
        (subst
          (λ h.
            try_section busy body (record m { held = h; is_poisoned = true })
            ≡ (panic poisoned, record m { held = h; is_poisoned = true }))
          (sym free) refl)
