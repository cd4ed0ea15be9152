-- ===== src/Sync/Select.antt =====
-- orpc_macros/src/select.rs: the blocker that the `select!` macro finds in a clause, and the code that
-- it generates: `block_on` on the blockers of all clauses, then each clause's check in their order.
use orpc_prototype.Prelude.{ℕ, Option, none, some, List, [], ◌∷◌, map}

-- The expressions that `blocker` tells apart: the field of an expression, a method call on a
-- receiver, a call with its first argument, a call without arguments, and all others.
pub data Expr : Type 0 where
  field : Expr → Expr
  method_call : Expr → Expr
  call : Expr → Expr
  call_without : ℕ → Expr
  other : ℕ → Expr

-- `BlockerClause::blocker`
pub blocker : Expr → Expr
blocker (field base) = base
blocker (method_call receiver) = receiver
blocker (call first) = first
blocker (call_without n) = call_without n
blocker (other n) = other n

-- A clause over the state `S`: the `try_` call and the body, for messages of the type `M`.
pub record BlockerClause {ℓ κ} (S : Type ℓ) (M : Type κ) : Type (ℓ ⊔ κ) where
  pub expr : Expr
  pub attempt : S → Option M × S
  pub body : M → S → S

module _ {ℓ κ} {S : Type ℓ} {M : Type κ} where
  -- `if let Some(message) = expr { body }`
  unfoldable pub check_statement : BlockerClause S M → S → S
  check_statement c s =
      let (message, s') = c.attempt s in elim message [ none ↦ s' | some x ↦ c.body x s' ]

  unfoldable pub check_statements : List (BlockerClause S M) → S → S
  unfolding check_statement
  check_statements [] s = s
  check_statements (c ∷ cs) s = check_statements cs (check_statement c s)

  -- The code generated: the blockers passed to `block_on`, and what follows when it returns, be it
  -- at once or after a wake-up.
  unfoldable pub select : List (BlockerClause S M) → List Expr × (S → S)
  unfolding blocker check_statements
  select cs = (map (λ c. blocker c.expr) cs, check_statements cs)
