-- ===== src/Cursor.antt =====
-- orpc/src/oqueue/mod.rs: cursors into the history of a queue.
use orpc_prototype.Prelude.{
  ℕ, ◌+◌, ◌-◌, Outcome, done, panic, expect_failed, ltb, if◌then◌else◌, usize_bound,
}

-- `Cursor(usize)`
pub record Cursor : Type 0 where
  pub position : ℕ

abbrev pub cursor : ℕ → Cursor
cursor i = record { position = i }

abbrev pub index_of : Cursor → ℕ
index_of c = c.position

-- `Cursor + usize`: `checked_add` and `unwrap`.
unfoldable pub add : Cursor → ℕ → Outcome Cursor
add c rhs =
    if ltb (c.position + rhs) usize_bound
    then done (cursor (c.position + rhs))
    else panic expect_failed

-- `Cursor - usize`: `saturating_sub`.
unfoldable pub sub : Cursor → ℕ → Cursor
sub c rhs = cursor (c.position - rhs)
