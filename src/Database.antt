-- ===== src/Database.antt =====
-- ServerIList/Database.cpp: the queries, the table printers and the permissions. The SQLite library
-- is the parameter `exec`.
pub mod Mutex
pub mod Clock
pub mod Creation
pub mod Print
pub mod Permissions
use server_ilist.Prelude.{
  ℕ, zero, suc, ◌+◌, ◌≡◌, refl, Option, none, some, List, [], ◌∷◌, get_elem?, Bool, true, false,
}
use server_ilist.Text.{Text}
use server_ilist.Exception.{Outcome, ok}
use server_ilist.Action.{Action}
use server_ilist.World.{World, Row, Rows}

-- A statement that sqlite3_prepare_v2 accepted and that was stepped to its end: its column count
-- and, for each SQLITE_ROW, the answers of sqlite3_column_text, where `none` is a null pointer.
pub record Prepared : Type 0 where
  pub cols : ℕ
  pub rows : List (List (Option Text))

-- The library: the outcome of preparing and stepping a text, `none` if it is not SQLITE_OK, and the
-- library's next state.
abbrev pub Engine : Type 0 → Type 0
Engine H = Text → H → Option Prepared × H

-- `val = ptr`, or the empty string for a null pointer
abbrev column_value : Option (Option Text) → Text
column_value (some (some ptr)) = ptr
column_value _ = []

-- The loop over the columns, from `col` on, with `left` columns left.
unfoldable pub read_columns : ℕ → ℕ → List (Option Text) → Row
read_columns zero col row = []
read_columns (suc left) col row = column_value (get_elem? row col) ∷ read_columns left (col + 1) row

-- The loop over sqlite3_step.
unfoldable pub read_rows : ℕ → List (List (Option Text)) → Rows
unfolding read_columns
read_rows cols [] = []
read_rows cols (row ∷ rows) = read_columns cols 0 row ∷ read_rows cols rows

unfoldable pub results : Option Prepared → Rows
unfolding read_rows
results none = []
results (some p) = read_rows p.cols p.rows

-- `results == DataBase::Empty`
abbrev pub is_empty : Rows → Bool
is_empty [] = true
is_empty (r ∷ rs) = false

module _ {H : Type 0} (exec : Engine H) where
  -- `DataBase::query`. An error is only printed, and gives no rows.
  unfoldable pub query : Text → Action (World H) Rows
  query sql w = let (answer, db) = exec sql w.db in (ok (results answer), record w { db = db })
