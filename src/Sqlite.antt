-- ===== src/Sqlite.antt =====
-- What the program relies on of the SQLite library (https://www.sqlite.org/lang.html): the tables
-- of `class SqlQuerys` in ServerIList/Database.h, and for each text that the program sends, its
-- meaning on the tables.
pub mod Schema
pub mod Language
pub mod Spelled
pub mod Effect
pub mod Arranged
pub mod Refines
pub mod Follows
pub mod Toy
use server_ilist.Prelude.{ℕ, ◌≡◌, ◌≤◌, ◌^◌, ◌<◌, false, ℤ, pos}
use server_ilist.Text.{Text, has_char}
use server_ilist.Text.Number.{nat_to_string, to_string}
use server_ilist.Text.Number.RoundTrip.{IsInt}
use server_ilist.Database.{Engine, results}
use Schema.{Tables}
use Language.{Statement, sql, answer}
use Effect.{effect}
use Arranged.{IsRearranged}
use Spelled.{IsClean, IsListing}

-- The parameter `exec` behaves as documented, on every statement whose arguments are spelled so
-- that they are the literals they seem to be: it answers from the tables, and changes them so. The
-- rows of a SELECT that may give several come in an order that is not documented: `arranged` is the
-- tables with their rows in the order in which the library goes through them for that statement in
-- that state.
pub record Implements {H : Type 0} (exec : Engine H) (view : H → Tables) : Type 0 where
  pub answers :
      (st : Statement) (h : H) → IsClean st → results (exec (sql st) h).0 ≡ answer st (view h)
  pub effects :
      (st : Statement) (h : H) → IsClean st → view (exec (sql st) h).1 ≡ effect st (view h)
  pub arranged : Statement → H → Tables
  pub rearranged : (st : Statement) (h : H) → IsRearranged (arranged st h) (view h)
  pub lists :
      (st : Statement) (h : H)
      → IsListing st
      → results (exec (sql st) h).0 ≡ answer st (arranged st h)
  pub lists_only : (st : Statement) (h : H) → IsListing st → view (exec (sql st) h).1 ≡ view h
