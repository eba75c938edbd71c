-- ===== src/Database/Print.antt =====
-- The tables on the console (`printUsersTable` and the other four of ServerIList/Database.cpp):
-- each call gives the text that it prints.
use server_ilist.Prelude.{ℕ, zero, suc, ◌+◌, ◌-◌, ◌≡◌, refl, List, [], ◌∷◌, ◌++◌, length, pos, some}
use server_ilist.Text.{Text, lit}
use server_ilist.Text.Number.{to_string}
use server_ilist.Exception.{ok, fails, out_of_bounds}
use server_ilist.Action.{Action, pure, subscript, ◌>>=◌}
use server_ilist.World.{World, Row, Rows}
use server_ilist.Database.{Engine, query, results}

abbrev spaces : ℕ → Text
spaces zero = []
spaces (suc n) = 32 ∷ spaces n

-- `%10s` and the like: at least so wide, with the spaces in front.
abbrev padded : ℕ → Text → Text
padded width s = spaces (width - length s) ++ s

-- A format such as "%3s\t%10s\t%10s\n" with its arguments.
abbrev pub line : List ℕ → List Text → Text
line (w ∷ []) (s ∷ []) = padded w s ++ lit "\n"
line (w ∷ v ∷ ws) (s ∷ ss) = padded w s ++ (lit "\t" ++ line (v ∷ ws) ss)
line ws ss = []

module _ {H : Type 0} where
  -- `data[col][i]` from `i` on, for as many as there are formats.
  unfoldable pub fields : List ℕ → ℕ → Row → Action (World H) (List Text)
  fields [] i row w = pure [] w
  fields (f ∷ fs) i row w =
      (do cell ← subscript row i; cells ← fields fs (i + 1) row; pure (cell ∷ cells)) w

  -- The loop over the lines.
  unfoldable pub print_lines : List ℕ → Rows → Action (World H) Text
  unfolding fields
  print_lines formats [] w = pure [] w
  print_lines formats (row ∷ rows) w =
      (do
        cells ← fields formats 0 row
        rest ← print_lines formats rows
        pure (line formats cells ++ rest))
        w

  -- The loop of `printUsersTable`, which begins each line with its number.
  unfoldable pub print_numbered : ℕ → Rows → Action (World H) Text
  unfolding fields
  print_numbered col [] w = pure [] w
  print_numbered col (row ∷ rows) w =
      (do
        cells ← fields (10 ∷ 10 ∷ []) 0 row
        rest ← print_numbered (col + 1) rows
        pure (line (3 ∷ 10 ∷ 10 ∷ []) (to_string (pos col) ∷ cells) ++ rest))
        w

module _ {H : Type 0} (exec : Engine H) where
  -- `printUsersTable`
  unfoldable pub print_users_table : Action (World H) Text
  unfolding print_lines print_numbered
  print_users_table = do
    data_ ← query exec (lit "SELECT * FROM Users;")
    lines ← print_numbered 0 data_
    pure (
        line (3 ∷ 10 ∷ 10 ∷ []) (lit "[No.]" ∷ lit "Username" ∷ lit "Password" ∷ [])
        ++ (lit "____________________________________\n" ++ lines))

  -- `printPublicGroupsTable`
  unfoldable pub print_public_groups_table : Action (World H) Text
  unfolding print_lines print_numbered
  print_public_groups_table = do
    data_ ← query exec (lit "SELECT * FROM PublicGroups;")
    lines ← print_lines (4 ∷ 10 ∷ 10 ∷ 13 ∷ 15 ∷ []) data_
    pure (
        line (4 ∷ 10 ∷ 10 ∷ 13 ∷ 15 ∷ [])
          (lit "code" ∷ lit "name" ∷ lit "admin" ∷ lit "creation date" ∷ lit "number of users" ∷ [])
        ++ (lit "_______________________________________________________________________\n"
            ++ lines))

  -- `printUsersInGroups`
  unfoldable pub print_users_in_groups : Action (World H) Text
  unfolding print_lines print_numbered
  print_users_in_groups = do
    data_ ← query exec (lit "SELECT * FROM Users_In_Groups;")
    lines ← print_lines (10 ∷ 10 ∷ 10 ∷ []) data_
    pure (
        line (10 ∷ 10 ∷ 10 ∷ []) (lit "group_code" ∷ lit "username" ∷ lit "status" ∷ [])
        ++ (lit "_______________________________________\n" ++ lines))

  -- `printLists`
  unfoldable pub print_lists : Action (World H) Text
  unfolding print_lines print_numbered
  print_lists = do
    data_ ← query exec (lit "SELECT * FROM Lists;")
    lines ← print_lines (10 ∷ 10 ∷ 10 ∷ 10 ∷ []) data_
    pure (
        line (10 ∷ 10 ∷ 10 ∷ 10 ∷ [])
          (lit "group_code" ∷ lit "item" ∷ lit "quantity" ∷ lit "remarks" ∷ [])
        ++ (lit "___________________________________________________________\n" ++ lines))

  -- `printUsersPackets`
  unfoldable pub print_users_packets : Action (World H) Text
  unfolding print_lines print_numbered
  print_users_packets = do
    data_ ← query exec (lit "SELECT * FROM UsersPackets;")
    lines ← print_lines (3 ∷ 10 ∷ 10 ∷ []) data_
    pure (
        line (4 ∷ 10 ∷ 10 ∷ []) (lit "Code" ∷ lit "Username" ∷ lit "Message" ∷ [])
        ++ (lit "____________________________________\n" ++ lines))

-- A library that answers with one row of two columns.
abbrev one_row : Engine Text
one_row sql h =
    (some (record { cols = 2; rows = (some (lit "dana") ∷ some (lit "secret") ∷ []) ∷ [] }), sql)

-- Numbered lines, and a row that is too short for the format, which is read past its end.
print_tests :
    (w : World Text)
    → ((print_numbered 7 ((lit "dana" ∷ lit "secret" ∷ []) ∷ []) w).0
        ≡ ok (lit "  7\t      dana\t    secret\n"))
      × ((print_lists one_row w).0 ≡ fails out_of_bounds)
unfolding print_numbered print_lists query results ◌>>=◌ lit to_string
print_tests w = (refl, refl)
