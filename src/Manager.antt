-- ===== src/Manager.antt =====
-- ServerIList/Manager.cpp: the texts that the server sends, and to whom.
pub mod Handlers
pub mod Threads
pub mod Race
pub mod Access
pub mod Takeover
pub mod Serve
pub mod Start
pub mod Delivery
pub mod Telling
pub mod ListRequests
pub mod Requests
pub mod Orders
pub mod Literals
pub mod Arrival
pub mod Restoring
pub mod Cases
pub mod Obeying
pub mod Closing
pub mod Joining
pub mod GroupRequests
pub mod Inviting
pub mod Welcome
use server_ilist.Prelude.{
  ℕ, zero, suc, ◌+◌, Bool, true, false, List, [], ◌∷◌, ◌++◌, pos, length, get_or, ltb,
  if◌then◌else◌,
}
use server_ilist.Text.{Text, lit}
use server_ilist.Text.Number.{to_string}
use server_ilist.Action.{Action, pure, subscript, gets, ◌>>=◌, ◌>>◌}
use server_ilist.World.{World, Rows}
use server_ilist.Database.{Engine, query}
use server_ilist.Users.{is_login_name, get_sock}
use server_ilist.Server.{send_message}

-- `makeReceiveMessgae` of one text
unfoldable pub make_receive_text : ℕ → Text → Text
make_receive_text msg_code args =
    lit "@" ++ (to_string (pos msg_code) ++ (lit "|" ++ (args ++ lit "||")))

-- The loop of `makeReceiveMessgae` over the arguments.
unfoldable pub join_args : List Text → Text
join_args [] = []
join_args (a ∷ args) = (a ++ lit "|") ++ join_args args

-- `makeReceiveMessgae` of a list of texts
unfoldable pub make_receive : ℕ → List Text → Text
unfolding join_args
make_receive msg_code args =
    (lit "@" ++ (to_string (pos msg_code) ++ lit "|")) ++ (join_args args ++ lit "|")

module _ {H : Type 0} where
  -- The inner loop, from `row` on with `left` columns left; every row is read at the columns of the
  -- first one.
  unfoldable pub join_row : ℕ → ℕ → List Text → Text → Action (World H) Text
  join_row zero row cells receive w = pure receive w
  join_row (suc left) row cells receive w =
      (do
        cell ← subscript cells row
        join_row left (row + 1) cells ((if ltb 0 row then receive ++ lit "," else receive) ++ cell))
        w

  -- The outer loop.
  unfoldable pub join_rows : ℕ → Rows → Text → Action (World H) Text
  unfolding join_row
  join_rows columns [] receive w = pure receive w
  join_rows columns (cells ∷ rows) receive w =
      (do joined ← join_row columns 0 cells receive; join_rows columns rows (joined ++ lit "|")) w

  -- `makeReceiveMessgae` of a table
  unfoldable pub make_receive_rows : ℕ → Rows → Action (World H) Text
  unfolding join_rows
  make_receive_rows msg_code args = do
    receive ←
        join_rows (length (get_or args 0 [])) args
          (lit "@" ++ (to_string (pos msg_code) ++ lit "|"))
    pure (receive ++ lit "|")

module _ {H : Type 0} (exec : Engine H) where
  -- `trySend`
  unfoldable pub try_send : Text → Text → Action (World H) Unit
  try_send username message = do
    online ← gets (is_login_name username)
    if online then (do sock ← get_sock username; send_message sock message) else do
      query exec (
          lit "INSERT INTO UsersPackets (username, message) VALUES('"
          ++ (username ++ (lit "','" ++ (message ++ lit "');"))))
      pure tt

  -- `sendToAll`: the second column of each row is the name.
  unfoldable pub send_to_all : Rows → Text → Action (World H) Unit
  unfolding try_send
  send_to_all [] message w = pure tt w
  send_to_all (user ∷ users) message w =
      (do username ← subscript user 1; try_send username message; send_to_all users message) w
