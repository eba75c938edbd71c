-- ===== src/Packets.antt =====
-- ServerIList/UsersPackets.cpp: the messages that wait for users who are offline.
use server_ilist.Prelude.{◌++◌}
use server_ilist.Text.{Text, lit}
use server_ilist.Action.{Action, pure, ◌>>◌}
use server_ilist.World.{World, Rows}
use server_ilist.Database.{Engine, query}

module _ {H : Type 0} (exec : Engine H) where
  unfoldable pub get_all_user_packets : Text → Action (World H) Rows
  get_all_user_packets username =
      query exec
        (lit "SELECT message FROM UsersPackets WHERE username ='" ++ (username ++ lit "';"))

  unfoldable pub delete_all_user_packets : Text → Action (World H) Unit
  delete_all_user_packets username = do
    query exec (lit "DELETE FROM UsersPackets WHERE username='" ++ (username ++ lit "';"))
    pure tt

  unfoldable pub add_user_packet : Text → Text → Action (World H) Unit
  add_user_packet username packet = do
    query exec (
        lit "INSERT INTO UsersPackets (username, message) VALUES('"
        ++ (username ++ (lit "','" ++ (packet ++ lit "');"))))
    pure tt
