-- ===== src/Tests/Serving.antt =====
-- The theorems on sockets, on the buffer, and on how messages are served.
use server_ilist.Prelude.{if◌then◌else◌, ◌≡◌, refl, arith, [], ◌∷◌, ◌++◌, false, length}
use server_ilist.Text.{text_eq, has_char, has_double, lit}
use server_ilist.Exception.{ok, fails, thrown, user_is_offline, what}
use server_ilist.Text.Number.{stoi}
use server_ilist.Text.Split.{split}
use server_ilist.Parser.{parse}
use server_ilist.Config.{find_msg_code}
use server_ilist.Action.{◌>>=◌}
use server_ilist.World.{World, Server, Message}
use server_ilist.Map
use server_ilist.Sqlite.Schema.{Tables}
use server_ilist.Sqlite.Refines.{abs, lift_abs}
use server_ilist.Sqlite.Toy.{toy}
use server_ilist.Sqlite.Toy.Reading.{toy-Implements}
use server_ilist.Sqlite.Language.{member_row}
use server_ilist.Users.{is_login}
use server_ilist.Server.{disconnect, receive, bytes, clear_buffer, is_client, send}
use server_ilist.Server.Sockets.{IsDistinct, others, disconnect_removes}
use server_ilist.Server.Buffer.{IsErasable, zeros, receive-exact}
use server_ilist.Manager.{send_to_all}
use server_ilist.Manager.Handlers.{code_handler, handle_parsed}
use server_ilist.Manager.Threads.{forget_sockets, message_handler, set_thread}
use server_ilist.Manager.Serve.{AreForgotten, forget_sockets_done, message_handler_replies}
use server_ilist.Manager.Delivery.{deliver_all, send_to_all-deliver_all}
use server_ilist.Tests.Data.{milk, dana_row, noam_row, server, world}

abbrev same : Tables → Tables
same t = t

server-IsDistinct : IsDistinct server.clients
server-IsDistinct = λ socket. ground arith

disconnect_removes_example :
    ((disconnect 8 server).clients ≡ others 8 server.clients)
    × IsDistinct (disconnect 8 server).clients
    × ((disconnect 8 server).closed
        ≡ (if is_client 8 server.clients then server.closed ++ 8 ∷ [] else server.closed))
    × ((disconnect 8 server).disconnected_sockets ≡ (
        if is_client 8 server.clients
        then server.disconnected_sockets ++ 8 ∷ []
        else server.disconnected_sockets))
disconnect_removes_example = disconnect_removes 8 server server-IsDistinct

abbrev buffered : Server
buffered = record server { buffer = zeros 8 }

receive-exact_example :
    ((receive 7 (bytes milk) buffered).messages ≡ record { message = milk; socket = 7 } ∷ [])
    × IsErasable (receive 7 (bytes milk) buffered).buffer
    × (length (receive 7 (bytes milk) buffered).buffer ≡ 8)
unfolding has_char clear_buffer
receive-exact_example = receive-exact 7 milk buffered refl refl (omega arith) (omega arith)

abbrev left : World Tables
left = record world { server = record server { disconnected_sockets = 7 ∷ 9 ∷ [] } }

forget_sockets_done_example : AreForgotten (7 ∷ 9 ∷ []) (forget_sockets (7 ∷ 9 ∷ []) left)
forget_sockets_done_example = forget_sockets_done (7 ∷ 9 ∷ []) left refl

send_to_all-deliver_all_example :
    lift_abs same (send_to_all toy (member_row dana_row ∷ member_row noam_row ∷ []) milk world)
    ≡ (ok tt, deliver_all milk (dana_row ∷ noam_row ∷ []) (abs same world))
unfolding has_char
send_to_all-deliver_all_example =
    send_to_all-deliver_all toy-Implements milk (refl, refl) (dana_row ∷ noam_row ∷ []) world
      ((refl, refl), ((refl, refl), tt))

-- `@13|7||`, from a socket that is not online
abbrev early : Message
early = record { message = 64 ∷ 49 ∷ 51 ∷ 124 ∷ 55 ∷ 124 ∷ 124 ∷ []; socket = 9 }

early_refused :
    code_handler toy early (forget_sockets [] world).1 ≡ (fails (thrown user_is_offline), world)
unfolding code_handler ◌>>=◌ forget_sockets handle_parsed is_login Map.lookup parse stoi
    find_msg_code text_eq has_char has_double split lit
early_refused = refl

message_handler_replies_example : message_handler toy early 3 world ≡ (
  ok tt,
  record world {
    server = send 9 ((lit "@500|" ++ what user_is_offline) ++ lit "||") server;
    threads = set_thread 3 false world.threads;
  },
)
message_handler_replies_example =
    message_handler_replies toy early 3 world world (thrown user_is_offline) (what user_is_offline)
      early_refused refl
