-- ===== src/Messages.antt =====
-- ServerIList/Message.cpp: a text and the socket that it came from.
use server_ilist.Prelude.{ℕ, []}
use server_ilist.Text.{Text}
use server_ilist.World.{Message}

-- `Message(message, socket)`
abbrev pub new_message : Text → ℕ → Message
new_message message socket = record { message = message; socket = socket }

-- `Message()`; the socket, which it leaves unset, is set before it is read.
abbrev pub no_message : Message
no_message = new_message [] 0

abbrev pub get_socket : Message → ℕ
get_socket m = m.socket

abbrev pub get_message : Message → Text
get_message m = m.message

abbrev pub set_message : Text → Message → Message
set_message msg m = record m { message = msg }

abbrev pub set_socket : ℕ → Message → Message
set_socket sock m = record m { socket = sock }
