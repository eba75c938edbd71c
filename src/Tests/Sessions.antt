-- ===== src/Tests/Sessions.antt =====
-- The theorems on how the server starts and takes its messages.
use server_ilist.Prelude.{List, [], ◌∷◌, pos, some}
use server_ilist.Server.Setup.{Network, socket_error}
use server_ilist.Manager.Race.{Slot, null}

-- `bind` and `listen` both fail.
abbrev busy_port : Network
busy_port = record {
  startup = pos 0;
  address = pos 0;
  socket = some 4;
  bound = socket_error;
  listening = socket_error;
}

abbrev ten_free : List Slot
ten_free = null ∷ null ∷ null ∷ null ∷ null ∷ null ∷ null ∷ null ∷ null ∷ null ∷ []
