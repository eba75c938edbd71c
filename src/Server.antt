-- ===== src/Server.antt =====
-- ServerIList/Server.cpp: the connected sockets and the queue of received messages. What the
-- network does is given: the sockets that `accept` returns, the answers of `select` and `recv`, and
-- in `send_error` which calls of `send` fail.
pub mod Sockets
pub mod Buffer
pub mod Threads
pub mod Setup
use server_ilist.Prelude.{
  ℕ, ◌+◌, Bool, true, false, not, ◌||◌, Option, none, some, List, [], ◌∷◌, ◌++◌, length, drop,
  select, get_or, ltb, leb, ◌==◌, if◌then◌else◌, ℤ, pos, eq_ℤ,
}
use server_ilist.Text.{Text}
use server_ilist.World.{World, Message, Server}
use server_ilist.Messages.{no_message, set_message, set_socket}
use server_ilist.Exception.{ok}
use server_ilist.Action.{Action}

abbrev pub min_length_message : ℕ
min_length_message = 4

abbrev pub default_buflen : ℕ
default_buflen = 1024

abbrev pub is_client : ℕ → List ℕ → Bool
is_client socket [] = false
is_client socket (c ∷ cs) = c == socket || is_client socket cs

-- `clients.erase(std::remove(begin, end, socket))`: the other sockets move to the front, what
-- stood behind them stays, and the one element at the new end is erased.
unfoldable pub erase_removed : ℕ → List ℕ → List ℕ
erase_removed socket clients =
    let kept = select (λ c. not (c == socket)) clients in kept ++ drop (length kept + 1) clients

-- `disconnect`
unfoldable pub disconnect : ℕ → Server → Server
unfolding erase_removed
disconnect socket s =
    if is_client socket s.clients
    then record s {
      clients = erase_removed socket s.clients;
      disconnected_sockets = s.disconnected_sockets ++ socket ∷ [];
      closed = s.closed ++ socket ∷ [];
    }
    else s

-- `sendMessage`
unfoldable pub send : ℕ → Text → Server → Server
unfolding disconnect
send socket message s =
    let s' = record s { sent = s.sent ++ (socket, message) ∷ [] } in
    let dropped = disconnect socket s' in if s.send_error socket message then dropped else s'

-- A round of acceptFunction in which `accept` returns a socket.
unfoldable pub accept_round : ℕ → Server → Server
accept_round client_socket s = record s { clients = s.clients ++ client_socket ∷ [] }

-- `std::string(_buffer)`: the bytes before the first null byte.
unfoldable pub c_string : Text → Text
c_string [] = []
c_string (c ∷ cs) = let rest = c_string cs in if c == 0 then [] else c ∷ rest

-- `memset(_buffer, 0, strlen(_buffer))`
unfoldable pub clear_buffer : Text → Text
clear_buffer [] = []
clear_buffer (c ∷ cs) = let rest = clear_buffer cs in if c == 0 then c ∷ cs else 0 ∷ rest

-- What `recv` answers: SOCKET_ERROR, or the bytes that it wrote to the front of the buffer.
pub data Received : Type 0 where
  socket_error : Received
  bytes : Text → Received

abbrev fill : Received → Text → Text
fill socket_error buffer = buffer
fill (bytes t) buffer = t ++ drop (length t) buffer

abbrev is_bad : Received → Bool
is_bad socket_error = true
is_bad (bytes t) = ltb (length t) min_length_message

-- The branch of recvFunction for a socket that is ready.
unfoldable pub receive : ℕ → Received → Server → Server
unfolding disconnect c_string clear_buffer
receive socket answer s =
    let buffer = fill answer (clear_buffer s.buffer) in
    let dropped = disconnect socket (record s { buffer = buffer }) in
    if is_bad answer then dropped else record s {
      buffer = buffer;
      messages = s.messages ++ set_socket socket (set_message (c_string buffer) no_message) ∷ [];
    }

-- `if (index >= clients.size()) index = 0`
abbrev pub wrapped_index : Server → ℕ
wrapped_index s = if leb (length s.clients) s.recv_index then 0 else s.recv_index

-- A round of recvFunction. `ready` is the answer of isReadyToRecv. With no client the round waits.
unfoldable pub recv_round : Bool → Received → Server → Server
unfolding receive
recv_round ready answer s =
    let index = wrapped_index s in
    let socket = get_or s.clients index 0 in
    let done = receive socket answer s in
    if length s.clients == 0
    then s
    else record (if ready then done else s) { recv_index = index + 1 }

-- `getLastPacket`; `none` is a queue on which it waits.
unfoldable pub get_last_packet : Server → Option (Message × Server)
get_last_packet s = elim s.messages [
  | [] ↦ none
  | msg ∷ rest ↦ some (msg, record s { messages = rest })
]

-- `getClients`
unfoldable pub get_clients : Server → ℕ
get_clients s = length s.clients

-- `setPrintFlag`
unfoldable pub set_print_flag : Bool → Server → Server
set_print_flag state s = record s { print_flag = state }

-- `getPrintFlag`
unfoldable pub get_print_flag : Server → Bool
get_print_flag s = s.print_flag

-- `isReadyToRecv`, for the answer of `select`
unfoldable pub is_ready_to_recv : ℤ → Bool
is_ready_to_recv answer = eq_ℤ answer (pos 1)

module _ {H : Type 0} where
  -- `server->sendMessage` as a call of the Manager.
  unfoldable pub send_message : ℕ → Text → Action (World H) Unit
  send_message socket message w = (ok tt, record w { server = send socket message w.server })
