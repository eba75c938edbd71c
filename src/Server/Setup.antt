-- ===== src/Server/Setup.antt =====
-- How the server starts (`run`, `listenFunction` and `acceptFunction` of ServerIList/Server.cpp).
-- What Winsock answers is given.
use server_ilist.Prelude.{
  ℕ, ◌+◌, Bool, true, false, ◌&&◌, Option, none, some, List, [], ◌∷◌, ◌++◌, ℤ, pos, negsuc, eq_ℤ,
  if◌then◌else◌,
}
use server_ilist.World.{Server}
use server_ilist.Server.{accept_round}

-- What the calls of `run` answer: WSAStartup, getaddrinfo, `socket` (`none` is INVALID_SOCKET),
-- `bind` and `listen`.
pub record Network : Type 0 where
  pub startup : ℤ
  pub address : ℤ
  pub socket : Option ℕ
  pub bound : ℤ
  pub listening : ℤ

-- What the server asks of the system, and its messages on the console.
pub data Call : Type 0 where
  wsa_startup : Call
  wsa_cleanup : Call
  get_address : Call
  open_socket : Call
  bind_socket : ℕ → Call
  listen_on : ℕ → Call
  close_socket : ℕ → Call
  print_error : Call
  pause : Call
  announce : Call
  start_accept : Call
  start_receive : Call

abbrev pub socket_error : ℤ
socket_error = negsuc 0

-- `listenFunction`: when `listen` fails it closes the socket, and returns.
unfoldable pub listen_function : ℕ → Network → List Call
listen_function listen_socket n =
    listen_on listen_socket
    ∷ (if eq_ℤ n.listening socket_error
        then print_error ∷ pause ∷ close_socket listen_socket ∷ wsa_cleanup ∷ []
        else [])

-- `run` from the socket on. The answer of `bind` is not stored: the test after it reads `_iResult`,
-- which is still the answer of getaddrinfo.
unfoldable pub run_socket : ℤ → ℕ → Network → List Call
unfolding listen_function
run_socket i_result listen_socket n =
    bind_socket listen_socket
    ∷ (if eq_ℤ i_result socket_error
        then print_error ∷ pause ∷ close_socket listen_socket ∷ wsa_cleanup ∷ []
        else listen_function listen_socket n ++ announce ∷ start_accept ∷ start_receive ∷ [])

-- `run` from the address on.
unfoldable pub run_address : ℤ → Network → List Call
unfolding run_socket
run_address i_result n = open_socket ∷ (elim n.socket [
  | none ↦ print_error ∷ pause ∷ wsa_cleanup ∷ []
  | some listen_socket ↦ run_socket i_result listen_socket n
])

-- `run`
unfoldable pub run : Network → List Call
unfolding run_address
run n =
    wsa_startup
    ∷ (if eq_ℤ n.startup (pos 0)
        then get_address
          ∷ (if eq_ℤ n.address (pos 0)
              then run_address n.address n
              else print_error ∷ wsa_cleanup ∷ [])
        else print_error ∷ pause ∷ [])

abbrev is_start : Call → Bool
is_start start_accept = true
is_start start_receive = true
is_start _ = false

abbrev is_close : Call → Bool
is_close (close_socket listen_socket) = true
is_close _ = false

abbrev is_bind : Call → Bool
is_bind (bind_socket listen_socket) = true
is_bind _ = false

abbrev times : (Call → Bool) → List Call → ℕ
times test [] = 0
times test (c ∷ cs) = if test c then 1 + times test cs else times test cs

abbrev pub starts : List Call → ℕ
starts cs = times is_start cs

abbrev pub closes : List Call → ℕ
closes cs = times is_close cs

abbrev pub binds : List Call → ℕ
binds cs = times is_bind cs

abbrev is_some : Option ℕ → Bool
is_some none = false
is_some (some listen_socket) = true

abbrev pub has_socket : Network → Bool
has_socket n = eq_ℤ n.startup (pos 0) && (eq_ℤ n.address (pos 0) && is_some n.socket)

abbrev pub one_if : Bool → ℕ
one_if b = if b then 1 else 0

-- A round of acceptFunction for an answer of `accept`, `none` for INVALID_SOCKET. A failure closes
-- the listening socket, and the loop goes on.
unfoldable pub accept_answer : ℕ → Option ℕ → Server → Server × List Call
unfolding accept_round
accept_answer listen_socket none s =
    (s, print_error ∷ close_socket listen_socket ∷ wsa_cleanup ∷ [])
accept_answer listen_socket (some client_socket) s = (accept_round client_socket s, [])

-- The loop of acceptFunction, for the answers of `accept` one after another.
unfoldable pub accept_function : ℕ → List (Option ℕ) → Server → Server × List Call
unfolding accept_answer
accept_function listen_socket [] s = (s, [])
accept_function listen_socket (answer ∷ answers) s =
    let (s', calls) = accept_answer listen_socket answer s in
    let (s'', more) = accept_function listen_socket answers s' in (s'', calls ++ more)

-- The sockets among the answers.
abbrev pub given : List (Option ℕ) → List ℕ
given [] = []
given (none ∷ answers) = given answers
given (some client_socket ∷ answers) = client_socket ∷ given answers

abbrev pub refused : List (Option ℕ) → ℕ
refused [] = 0
refused (none ∷ answers) = 1 + refused answers
refused (some client_socket ∷ answers) = refused answers
