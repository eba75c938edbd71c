-- ===== src/World.antt =====
-- The state of the server: the members of the classes Manager, Users, PublicGroup, PublicLists,
-- Restore and Server, and what the operating system keeps for them.
use server_ilist.Prelude.{ℕ, Bool, List}
use server_ilist.Text.{Text}

-- `class Message`: a text and the socket that it came from
pub record Message : Type 0 where
  pub message : Text
  pub socket : ℕ

-- A `std::mutex`. `misused` is set by an `unlock` of a mutex that is free, which C++ leaves
-- undefined.
pub record Mutex : Type 0 where
  pub held : Bool
  pub misused : Bool

abbrev pub Row : Type 0
Row = List Text

-- What `DataBase::query` returns.
abbrev pub Rows : Type 0
Rows = List Row

-- `class Restore`: the three result tables and the positions in them
pub record Cursors : Type 0 where
  pub m_groups : Rows
  pub m_users : Rows
  pub m_items : Rows
  pub m_index_g : ℕ
  pub m_index_u : ℕ
  pub m_index_i : ℕ

-- `class Server`. `recv_index` is the variable `index` of recvFunction. `sent` and `closed` list
-- the calls of `send` and `closesocket` in order, and `send_error` says which calls of `send`
-- return SOCKET_ERROR.
pub record Server : Type 0 where
  pub clients : List ℕ
  pub messages : List Message
  pub disconnected_sockets : List ℕ
  pub buffer : Text
  pub recv_index : ℕ
  pub print_flag : Bool
  pub sent : List (ℕ × Text)
  pub closed : List ℕ
  pub send_error : ℕ → Text → Bool

-- `H` is the state of the SQLite library.
pub record World (H : Type 0) : Type 0 where
  pub db : H
  pub online_users : List (ℕ × Text)
  pub online_users_opposite : List (Text × ℕ)
  pub groups_mtx : Mutex
  pub lists_mtx : Mutex
  pub restore : Cursors
  pub server : Server
  pub threads : List Bool
  pub today : Text
