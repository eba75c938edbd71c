-- ===== src/Manager/Start.antt =====
-- The constructor of Manager (ServerIList/Manager.cpp), with those of the classes that it makes: the
-- state before the first message. What they leave unset is given: the buffer of Server, and the
-- positions and tables of Restore.
use server_ilist.Prelude.{ℕ, Bool, true, []}
use server_ilist.Text.{Text}
use server_ilist.World.{World, Server, Cursors}
use server_ilist.Database.Mutex.{free}
use server_ilist.Manager.Threads.{free_slots}

-- `Server()`, with what `send` will answer.
abbrev pub new_server : Text → (ℕ → Text → Bool) → Server
new_server buffer send_error = record {
  clients = [];
  messages = [];
  disconnected_sockets = [];
  buffer = buffer;
  recv_index = 0;
  print_flag = true;
  sent = [];
  closed = [];
  send_error = send_error;
}

-- `Users(db)`: nobody is online.
abbrev pub new_users : {H : Type 0} → World H → World H
new_users w = record w { online_users = []; online_users_opposite = [] }

-- `Manager()`, over a database that was opened.
abbrev pub new_manager : {H : Type 0} → H → Server → Cursors → Text → World H
new_manager db server restore today = new_users (record {
  db = db;
  online_users = [];
  online_users_opposite = [];
  groups_mtx = free;
  lists_mtx = free;
  restore = restore;
  server = server;
  threads = free_slots;
  today = today;
})
