-- ===== src/Tests/Data.antt =====
-- A server with three users, one group of theirs and a list of two items.
use server_ilist.Prelude.{true, false, [], ◌∷◌, refl, arith}
use server_ilist.Text.{Text}
use server_ilist.World.{World, Server}
use server_ilist.Database.Mutex.{free}
use server_ilist.Sqlite.Schema.{Tables, Member, Group, Item}
use server_ilist.Sqlite.Spelled.{IsNumeral}
use server_ilist.Text.Number.{nat_to_string}

abbrev pub code : Text
code = 49 ∷ []

abbrev pub dana : Text
dana = 100 ∷ 97 ∷ 110 ∷ 97 ∷ []

abbrev pub noam : Text
noam = 110 ∷ 111 ∷ 97 ∷ 109 ∷ []

abbrev pub omer : Text
omer = 111 ∷ 109 ∷ 101 ∷ 114 ∷ []

abbrev pub secret : Text
secret = 115 ∷ 101 ∷ 99 ∷ 114 ∷ 101 ∷ 116 ∷ []

-- `admin`, `r` and `fc`
abbrev pub admin_status : Text
admin_status = 97 ∷ 100 ∷ 109 ∷ 105 ∷ 110 ∷ []

abbrev pub read_status : Text
read_status = 114 ∷ []

abbrev pub full_status : Text
full_status = 102 ∷ 99 ∷ []

abbrev pub milk : Text
milk = 109 ∷ 105 ∷ 108 ∷ 107 ∷ []

abbrev pub eggs : Text
eggs = 101 ∷ 103 ∷ 103 ∷ 115 ∷ []

abbrev pub dana_row : Member
dana_row = record { group_code = code; username = dana; status = admin_status }

abbrev pub noam_row : Member
noam_row = record { group_code = code; username = noam; status = read_status }

abbrev pub home : Group
home = record {
  code = 1;
  name = 104 ∷ 111 ∷ 109 ∷ 101 ∷ [];
  admin = dana;
  creation_date = [];
  number_of_users = 50 ∷ [];
}

abbrev pub milk_row : Item
milk_row = record { group_code = code; item_name = milk; quantity = 50 ∷ []; remarks = [] }

abbrev pub eggs_row : Item
eggs_row = record { group_code = code; item_name = eggs; quantity = 54 ∷ []; remarks = [] }

pub code-IsNumeral : IsNumeral code
unfolding nat_to_string
code-IsNumeral = (1, refl, omega arith)

abbrev pub tables : Tables
tables = record {
  users =
      record { username = dana; password = secret }
      ∷ record { username = noam; password = secret }
      ∷ record { username = omer; password = secret }
      ∷ [];
  groups = home ∷ [];
  members = dana_row ∷ noam_row ∷ [];
  items = milk_row ∷ eggs_row ∷ [];
  packets = [];
  next_code = 2;
}

abbrev pub server : Server
server = record {
  clients = 7 ∷ 8 ∷ 9 ∷ [];
  messages = [];
  disconnected_sockets = [];
  buffer = [];
  recv_index = 0;
  print_flag = true;
  sent = [];
  closed = [];
  send_error = λ sock message. false;
}

abbrev pub world : World Tables
world = record {
  db = tables;
  online_users = (7, dana) ∷ [];
  online_users_opposite = (dana, 7) ∷ [];
  groups_mtx = free;
  lists_mtx = free;
  restore = record {
    m_groups = [];
    m_users = [];
    m_items = [];
    m_index_g = 0;
    m_index_u = 0;
    m_index_i = 0;
  };
  server = server;
  threads = false ∷ false ∷ false ∷ false ∷ false ∷ false ∷ false ∷ false ∷ false ∷ false ∷ [];
  today = 48 ∷ 49 ∷ [];
}
