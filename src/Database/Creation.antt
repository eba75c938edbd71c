-- ===== src/Database/Creation.antt =====
-- The five tables (`SqlQuerys` of ServerIList/Database.h), and how `DataBase` makes and drops them
-- (ServerIList/Database.cpp).
use server_ilist.Prelude.{◌≡◌, refl, Bool, ℤ, pos, eq_ℤ, List, [], ◌∷◌, ◌++◌, none}
use server_ilist.Text.{Text, lit}
use server_ilist.Exception.{ok}
use server_ilist.Action.{Action, pure, ◌>>=◌, ◌>>◌}
use server_ilist.World.{World}
use server_ilist.Database.{Engine, query}

-- `PublicGroups`
unfoldable pub public_groups : Text
public_groups =
    lit "CREATE TABLE IF NOT EXISTS PublicGroups"
    ++ (lit "("
        ++ (lit "code\t\t\t INTEGER PRIMARY KEY   AUTOINCREMENT,"
            ++ (lit "name\t\t\t TEXT\t\t\t\t   NOT NULL,"
                ++ (lit "admin\t\t\t TEXT,"
                    ++ (lit "creation_date   TEXT\t\t\t       NOT NULL,"
                        ++ (lit "number_of_users INTEGER\t\t\t   NOT NULL,"
                            ++ (lit "FOREIGN KEY(admin) REFERENCES Users(username)"
                                ++ lit ");")))))))

-- `Users`
unfoldable pub users : Text
users =
    lit "CREATE TABLE IF NOT EXISTS Users"
    ++ (lit "("
        ++ (lit "username TEXT PRIMARY KEY NOT NULL,"
            ++ (lit "password TEXT\t\t\t   NOT NULL" ++ lit ");")))

-- `Users_In_Groups`
unfoldable pub users_in_groups : Text
users_in_groups =
    lit "CREATE TABLE IF NOT EXISTS Users_In_Groups"
    ++ (lit "("
        ++ (lit "group_code INTEGER NOT NULL,"
            ++ (lit "username TEXT NOT NULL,"
                ++ (lit "status TEXT NOT NULL,"
                    ++ (lit "PRIMARY KEY(group_code, username),"
                        ++ (lit "FOREIGN KEY(group_code) REFERENCES PublicGroups(code),"
                            ++ (lit "FOREIGN KEY(username) REFERENCES Users(username)"
                                ++ lit ");")))))))

-- `Lists`
unfoldable pub lists : Text
lists =
    lit "CREATE TABLE IF NOT EXISTS Lists"
    ++ (lit "("
        ++ (lit "group_code INTEGER NOT NULL,"
            ++ (lit "item_name TEXT NOT NULL,"
                ++ (lit "quantity INTEGER,"
                    ++ (lit "remarks TEXT,"
                        ++ (lit "PRIMARY KEY(group_code, item_name),"
                            ++ (lit "FOREIGN KEY(group_code) REFERENCES PublicGroups(code)"
                                ++ lit ");")))))))

-- `UsersPackets`
unfoldable pub users_packets : Text
users_packets =
    lit "CREATE TABLE IF NOT EXISTS UsersPackets"
    ++ (lit "("
        ++ (lit "code\tINTEGER PRIMARY KEY   AUTOINCREMENT,"
            ++ (lit "username TEXT NOT NULL,"
                ++ (lit "message TEXT NOT NULL,"
                    ++ (lit "FOREIGN KEY(username) REFERENCES Users(username)" ++ lit ");")))))

-- `open`: is the answer of sqlite3_open SQLITE_OK?
unfoldable pub open_database : ℤ → Bool
open_database answer = eq_ℤ answer (pos 0)

module _ {H : Type 0} (exec : Engine H) where
  -- `create_table`
  unfoldable pub create_table : Text → Action (World H) Unit
  create_table sql = do query exec sql; pure tt

  -- `drop_table`
  unfoldable pub drop_table : Text → Action (World H) Unit
  drop_table table = do query exec (lit "DROP TABLE " ++ (table ++ lit ";")); pure tt

  -- The constructor of `DataBase`. It does not look at the answer of `open`.
  unfoldable pub data_base : Action (World H) Unit
  unfolding create_table
  data_base = do
    create_table users
    create_table public_groups
    create_table users_in_groups
    create_table lists
    create_table users_packets

-- A library that writes down the texts that it is given.
abbrev pub recorder : Engine (List Text)
recorder sql texts = (none, texts ++ sql ∷ [])

data_base_tests :
    (w : World (List Text))
    → ((data_base recorder w).0 ≡ ok tt)
      × ((drop_table recorder (lit "Users") w).1.db ≡ w.db ++ lit "DROP TABLE Users;" ∷ [])
unfolding data_base drop_table query ◌>>=◌ lit
data_base_tests w = (refl, refl)
