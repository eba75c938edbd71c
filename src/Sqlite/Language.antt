-- ===== src/Sqlite/Language.antt =====
-- The statements that the program sends: their texts and their meanings.
use server_ilist.Prelude.{[], ◌∷◌, ◌++◌, Option, none, some, map, select}
use server_ilist.Text.{Text, lit, text_eq}
use server_ilist.Text.Number.{nat_to_string}
use server_ilist.World.{Rows, Row}
use server_ilist.Sqlite.Schema.{
  Account, Group, Member, Item, Packet, Tables, has_code, in_group, is_member, of_user, listed_in,
  is_item, is_account, for_user, newest,
}

pub data Statement : Type 0 where
  select_login : Text → Text → Statement
  select_register select_exists : Text → Statement
  insert_account : Text → Text → Statement
  insert_group : Text → Text → Text → Statement
  select_newest : Statement
  insert_admin : Text → Text → Statement
  delete_group delete_members delete_items : Text → Statement
  insert_member : Text → Text → Text → Statement
  update_number : Text → Text → Statement
  delete_member : Text → Text → Statement
  update_status : Text → Text → Text → Statement
  select_members select_memberships : Text → Statement
  select_member select_member_by_code : Text → Text → Statement
  select_number select_name : Text → Statement
  insert_item : Text → Text → Text → Text → Statement
  select_item_key select_item select_quantity delete_item : Text → Text → Statement
  update_quantity : Text → Text → Text → Statement
  update_item : Text → Text → Text → Text → Text → Statement
  select_items : Text → Statement
  insert_packet : Text → Text → Statement
  select_packets delete_packets : Text → Statement
  select_codes select_statuses select_wares select_code_name : Text → Statement

-- The texts, as the program puts them together.
unfoldable pub sql : Statement → Text
sql (select_login u p) =
    lit "select * from Users where username = '"
    ++ (u ++ (lit "' and password = '" ++ (p ++ lit "';")))
sql (select_register u) = lit "select * from Users where username = '" ++ (u ++ lit "';")
sql (select_exists u) = lit "SELECT * FROM Users WHERE username ='" ++ (u ++ lit "';")
sql (insert_account u p) =
    lit "INSERT INTO Users VALUES('" ++ (u ++ (lit "','" ++ (p ++ lit "');")))
sql (insert_group n a d) =
    lit "INSERT INTO PublicGroups (name, admin, creation_date, number_of_users) VALUES ('"
    ++ (n ++ (lit "', '" ++ (a ++ (lit "', '" ++ (d ++ lit "', 1);")))))
sql select_newest = lit "SELECT code FROM PublicGroups ORDER BY code DESC LIMIT 1;"
sql (insert_admin c u) =
    lit "INSERT INTO Users_In_Groups VALUES("
    ++ (c ++ (lit ",'" ++ (u ++ (lit "', '" ++ (lit "admin" ++ lit "');")))))
sql (delete_group c) = lit "DELETE FROM PublicGroups WHERE code =" ++ (c ++ lit ";")
sql (delete_members c) = lit "DELETE FROM Users_In_Groups WHERE group_code =" ++ (c ++ lit ";")
sql (delete_items c) = lit "DELETE FROM Lists WHERE group_code =" ++ (c ++ lit ";")
sql (insert_member c u s) =
    lit "INSERT INTO Users_In_Groups VALUES("
    ++ (c ++ (lit ",'" ++ (u ++ (lit "','" ++ (s ++ lit "');")))))
sql (update_number n c) =
    lit "UPDATE PublicGroups SET number_of_users ="
    ++ (n ++ (lit " WHERE code =" ++ (c ++ lit ";")))
sql (delete_member c u) =
    lit "DELETE FROM Users_In_Groups WHERE group_code="
    ++ (c ++ (lit " AND username='" ++ (u ++ lit "';")))
sql (update_status s c u) =
    lit "UPDATE Users_In_Groups SET status ='"
    ++ (s ++ (lit "' WHERE group_code =" ++ (c ++ (lit " AND username ='" ++ (u ++ lit "';")))))
sql (select_members c) =
    lit "SELECT group_code,username,status FROM Users_In_Groups WHERE group_code ="
    ++ (c ++ lit ";")
sql (select_memberships u) =
    lit "SELECT * FROM Users_In_Groups WHERE username ='" ++ (u ++ lit "';")
sql (select_member u c) =
    lit "SELECT * FROM Users_In_Groups WHERE username ='"
    ++ (u ++ (lit "' and group_code =" ++ (c ++ lit ";")))
sql (select_member_by_code c u) =
    lit "SELECT * FROM Users_In_Groups WHERE group_code ="
    ++ (c ++ (lit " AND username ='" ++ (u ++ lit "';")))
sql (select_number c) =
    lit "SELECT number_of_users FROM PublicGroups WHERE code =" ++ (c ++ lit ";")
sql (select_name c) = lit "SELECT name from PublicGroups WHERE code=" ++ c
sql (insert_item c i q r) =
    lit "INSERT INTO Lists VALUES("
    ++ (c ++ (lit ",'" ++ (i ++ (lit "'," ++ (q ++ (lit ",'" ++ (r ++ lit "');")))))))
sql (select_item_key c i) =
    lit "SELECT * FROM Lists WHERE group_code ="
    ++ (c ++ (lit " AND item_name ='" ++ (i ++ lit "';")))
sql (select_item c i) =
    lit "SELECT * FROM Lists WHERE group_code="
    ++ (c ++ (lit " AND item_name='" ++ (i ++ lit "';")))
sql (select_quantity c i) =
    lit "SELECT quantity FROM Lists WHERE group_code ="
    ++ (c ++ (lit " AND item_name ='" ++ (i ++ lit "';")))
sql (delete_item c i) =
    lit "DELETE FROM Lists WHERE group_code ="
    ++ (c ++ (lit " AND item_name ='" ++ (i ++ lit "';")))
sql (update_quantity q c i) =
    lit "UPDATE Lists SET quantity = "
    ++ (q ++ (lit " WHERE group_code =" ++ (c ++ (lit " AND item_name='" ++ (i ++ lit "';")))))
sql (update_item n q r c k) =
    lit "UPDATE Lists SET item_name ='"
    ++ (n
        ++ (lit "',quantity ="
            ++ (q
                ++ (lit ",remarks ='"
                    ++ (r
                        ++ (lit "' WHERE group_code ="
                            ++ (c ++ (lit " AND item_name='" ++ (k ++ lit "';")))))))))
sql (select_items c) = lit "SELECT * FROM Lists WHERE group_code=" ++ (c ++ lit ";")
sql (insert_packet u m) =
    lit "INSERT INTO UsersPackets (username, message) VALUES('"
    ++ (u ++ (lit "','" ++ (m ++ lit "');")))
sql (select_packets u) = lit "SELECT message FROM UsersPackets WHERE username ='" ++ (u ++ lit "';")
sql (delete_packets u) = lit "DELETE FROM UsersPackets WHERE username='" ++ (u ++ lit "';")
sql (select_codes u) =
    lit "SELECT group_code FROM Users_In_Groups WHERE username='" ++ (u ++ lit "';")
sql (select_statuses c) =
    lit "SELECT username,status FROM Users_In_Groups WHERE group_code=" ++ (c ++ lit ";")
sql (select_wares c) =
    lit "SELECT item_name,quantity,remarks FROM Lists WHERE group_code=" ++ (c ++ lit ";")
sql (select_code_name c) = lit "SELECT code,name FROM PublicGroups WHERE code=" ++ (c ++ lit ";")

abbrev pub account_row : Account → Row
account_row a = a.username ∷ a.password ∷ []

abbrev pub member_row : Member → Row
member_row m = m.group_code ∷ m.username ∷ m.status ∷ []

abbrev pub item_row : Item → Row
item_row i = i.group_code ∷ i.item_name ∷ i.quantity ∷ i.remarks ∷ []

abbrev pub code_rows : Option Group → Rows
code_rows none = []
code_rows (some g) = (nat_to_string g.code ∷ []) ∷ []

-- The rows of an answer; a statement that is no SELECT gives none.
unfoldable pub answer : Statement → Tables → Rows
answer (select_login u p) t =
    map account_row (select (λ a. text_eq a.password p) (select (is_account u) t.users))
answer (select_register u) t = map account_row (select (is_account u) t.users)
answer (select_exists u) t = map account_row (select (is_account u) t.users)
answer select_newest t = code_rows (newest t.groups)
answer (select_members c) t = map member_row (select (in_group c) t.members)
answer (select_memberships u) t = map member_row (select (of_user u) t.members)
answer (select_member u c) t = map member_row (select (is_member c u) t.members)
answer (select_member_by_code c u) t = map member_row (select (is_member c u) t.members)
answer (select_number c) t =
    map (λ (g : Group). g.number_of_users ∷ []) (select (has_code c) t.groups)
answer (select_name c) t = map (λ (g : Group). g.name ∷ []) (select (has_code c) t.groups)
answer (select_item_key c i) t = map item_row (select (is_item c i) t.items)
answer (select_item c i) t = map item_row (select (is_item c i) t.items)
answer (select_quantity c i) t = map (λ (j : Item). j.quantity ∷ []) (select (is_item c i) t.items)
answer (select_items c) t = map item_row (select (listed_in c) t.items)
answer (select_packets u) t = map (λ (p : Packet). p.message ∷ []) (select (for_user u) t.packets)
answer (select_codes u) t = map (λ (m : Member). m.group_code ∷ []) (select (of_user u) t.members)
answer (select_statuses c) t =
    map (λ (m : Member). m.username ∷ m.status ∷ []) (select (in_group c) t.members)
answer (select_wares c) t =
    map (λ (j : Item). j.item_name ∷ j.quantity ∷ j.remarks ∷ []) (select (listed_in c) t.items)
answer (select_code_name c) t =
    map (λ (g : Group). nat_to_string g.code ∷ g.name ∷ []) (select (has_code c) t.groups)
answer _ t = []
