-- ===== src/Sqlite/Toy.antt =====
-- A small SQLite: it reads the texts of the program's statements and runs them on the tables. It
-- shows that what is assumed of the library can hold.
pub mod Reading
use server_ilist.Prelude.{
  ℕ, Bool, true, false, ◌||◌, List, [], ◌∷◌, Option, none, some, map, length, get_or, ◌==◌,
  if◌then◌else◌,
}
use server_ilist.Text.{Text, lit, text_eq}
use server_ilist.Text.Number.{is_digit}
use server_ilist.World.{Rows}
use server_ilist.Database.{Prepared, Engine}
use server_ilist.Sqlite.Schema.{Tables}
use server_ilist.Sqlite.Language.{
  Statement, answer, select_login, select_register, select_exists, insert_account, insert_group,
  select_newest, insert_admin, delete_group, delete_members, delete_items, insert_member,
  update_number, delete_member, update_status, select_members, select_memberships, select_member,
  select_member_by_code, select_number, select_name, insert_item, select_item_key, select_item,
  select_quantity, delete_item, update_quantity, update_item, select_items, insert_packet,
  select_packets, delete_packets, select_codes, select_statuses, select_wares, select_code_name,
}
use server_ilist.Sqlite.Effect.{effect}

pub data Mode : Type 0 where
  plain quoted number : Mode

-- A text with its literals cut out: what is left of it, the literals, and the rest of the literal
-- in which the text begins.
pub record Lexed : Type 0 where
  pub current : Text
  pub skeleton : Text
  pub literals : List Text

abbrev plain_step : ℕ → Lexed → Lexed → Lexed → Lexed
plain_step c p q n =
    if c == 39
    then record { current = []; skeleton = 39 ∷ q.skeleton; literals = q.current ∷ q.literals }
    else if is_digit c || c == 45
    then record {
      current = [];
      skeleton = 35 ∷ n.skeleton;
      literals = (c ∷ n.current) ∷ n.literals;
    }
    else record { current = []; skeleton = c ∷ p.skeleton; literals = p.literals }

lex : Mode → Text → Lexed
lex mode [] = record { current = []; skeleton = []; literals = [] }
lex plain (c ∷ cs) =
    let p = lex plain cs in let q = lex quoted cs in let n = lex number cs in plain_step c p q n
lex quoted (c ∷ cs) =
    let p = lex plain cs in
    let q = lex quoted cs in
    if c == 39
    then record { current = []; skeleton = p.skeleton; literals = p.literals }
    else record { current = c ∷ q.current; skeleton = q.skeleton; literals = q.literals }
lex number (c ∷ cs) =
    let p = lex plain cs in
    let q = lex quoted cs in
    let n = lex number cs in
    let step = plain_step c p q n in
    if is_digit c
    then record { current = c ∷ n.current; skeleton = n.skeleton; literals = n.literals }
    else step

abbrev arg : List Text → ℕ → Text
arg args i = get_or args i []

-- The statement of a skeleton and its literals.
decode : Text → List Text → Option Statement
decode sk args =
    if text_eq sk (lit "select * from Users where username = ' and password = ';")
    then some (select_login (arg args 0) (arg args 1))
    else if text_eq sk (lit "select * from Users where username = ';")
    then some (select_register (arg args 0))
    else if text_eq sk (lit "SELECT * FROM Users WHERE username =';")
    then some (select_exists (arg args 0))
    else if text_eq sk (lit "INSERT INTO Users VALUES(',');")
    then some (insert_account (arg args 0) (arg args 1))
    else if text_eq sk (
        lit
          "INSERT INTO PublicGroups (name, admin, creation_date, number_of_users) VALUES (', ', ', #);")
    then some (insert_group (arg args 0) (arg args 1) (arg args 2))
    else if text_eq sk (lit "SELECT code FROM PublicGroups ORDER BY code DESC LIMIT #;")
    then some (select_newest)
    else if text_eq sk (lit "INSERT INTO Users_In_Groups VALUES(#,', ');")
    then some (insert_admin (arg args 0) (arg args 1))
    else if text_eq sk (lit "DELETE FROM PublicGroups WHERE code =#;")
    then some (delete_group (arg args 0))
    else if text_eq sk (lit "DELETE FROM Users_In_Groups WHERE group_code =#;")
    then some (delete_members (arg args 0))
    else if text_eq sk (lit "DELETE FROM Lists WHERE group_code =#;")
    then some (delete_items (arg args 0))
    else if text_eq sk (lit "INSERT INTO Users_In_Groups VALUES(#,',');")
    then some (insert_member (arg args 0) (arg args 1) (arg args 2))
    else if text_eq sk (lit "UPDATE PublicGroups SET number_of_users =# WHERE code =#;")
    then some (update_number (arg args 0) (arg args 1))
    else if text_eq sk (lit "DELETE FROM Users_In_Groups WHERE group_code=# AND username=';")
    then some (delete_member (arg args 0) (arg args 1))
    else if text_eq sk
        (lit "UPDATE Users_In_Groups SET status =' WHERE group_code =# AND username =';")
    then some (update_status (arg args 0) (arg args 1) (arg args 2))
    else if text_eq sk
        (lit "SELECT group_code,username,status FROM Users_In_Groups WHERE group_code =#;")
    then some (select_members (arg args 0))
    else if text_eq sk (lit "SELECT * FROM Users_In_Groups WHERE username =';")
    then some (select_memberships (arg args 0))
    else if text_eq sk (lit "SELECT * FROM Users_In_Groups WHERE username =' and group_code =#;")
    then some (select_member (arg args 0) (arg args 1))
    else if text_eq sk (lit "SELECT * FROM Users_In_Groups WHERE group_code =# AND username =';")
    then some (select_member_by_code (arg args 0) (arg args 1))
    else if text_eq sk (lit "SELECT number_of_users FROM PublicGroups WHERE code =#;")
    then some (select_number (arg args 0))
    else if text_eq sk (lit "SELECT name from PublicGroups WHERE code=#")
    then some (select_name (arg args 0))
    else if text_eq sk (lit "INSERT INTO Lists VALUES(#,',#,');")
    then some (insert_item (arg args 0) (arg args 1) (arg args 2) (arg args 3))
    else if text_eq sk (lit "SELECT * FROM Lists WHERE group_code =# AND item_name =';")
    then some (select_item_key (arg args 0) (arg args 1))
    else if text_eq sk (lit "SELECT * FROM Lists WHERE group_code=# AND item_name=';")
    then some (select_item (arg args 0) (arg args 1))
    else if text_eq sk (lit "SELECT quantity FROM Lists WHERE group_code =# AND item_name =';")
    then some (select_quantity (arg args 0) (arg args 1))
    else if text_eq sk (lit "DELETE FROM Lists WHERE group_code =# AND item_name =';")
    then some (delete_item (arg args 0) (arg args 1))
    else if text_eq sk (lit "UPDATE Lists SET quantity = # WHERE group_code =# AND item_name=';")
    then some (update_quantity (arg args 0) (arg args 1) (arg args 2))
    else if text_eq sk (
        lit
          "UPDATE Lists SET item_name =',quantity =#,remarks =' WHERE group_code =# AND item_name=';")
    then some (update_item (arg args 0) (arg args 1) (arg args 2) (arg args 3) (arg args 4))
    else if text_eq sk (lit "SELECT * FROM Lists WHERE group_code=#;")
    then some (select_items (arg args 0))
    else if text_eq sk (lit "INSERT INTO UsersPackets (username, message) VALUES(',');")
    then some (insert_packet (arg args 0) (arg args 1))
    else if text_eq sk (lit "SELECT message FROM UsersPackets WHERE username =';")
    then some (select_packets (arg args 0))
    else if text_eq sk (lit "DELETE FROM UsersPackets WHERE username=';")
    then some (delete_packets (arg args 0))
    else if text_eq sk (lit "SELECT group_code FROM Users_In_Groups WHERE username=';")
    then some (select_codes (arg args 0))
    else if text_eq sk (lit "SELECT username,status FROM Users_In_Groups WHERE group_code=#;")
    then some (select_statuses (arg args 0))
    else if text_eq sk (lit "SELECT item_name,quantity,remarks FROM Lists WHERE group_code=#;")
    then some (select_wares (arg args 0))
    else if text_eq sk (lit "SELECT code,name FROM PublicGroups WHERE code=#;")
    then some (select_code_name (arg args 0))
    else none

read_statement : Text → Option Statement
unfolding lex decode
read_statement text = let r = lex plain text in decode r.skeleton r.literals

widths : Rows → ℕ
widths [] = 0
widths (r ∷ rs) = length r

run_statement : Option Statement → Tables → Option Prepared × Tables
unfolding widths
run_statement none t = (none, t)
run_statement (some st) t = (
  some (record { cols = widths (answer st t); rows = map (map some) (answer st t) }),
  effect st t,
)

unfoldable pub toy : Engine Tables
unfolding read_statement run_statement
toy text t = run_statement (read_statement text) t
