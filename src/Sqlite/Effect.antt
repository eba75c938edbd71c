-- ===== src/Sqlite/Effect.antt =====
-- What the statements that the program sends do to the tables.
use server_ilist.Prelude.{suc, not, List, [], ◌∷◌, ◌++◌, Option, none, some, select, if◌then◌else◌}
use server_ilist.Text.{Text, lit, text_eq}
use server_ilist.Sqlite.Schema.{
  Tables, has_code, in_group, is_member, listed_in, is_item, is_account, for_user, update, find,
}
use server_ilist.Sqlite.Language.{
  Statement, insert_account, insert_group, insert_admin, delete_group, delete_members, delete_items,
  insert_member, update_number, delete_member, update_status, insert_item, delete_item,
  update_quantity, update_item, insert_packet, delete_packets,
}

-- A row whose primary key is taken is not inserted.
abbrev pub insert_new {ℓ} : {A : Type ℓ} → Option A → A → List A → List A
insert_new none x xs = xs ++ x ∷ []
insert_new (some y) x xs = xs

abbrev pub put_member : Text → Text → Text → Tables → Tables
put_member c u s t = record t {
  members =
      insert_new (find (is_member c u) t.members)
        (record { group_code = c; username = u; status = s }) t.members;
}

-- An UPDATE that would give two rows one primary key fails and changes nothing.
abbrev pub change_item : Text → Text → Text → Text → Text → Tables → Tables
change_item n q r c k t =
    let changed = record t {
      items =
          update (is_item c k) (λ i. record i { item_name = n; quantity = q; remarks = r }) t.items;
    } in
    elim (find (is_item c n) t.items) [
      | none ↦ changed
      | some i ↦
          if text_eq k n
          then changed
          else elim (find (is_item c k) t.items) [ none ↦ changed | some j ↦ t ]
    ]

-- The tables after a statement; SQLite does not enforce foreign keys unless it is told to.
unfoldable pub effect : Statement → Tables → Tables
effect (insert_account u p) t = record t {
  users = insert_new (find (is_account u) t.users) (record { username = u; password = p }) t.users;
}
effect (insert_group n a d) t = record t {
  groups =
      t.groups
      ++ record {
        code = t.next_code;
        name = n;
        admin = a;
        creation_date = d;
        number_of_users = lit "1";
      }
        ∷ [];
  next_code = suc t.next_code;
}
effect (insert_admin c u) t = put_member c u (lit "admin") t
effect (insert_member c u s) t = put_member c u s t
effect (delete_group c) t = record t { groups = select (λ g. not (has_code c g)) t.groups }
effect (delete_members c) t = record t { members = select (λ m. not (in_group c m)) t.members }
effect (delete_items c) t = record t { items = select (λ i. not (listed_in c i)) t.items }
effect (update_number n c) t = record t {
  groups = update (has_code c) (λ g. record g { number_of_users = n }) t.groups;
}
effect (delete_member c u) t = record t { members = select (λ m. not (is_member c u m)) t.members }
effect (update_status s c u) t = record t {
  members = update (is_member c u) (λ m. record m { status = s }) t.members;
}
effect (insert_item c i q r) t = record t {
  items =
      insert_new (find (is_item c i) t.items)
        (record { group_code = c; item_name = i; quantity = q; remarks = r }) t.items;
}
effect (delete_item c i) t = record t { items = select (λ j. not (is_item c i j)) t.items }
effect (update_quantity q c i) t = record t {
  items = update (is_item c i) (λ j. record j { quantity = q }) t.items;
}
effect (update_item n q r c k) t = change_item n q r c k t
effect (insert_packet u m) t = record t {
  packets = t.packets ++ record { username = u; message = m } ∷ [];
}
effect (delete_packets u) t = record t { packets = select (λ p. not (for_user u p)) t.packets }
effect _ t = t
