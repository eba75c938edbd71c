-- ===== src/Restore/Round.antt =====
-- One round of `buildRestoreMessage` (ServerIList/Restore.cpp): a group, its members and its items.
use mathlib.Core.List.{Permᴰ}
use server_ilist.Prelude.{
  suc, ◌+◌, ◌≡◌, refl, some, List, [], ◌∷◌, ◌++◌, map, select, length, get_elem?, ap, ◌∙◌, arith,
}
use server_ilist.Text.{Text}
use server_ilist.Exception.{ok}
use server_ilist.Action.{◌>>=◌}
use server_ilist.World.{World, Row}
use server_ilist.Database.{Engine}
use server_ilist.Sqlite.{Implements}
use server_ilist.Sqlite.Schema.{Tables, Group, Member, Item, has_code, in_group, listed_in, find}
use server_ilist.Sqlite.Schema.Find.{select-eq_cons_of_find}
use server_ilist.Sqlite.Language.{sql, answer, select_code_name, select_statuses, select_wares}
use server_ilist.Sqlite.Effect.{effect}
use server_ilist.Sqlite.Arranged.{select-Permᴰ}
use server_ilist.Sqlite.Spelled.{IsNumeral}
use server_ilist.Sqlite.Refines.{asked, query-answer, query-lists, view-asked}
use server_ilist.Restore.{
  users_loop, items_loop, group_round, get_next_group, find_users_in_group, find_items_in_group,
}
use server_ilist.Restore.Loops.{
  render_members, render_items, status_row, ware_row, users_from, items_from,
}
use server_ilist.Restore.Rendering.{add_group}

pub length-map {ℓ κ} :
    {A : Type ℓ} {B : Type κ} (f : A → B) (xs : List A) → length (map f xs) ≡ length xs
length-map f [] = refl
length-map f (x ∷ xs) = ap suc (length-map f xs)

abbrev pub code_row : Member → Row
code_row k = k.group_code ∷ []

module _ {H : Type 0} {exec : Engine H} {view : H → Tables} (law : Implements exec view) where
  -- The members and the items of a group, in the orders in which the library lists them.
  abbrev members_in : Text → World H → List Member
  members_in code w = select (in_group code) (law.arranged (select_statuses code) w.db).members

  abbrev items_in : Text → World H → List Item
  items_in code w = select (listed_in code) (law.arranged (select_wares code) w.db).items

  -- The world with the members of the group in the cursor, all of them read.
  abbrev read_users : Text → World H → World H
  read_users code w =
      let w' = asked law (select_statuses code) w in
      record w' {
        restore = record w'.restore {
          m_users = map status_row (members_in code w);
          m_index_u = length (members_in code w);
        };
      }

  abbrev read_items : Text → World H → World H
  read_items code w =
      let w' = asked law (select_wares code) w in
      record w' {
        restore = record w'.restore {
          m_items = map ware_row (items_in code w);
          m_index_i = length (items_in code w);
        };
      }

  abbrev found_users : Text → World H → World H
  found_users code w = record (read_users code w) {
    restore = record (read_users code w).restore { m_index_u = 0 };
  }

  abbrev found_items : Text → World H → World H
  found_items code w = record (read_items code w) {
    restore = record (read_items code w).restore { m_index_i = 0 };
  }

  find_users-eq :
      (code : Text) (w : World H)
      → IsNumeral code
      → find_users_in_group exec code w ≡ (ok tt, found_users code w)
  unfolding find_users_in_group ◌>>=◌ answer sql
  find_users-eq code w numeral = rw (query-lists law (select_statuses code) w numeral) refl

  find_items-eq :
      (code : Text) (w : World H)
      → IsNumeral code
      → find_items_in_group exec code w ≡ (ok tt, found_items code w)
  unfolding find_items_in_group ◌>>=◌ answer sql
  find_items-eq code w numeral = rw (query-lists law (select_wares code) w numeral) refl

  users_loop-eq :
      (ret code : Text) (w : World H)
      → users_loop (length (found_users code w).restore.m_users) ret (found_users code w)
        ≡ (ok (ret ++ render_members (members_in code w)), read_users code w)
  users_loop-eq ret code w =
      let ms = members_in code w in
      let e : 0 + length ms ≡ length ms = omega arith in
      rw (length-map status_row ms)
        (users_from [] ms ret (found_users code w) refl refl ∙ rw e refl)

  items_loop-eq :
      (ret code : Text) (w : World H)
      → items_loop (length (found_items code w).restore.m_items) ret (found_items code w)
        ≡ (ok (ret ++ render_items (items_in code w)), read_items code w)
  items_loop-eq ret code w =
      let js = items_in code w in
      let e : 0 + length js ≡ length js = omega arith in
      rw (length-map ware_row js) (items_from [] js ret (found_items code w) refl refl ∙ rw e refl)

  -- A round adds the text of the group, with its members and its items in some order.
  pub record IsEntry (ret : Text) (k : Member) (g : Group) (w : World H) : Type 0 where
    pub after : World H
    pub members : List Member
    pub items : List Item
    pub members_all : Permᴰ members (select (in_group k.group_code) (view w.db).members)
    pub items_all : Permᴰ items (select (listed_in k.group_code) (view w.db).items)
    pub added :
        group_round exec ret w ≡ (ok (add_group ret k.group_code g.name members items), after)
    pub same : view after.db ≡ view w.db
    pub listed : after.restore.m_groups ≡ w.restore.m_groups
    pub moved : after.restore.m_index_g ≡ w.restore.m_index_g + 1

  module _ (ret : Text) (k : Member) (g : Group) (w : World H)
      (row : get_elem? w.restore.m_groups w.restore.m_index_g ≡ some (code_row k))
      (numeral : IsNumeral k.group_code)
      (here : find (has_code k.group_code) (view w.db).groups ≡ some g) where
    abbrev named : World H
    named = asked law (select_code_name k.group_code) w

    abbrev moved : World H
    moved = record named {
      restore = record named.restore { m_index_g = named.restore.m_index_g + 1 };
    }

    get_next_group-eq :
        get_next_group exec w ≡ (ok (record { code = k.group_code; name = g.name }), moved)
    unfolding get_next_group ◌>>=◌ answer sql
    get_next_group-eq =
        let (rest, e) = select-eq_cons_of_find (has_code k.group_code) (view w.db).groups g here in
        rw (row, query-answer law (select_code_name k.group_code) w numeral, e) refl

    abbrev after_round : World H
    after_round = read_items k.group_code (read_users k.group_code moved)

    view-named : view named.db ≡ view w.db
    unfolding effect
    view-named = view-asked law (select_code_name k.group_code) w numeral refl

    view-users : view (read_users k.group_code moved).db ≡ view w.db
    view-users = law.lists_only (select_statuses k.group_code) moved.db numeral ∙ view-named

    view-round : view after_round.db ≡ view w.db
    view-round =
        law.lists_only (select_wares k.group_code) (read_users k.group_code moved).db numeral
        ∙ view-users

    pub group_round-IsEntry : IsEntry ret k g w
    unfolding group_round ◌>>=◌
    group_round-IsEntry = record {
      after = after_round;
      members = members_in k.group_code moved;
      items = items_in k.group_code (read_users k.group_code moved);
      members_all = rw⁻¹ view-named (
          select-Permᴰ (in_group k.group_code)
            (law.rearranged (select_statuses k.group_code) moved.db).members);
      items_all = rw⁻¹ view-users (
          select-Permᴰ (listed_in k.group_code)
            (law.rearranged (select_wares k.group_code) (read_users k.group_code moved).db).items);
      added =
          rw
            (
              get_next_group-eq,
              find_users-eq k.group_code moved numeral,
              users_loop-eq _ k.group_code moved,
              find_items-eq k.group_code (read_users k.group_code moved) numeral,
              items_loop-eq _ k.group_code (read_users k.group_code moved),
            )
            refl;
      same = view-round;
      listed = refl;
      moved = refl;
    }
