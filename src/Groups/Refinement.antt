-- ===== src/Groups/Refinement.antt =====
-- The calls of ServerIList/PublicGroup.cpp, with the texts of their queries, refine the calls on
-- the tables.
use server_ilist.Prelude.{pos, negsuc, ◌+ℤ◌, refl}
use server_ilist.Text.Number.{to_string, wrap_int}
use server_ilist.Text.Number.RoundTrip.{wrap_int-IsInt}
use server_ilist.Text.{Text}
use server_ilist.Database.{Engine}
use server_ilist.Sqlite.{Implements}
use server_ilist.Sqlite.Schema.{Tables}
use server_ilist.Sqlite.Language.{
  select_member, select_number, delete_group, delete_members, delete_items, insert_member,
  update_number, delete_member, update_status, sql,
}
use server_ilist.Sqlite.Spelled.{IsQuotable, IsNumeral}
use server_ilist.Sqlite.Refines.{
  Refines, Refines-pure, Refines-lift, Refines-lock_groups, Refines-unlock_groups, ◌⊳◌,
  Refines-when, Refines-guard_groups, Refines-query,
}
use server_ilist.Groups.{
  add_user, get_number_of_users_in_group, remove_group, remove_user, set_user_status,
  is_user_exists_in_group, get_permission,
}
use server_ilist.Groups.Spec.{
  add_user_on_tables, remove_group_on_tables, remove_user_on_tables, set_user_status_on_tables,
  has_member, permission_in, number_of,
}

module _ {H : Type 0} {exec : Engine H} {view : H → Tables} (law : Implements exec view) where
  module _ (code username : Text) (numeral : IsNumeral code) (user : IsQuotable username) where
    has_member-Refines :
        Refines view (is_user_exists_in_group exec code username) (has_member code username)
    unfolding is_user_exists_in_group has_member sql
    has_member-Refines =
        Refines-query law (select_member username code) (user, numeral) ⊳ λ data_. Refines-pure _

    permission_in-Refines :
        Refines view (get_permission exec code username) (permission_in code username)
    unfolding get_permission permission_in sql
    permission_in-Refines =
        Refines-query law (select_member username code) (user, numeral) ⊳ λ data_.
        Refines-lift _ ⊳ λ row. Refines-lift _ ⊳ λ status. Refines-pure _

  module _ (code : Text) (numeral : IsNumeral code) where
    number_of-Refines : Refines view (get_number_of_users_in_group exec code) (number_of code)
    unfolding get_number_of_users_in_group number_of sql
    number_of-Refines = Refines-query law (select_number code) numeral ⊳ λ data_.
        Refines-lift _ ⊳ λ row. Refines-lift _ ⊳ λ value. Refines-lift _

  -- Closing a group, for an effector and a code that are spelled as literals: the program does on
  -- the database what it does on the tables.
  pub remove_group-Refines :
      (effector code : Text)
      → IsQuotable effector
      → IsNumeral code
      → Refines view (remove_group exec effector code) (remove_group_on_tables effector code)
  unfolding remove_group remove_group_on_tables sql
  remove_group-Refines effector code user numeral = Refines-lock_groups ⊳ λ _.
      has_member-Refines code effector numeral user ⊳ λ member. Refines-guard_groups _ _ ⊳ λ _.
      permission_in-Refines code effector numeral user ⊳ λ status.
      Refines-when _ Refines-unlock_groups ⊳ λ _.
      Refines-query law (delete_group code) numeral ⊳ λ _.
      Refines-query law (delete_members code) numeral ⊳ λ _.
      Refines-query law (delete_items code) numeral ⊳ λ _. Refines-unlock_groups

  pub add_user-Refines :
      (effector code username status : Text)
      → IsQuotable effector
      → IsNumeral code
      → IsQuotable username
      → IsQuotable status
      → Refines view
          (add_user exec effector code username status)
          (add_user_on_tables effector code username status)
  unfolding add_user add_user_on_tables sql
  add_user-Refines effector code username status clean numeral user rights =
      Refines-lock_groups ⊳ λ _. has_member-Refines code effector numeral clean ⊳ λ member.
      Refines-guard_groups _ _ ⊳ λ _. number_of-Refines code numeral ⊳ λ number.
      Refines-guard_groups _ _ ⊳ λ _. has_member-Refines code username numeral user ⊳ λ present.
      Refines-guard_groups _ _ ⊳ λ _.
      permission_in-Refines code effector numeral clean ⊳ λ effector_status.
      Refines-when _ Refines-unlock_groups ⊳ λ _. Refines-guard_groups _ _ ⊳ λ _.
      Refines-query law (insert_member code username status) (numeral, user, rights) ⊳ λ _.
      Refines-query law (update_number (to_string (wrap_int (number +ℤ pos 1))) code)
        ((wrap_int (number +ℤ pos 1), refl, wrap_int-IsInt (number +ℤ pos 1)), numeral)
      ⊳ λ _. Refines-unlock_groups

  pub remove_user-Refines :
      (effector code username : Text)
      → IsQuotable effector
      → IsNumeral code
      → IsQuotable username
      → Refines view
          (remove_user exec effector code username)
          (remove_user_on_tables effector code username)
  unfolding remove_user remove_user_on_tables sql
  remove_user-Refines effector code username clean numeral user = Refines-lock_groups ⊳ λ _.
      has_member-Refines code effector numeral clean ⊳ λ member. Refines-guard_groups _ _ ⊳ λ _.
      has_member-Refines code username numeral user ⊳ λ present. Refines-guard_groups _ _ ⊳ λ _.
      permission_in-Refines code effector numeral clean ⊳ λ status. Refines-guard_groups _ _ ⊳ λ _.
      permission_in-Refines code username numeral user ⊳ λ removed. Refines-guard_groups _ _ ⊳ λ _.
      number_of-Refines code numeral ⊳ λ number.
      Refines-query law (delete_member code username) (numeral, user) ⊳ λ _.
      Refines-query law (update_number (to_string (wrap_int (number +ℤ negsuc 0))) code)
        ((wrap_int (number +ℤ negsuc 0), refl, wrap_int-IsInt (number +ℤ negsuc 0)), numeral)
      ⊳ λ _. Refines-unlock_groups

  pub set_user_status-Refines :
      (effector code username status : Text)
      → IsQuotable effector
      → IsNumeral code
      → IsQuotable username
      → IsQuotable status
      → Refines view
          (set_user_status exec effector code username status)
          (set_user_status_on_tables effector code username status)
  unfolding set_user_status set_user_status_on_tables sql
  set_user_status-Refines effector code username new_status clean numeral user rights =
      Refines-lock_groups ⊳ λ _. has_member-Refines code effector numeral clean ⊳ λ member.
      Refines-guard_groups _ _ ⊳ λ _. has_member-Refines code username numeral user ⊳ λ present.
      Refines-guard_groups _ _ ⊳ λ _. permission_in-Refines code effector numeral clean ⊳ λ status.
      Refines-guard_groups _ _ ⊳ λ _. permission_in-Refines code username numeral user ⊳ λ changed.
      Refines-guard_groups _ _ ⊳ λ _.
      Refines-query law (update_status new_status code username) (rights, numeral, user) ⊳ λ _.
      Refines-unlock_groups
