-- ===== src/Lists/Refinement.antt =====
-- The calls of ServerIList/PublicLists.cpp, with the texts of their queries, refine the calls on
-- the tables.
use server_ilist.Prelude.{◌≡◌, true, ◌+ℤ◌, refl}
use server_ilist.Text.{Text}
use server_ilist.Text.Number.{to_string, wrap_int}
use server_ilist.Text.Number.RoundTrip.{wrap_int-IsInt}
use server_ilist.Database.{Engine}
use server_ilist.Sqlite.{Implements}
use server_ilist.Sqlite.Schema.{Tables}
use server_ilist.Sqlite.Language.{
  select_member, select_member_by_code, select_item_key, select_item, select_quantity, insert_item,
  update_quantity, delete_item, sql,
}
use server_ilist.Sqlite.Spelled.{IsQuotable, IsNumeral}
use server_ilist.Sqlite.Language
use server_ilist.Sqlite.Refines.{
  Refines, Refines-pure, Refines-lift, Refines-lock_lists, Refines-unlock_lists, ◌⊳◌, Refines-if,
  Refines-guard_lists, Refines-checked_lists, Refines-query,
}
use server_ilist.Lists.{
  add_item, remove_item, update_item, is_user_exists_in_group, is_item_exists_in_list,
  get_permission, get_quantity, inc_item, is_number,
}
use server_ilist.Lists.Spec.{
  add_item_on_tables, remove_item_on_tables, update_item_on_tables, has_user, has_item, quantity_of,
  inc_on_tables,
}
use server_ilist.Groups.Spec.{permission_in}

module _ {H : Type 0} {exec : Engine H} {view : H → Tables} (law : Implements exec view) where
  module _ (code name : Text) (numeral : IsNumeral code) (clean : IsQuotable name) where
    has_user-Refines : Refines view (is_user_exists_in_group exec code name) (has_user code name)
    unfolding is_user_exists_in_group has_user sql
    has_user-Refines =
        Refines-query law (select_member_by_code code name) (numeral, clean) ⊳ λ data_.
        Refines-pure _

    has_item-Refines : Refines view (is_item_exists_in_list exec code name) (has_item code name)
    unfolding is_item_exists_in_list has_item sql
    has_item-Refines =
        Refines-query law (select_item_key code name) (numeral, clean) ⊳ λ data_. Refines-pure _

    permission_at-Refines : Refines view (get_permission exec code name) (permission_in code name)
    unfolding get_permission permission_in sql
    permission_at-Refines = Refines-query law (select_member name code) (clean, numeral) ⊳ λ data_.
        Refines-lift _ ⊳ λ row. Refines-lift _ ⊳ λ status. Refines-pure _

    quantity_of-Refines : Refines view (get_quantity exec code name) (quantity_of code name)
    unfolding get_quantity quantity_of sql
    quantity_of-Refines = Refines-query law (select_quantity code name) (numeral, clean) ⊳ λ data_.
        Refines-lift _ ⊳ λ row. Refines-lift _

    inc_item-Refines :
        (inc : Text) → Refines view (inc_item exec code name inc) (inc_on_tables code name inc)
    unfolding inc_item inc_on_tables sql
    inc_item-Refines inc = quantity_of-Refines ⊳ λ last. Refines-lift _ ⊳ λ old.
        Refines-lift _ ⊳ λ more.
        Refines-query law (update_quantity (to_string (wrap_int (old +ℤ more))) code name)
          ((wrap_int (old +ℤ more), refl, wrap_int-IsInt (old +ℤ more)), numeral, clean)
        ⊳ λ _. Refines-pure _

  module _ (effector code name : Text) (user : IsQuotable effector) (numeral : IsNumeral code)
      (clean : IsQuotable name) where
    pub add_item-Refines :
        (quantity remarks : Text)
        → IsNumeral quantity
        → IsQuotable remarks
        → Refines view
            (add_item exec effector code name quantity remarks)
            (add_item_on_tables effector code name quantity remarks)
    unfolding add_item add_item_on_tables sql
    add_item-Refines quantity remarks number notes = Refines-lock_lists ⊳ λ _.
        has_user-Refines code effector numeral user ⊳ λ member. Refines-guard_lists _ _ ⊳ λ _.
        permission_at-Refines code effector numeral user ⊳ λ status. Refines-guard_lists _ _ ⊳ λ _.
        has_item-Refines code name numeral clean ⊳ λ known.
        Refines-if known (inc_item-Refines code name numeral clean quantity) (
          Refines-query law (insert_item code name quantity remarks) (numeral, clean, number, notes)
          ⊳ λ _. Refines-pure _)
        ⊳ λ _. Refines-unlock_lists

    pub remove_item-Refines :
        Refines view
          (remove_item exec effector code name)
          (remove_item_on_tables effector code name)
    unfolding remove_item remove_item_on_tables sql
    remove_item-Refines = Refines-lock_lists ⊳ λ _.
        has_user-Refines code effector numeral user ⊳ λ member. Refines-guard_lists _ _ ⊳ λ _.
        permission_at-Refines code effector numeral user ⊳ λ status. Refines-guard_lists _ _ ⊳ λ _.
        has_item-Refines code name numeral clean ⊳ λ known. Refines-guard_lists _ _ ⊳ λ _.
        Refines-query law (delete_item code name) (numeral, clean) ⊳ λ _. Refines-unlock_lists

    pub update_item-Refines :
        (new_name new_quantity new_remarks : Text)
        → IsQuotable new_name
        → (is_number new_quantity ≡ true → IsNumeral new_quantity)
        → IsQuotable new_remarks
        → Refines view
            (update_item exec effector code name new_name new_quantity new_remarks)
            (update_item_on_tables effector code name new_name new_quantity new_remarks)
    unfolding update_item update_item_on_tables sql
    update_item-Refines new_name new_quantity new_remarks named number notes =
        Refines-lock_lists ⊳ λ _. has_user-Refines code effector numeral user ⊳ λ member.
        Refines-guard_lists _ _ ⊳ λ _. permission_at-Refines code effector numeral user ⊳ λ status.
        Refines-guard_lists _ _ ⊳ λ _. has_item-Refines code name numeral clean ⊳ λ known.
        Refines-guard_lists _ _ ⊳ λ _.
        Refines-query law (select_item code name) (numeral, clean) ⊳ λ data_.
        Refines-lift _ ⊳ λ row. Refines-lift _ ⊳ λ last_name. Refines-lift _ ⊳ λ last_quantity.
        Refines-lift _ ⊳ λ last_remarks. Refines-guard_lists _ _ ⊳ λ _.
        Refines-checked_lists (is_number new_quantity) _ (λ digits. Refines-lift _ ⊳ λ amount.
        Refines-guard_lists _ _ ⊳ λ _.
        Refines-query law (Language.update_item new_name new_quantity new_remarks code name)
          (named, number digits, notes, numeral, clean)
        ⊳ λ _. Refines-unlock_lists)
