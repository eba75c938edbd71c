-- ===== src/Lists/Spec.antt =====
-- The calls of ServerIList/PublicLists.cpp with every query replaced by its meaning on the tables.
use server_ilist.Prelude.{Bool, not, ◌&&◌, [], pos, ◌+ℤ◌, ltb_ℤ, if◌then◌else◌}
use server_ilist.Text.{Text, text_eq}
use server_ilist.Text.Number.{stoi, to_string, wrap_int}
use server_ilist.Exception.{standard, system, no_such_user_in_the_group, permission_is_denied}
use server_ilist.Action.{Action, pure, throw, subscript, or_fail, when, ◌>>=◌, ◌>>◌}
use server_ilist.World.{World}
use server_ilist.Database.{is_empty}
use server_ilist.Database.Mutex.{lock_lists, unlock_lists}
use server_ilist.Database.Permissions.{is_authorized, read_write}
use server_ilist.Sqlite.Schema.{Tables}
use server_ilist.Sqlite.Language.{
  select_member_by_code, select_item_key, select_item, select_quantity, insert_item,
  update_quantity, delete_item, update_item,
}
use server_ilist.Sqlite.Refines.{run}
use server_ilist.Lists.{is_number}
use server_ilist.Groups.Spec.{permission_in}

unfoldable pub has_user : Text → Text → Action (World Tables) Bool
has_user code username = do
  data_ ← run (select_member_by_code code username)
  pure (not (is_empty data_))

unfoldable pub has_item : Text → Text → Action (World Tables) Bool
has_item code item_name = do
  data_ ← run (select_item_key code item_name)
  pure (not (is_empty data_))

unfoldable pub quantity_of : Text → Text → Action (World Tables) Text
quantity_of code item_name = do
  data_ ← run (select_quantity code item_name)
  row ← subscript data_ 0
  subscript row 0

unfoldable pub inc_on_tables : Text → Text → Text → Action (World Tables) Unit
inc_on_tables code item_name inc = do
  last ← quantity_of code item_name
  old ← or_fail standard (stoi last)
  more ← or_fail standard (stoi inc)
  run (update_quantity (to_string (wrap_int (old +ℤ more))) code item_name)
  pure tt

unfoldable pub add_item_on_tables : Text → Text → Text → Text → Text → Action (World Tables) Unit
add_item_on_tables effector code item_name quantity remarks = do
  lock_lists
  member ← has_user code effector
  when (not member) (do unlock_lists; throw (no_such_user_in_the_group []))
  status ← permission_in code effector
  when (not (is_authorized status read_write)) (do unlock_lists; throw (permission_is_denied []))
  known ← has_item code item_name
  if known
      then inc_on_tables code item_name quantity
      else (do run (insert_item code item_name quantity remarks); pure tt)
  unlock_lists

unfoldable pub remove_item_on_tables : Text → Text → Text → Action (World Tables) Unit
remove_item_on_tables effector code item_name = do
  lock_lists
  member ← has_user code effector
  when (not member) (do unlock_lists; throw (no_such_user_in_the_group []))
  status ← permission_in code effector
  when (not (is_authorized status read_write)) (do unlock_lists; throw (permission_is_denied []))
  known ← has_item code item_name
  when (not known) (do unlock_lists; throw system)
  run (delete_item code item_name)
  unlock_lists

unfoldable pub update_item_on_tables :
    Text → Text → Text → Text → Text → Text → Action (World Tables) Unit
update_item_on_tables effector code key new_name new_quantity new_remarks = do
  lock_lists
  member ← has_user code effector
  when (not member) (do unlock_lists; throw (no_such_user_in_the_group []))
  status ← permission_in code effector
  when (not (is_authorized status read_write)) (do unlock_lists; throw (permission_is_denied []))
  known ← has_item code key
  when (not known) (do unlock_lists; throw system)
  data_ ← run (select_item code key)
  row ← subscript data_ 0
  last_name ← subscript row 1
  last_quantity ← subscript row 2
  last_remarks ← subscript row 3
  when
      (text_eq last_name new_name
        && (text_eq last_quantity new_quantity && text_eq last_remarks new_remarks))
      (do unlock_lists; throw system)
  when (not (is_number new_quantity)) (do unlock_lists; throw system)
  amount ← or_fail standard (stoi new_quantity)
  when (not (ltb_ℤ (pos 0) amount)) (do unlock_lists; throw system)
  run (update_item new_name new_quantity new_remarks code key)
  unlock_lists
