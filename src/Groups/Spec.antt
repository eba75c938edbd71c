-- ===== src/Groups/Spec.antt =====
-- The calls of ServerIList/PublicGroup.cpp with every query replaced by its meaning on the tables.
use server_ilist.Prelude.{not, ℤ, pos, negsuc, ◌+ℤ◌, eq_ℤ, Bool, ◌==◌, []}
use server_ilist.Text.{Text, lit}
use server_ilist.Text.Number.{stoi, to_string, wrap_int}
use server_ilist.Exception.{
  standard, system, failed_create_group, no_such_user_in_the_group, permission_is_denied,
  full_group,
}
use server_ilist.Action.{Action, pure, throw, gets, subscript, or_fail, when, ◌>>=◌, ◌>>◌}
use server_ilist.World.{World}
use server_ilist.Database.{is_empty}
use server_ilist.Database.Mutex.{lock_groups, unlock_groups}
use server_ilist.Database.Permissions.{
  Permission, permission_of, is_authorized, same_permission, admin, full_control, non,
}
use server_ilist.Sqlite.Schema.{Tables}
use server_ilist.Sqlite.Language.{
  select_member, select_number, insert_group, select_newest, insert_admin, delete_group,
  delete_members, delete_items, insert_member, update_number, delete_member, update_status,
}
use server_ilist.Sqlite.Refines.{run}

unfoldable pub has_member : Text → Text → Action (World Tables) Bool
has_member code username = do data_ ← run (select_member username code); pure (not (is_empty data_))

unfoldable pub number_of : Text → Action (World Tables) ℤ
number_of code = do
  data_ ← run (select_number code)
  row ← subscript data_ 0
  value ← subscript row 0
  or_fail standard (stoi value)

unfoldable pub permission_in : Text → Text → Action (World Tables) Permission
permission_in code username = do
  data_ ← run (select_member username code)
  row ← subscript data_ 0
  status ← subscript row 2
  pure (permission_of status)

unfoldable pub create_group_on_tables : Text → Text → Action (World Tables) Text
create_group_on_tables group_name admin_name = do
  time_now ← gets (λ w. w.today)
  lock_groups
  run (insert_group group_name admin_name time_now)
  data_ ← run select_newest
  when (is_empty data_) (do unlock_groups; throw failed_create_group)
  row ← subscript data_ 0
  group_code ← subscript row 0
  run (insert_admin group_code admin_name)
  unlock_groups
  pure group_code

unfoldable pub remove_group_on_tables : Text → Text → Action (World Tables) Unit
remove_group_on_tables effector group_code = do
  lock_groups
  member ← has_member group_code effector
  when (not member) (do unlock_groups; throw (no_such_user_in_the_group []))
  status ← permission_in group_code effector
  when (not (is_authorized status admin)) unlock_groups
  run (delete_group group_code)
  run (delete_members group_code)
  run (delete_items group_code)
  unlock_groups

unfoldable pub add_user_on_tables : Text → Text → Text → Text → Action (World Tables) Unit
add_user_on_tables effector group_code username status = do
  lock_groups
  member ← has_member group_code effector
  when (not member) (do unlock_groups; throw (no_such_user_in_the_group []))
  number_of_users ← number_of group_code
  when (eq_ℤ number_of_users (pos 4))
      (do unlock_groups; throw (full_group (lit "PublicGroup() -- adduser()")))
  present ← has_member group_code username
  when present (do unlock_groups; throw system)
  effector_status ← permission_in group_code effector
  when (not (is_authorized effector_status full_control)) unlock_groups
  when (same_permission (permission_of status) non) (do unlock_groups; throw system)
  run (insert_member group_code username status)
  run (update_number (to_string (wrap_int (number_of_users +ℤ pos 1))) group_code)
  unlock_groups

unfoldable pub remove_user_on_tables : Text → Text → Text → Action (World Tables) Unit
remove_user_on_tables effector group_code username = do
  lock_groups
  member ← has_member group_code effector
  when (not member) (do unlock_groups; throw (no_such_user_in_the_group []))
  present ← has_member group_code username
  when (not present) (do unlock_groups; throw (no_such_user_in_the_group []))
  status ← permission_in group_code effector
  when (not (is_authorized status full_control)) (do unlock_groups; throw (permission_is_denied []))
  removed ← permission_in group_code username
  when (removed.permission_level == admin.permission_level)
      (do unlock_groups; throw (permission_is_denied []))
  number_of_users ← number_of group_code
  run (delete_member group_code username)
  run (update_number (to_string (wrap_int (number_of_users +ℤ negsuc 0))) group_code)
  unlock_groups

unfoldable pub set_user_status_on_tables : Text → Text → Text → Text → Action (World Tables) Unit
set_user_status_on_tables effector group_code username new_status = do
  lock_groups
  member ← has_member group_code effector
  when (not member) (do unlock_groups; throw (no_such_user_in_the_group []))
  present ← has_member group_code username
  when (not present) (do unlock_groups; throw (no_such_user_in_the_group []))
  status ← permission_in group_code effector
  when (not (is_authorized status full_control)) (do unlock_groups; throw (permission_is_denied []))
  changed ← permission_in group_code username
  when (changed.permission_level == admin.permission_level)
      (do unlock_groups; throw (permission_is_denied []))
  run (update_status new_status group_code username)
  unlock_groups
