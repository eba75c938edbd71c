-- ===== src/Groups.antt =====
-- ServerIList/PublicGroup.cpp: groups, their members and the members' permissions.
pub mod Spec
pub mod Lookups
pub mod Close
pub mod Refinement
pub mod Members
pub mod Invite
pub mod Count
pub mod Counting
pub mod Create
pub mod Fresh
use server_ilist.Prelude.{Bool, not, ◌++◌, ℤ, pos, negsuc, ◌+ℤ◌, eq_ℤ, ◌==◌, []}
use server_ilist.Text.{Text, lit}
use server_ilist.Text.Number.{stoi, to_string, wrap_int}
use server_ilist.Exception.{
  standard, system, failed_create_group, no_such_user_in_the_group, permission_is_denied,
  full_group,
}
use server_ilist.Action.{Action, pure, throw, gets, subscript, or_fail, when, ◌>>=◌, ◌>>◌}
use server_ilist.World.{World, Rows}
use server_ilist.Database.{Engine, query, is_empty}
use server_ilist.Database.Mutex.{lock_groups, unlock_groups}
use server_ilist.Database.Permissions.{
  Permission, permission_of, is_authorized, same_permission, admin, full_control, non,
}

module _ {H : Type 0} (exec : Engine H) where
  unfoldable pub is_user_exists_in_group : Text → Text → Action (World H) Bool
  is_user_exists_in_group group_code username = do
    data_ ← query exec (
        lit "SELECT * FROM Users_In_Groups WHERE username ='"
        ++ (username ++ (lit "' and group_code =" ++ (group_code ++ lit ";"))))
    pure (not (is_empty data_))

  -- `stoi` throws a standard exception on a text that is no number.
  unfoldable pub get_number_of_users_in_group : Text → Action (World H) ℤ
  get_number_of_users_in_group group_code = do
    data_ ←
        query exec
          (lit "SELECT number_of_users FROM PublicGroups WHERE code =" ++ (group_code ++ lit ";"))
    row ← subscript data_ 0
    value ← subscript row 0
    or_fail standard (stoi value)

  unfoldable pub get_permission : Text → Text → Action (World H) Permission
  get_permission group_code username = do
    data_ ← query exec (
        lit "SELECT * FROM Users_In_Groups WHERE username ='"
        ++ (username ++ (lit "' and group_code =" ++ (group_code ++ lit ";"))))
    row ← subscript data_ 0
    status ← subscript row 2
    pure (permission_of status)

  unfoldable pub create_group : Text → Text → Action (World H) Text
  create_group group_name admin_name = do
    time_now ← gets (λ w. w.today)
    lock_groups
    query exec (
        lit "INSERT INTO PublicGroups (name, admin, creation_date, number_of_users) VALUES ('"
        ++ (group_name
            ++ (lit "', '" ++ (admin_name ++ (lit "', '" ++ (time_now ++ lit "', 1);"))))))
    data_ ← query exec (lit "SELECT code FROM PublicGroups ORDER BY code DESC LIMIT 1;")
    when (is_empty data_) (do unlock_groups; throw failed_create_group)
    row ← subscript data_ 0
    group_code ← subscript row 0
    query exec (
        lit "INSERT INTO Users_In_Groups VALUES("
        ++ (group_code ++ (lit ",'" ++ (admin_name ++ (lit "', '" ++ (lit "admin" ++ lit "');"))))))
    unlock_groups
    pure group_code

  -- The branch for a missing permission builds an exception and does not throw it.
  unfoldable pub remove_group : Text → Text → Action (World H) Unit
  remove_group effector group_code = do
    lock_groups
    member ← is_user_exists_in_group group_code effector
    when (not member) (do unlock_groups; throw (no_such_user_in_the_group []))
    status ← get_permission group_code effector
    when (not (is_authorized status admin)) unlock_groups
    query exec (lit "DELETE FROM PublicGroups WHERE code =" ++ (group_code ++ lit ";"))
    query exec (lit "DELETE FROM Users_In_Groups WHERE group_code =" ++ (group_code ++ lit ";"))
    query exec (lit "DELETE FROM Lists WHERE group_code =" ++ (group_code ++ lit ";"))
    unlock_groups

  -- Here too the permission exception is built and not thrown.
  unfoldable pub add_user : Text → Text → Text → Text → Action (World H) Unit
  add_user effector group_code username status = do
    lock_groups
    member ← is_user_exists_in_group group_code effector
    when (not member) (do unlock_groups; throw (no_such_user_in_the_group []))
    number_of_users ← get_number_of_users_in_group group_code
    when (eq_ℤ number_of_users (pos 4))
        (do unlock_groups; throw (full_group (lit "PublicGroup() -- adduser()")))
    present ← is_user_exists_in_group group_code username
    when present (do unlock_groups; throw system)
    effector_status ← get_permission group_code effector
    when (not (is_authorized effector_status full_control)) unlock_groups
    when (same_permission (permission_of status) non) (do unlock_groups; throw system)
    query exec (
        lit "INSERT INTO Users_In_Groups VALUES("
        ++ (group_code ++ (lit ",'" ++ (username ++ (lit "','" ++ (status ++ lit "');"))))))
    query exec (
        lit "UPDATE PublicGroups SET number_of_users ="
        ++ (to_string (wrap_int (number_of_users +ℤ pos 1))
            ++ (lit " WHERE code =" ++ (group_code ++ lit ";"))))
    unlock_groups

  unfoldable pub remove_user : Text → Text → Text → Action (World H) Unit
  remove_user effector group_code username = do
    lock_groups
    member ← is_user_exists_in_group group_code effector
    when (not member) (do unlock_groups; throw (no_such_user_in_the_group []))
    present ← is_user_exists_in_group group_code username
    when (not present) (do unlock_groups; throw (no_such_user_in_the_group []))
    status ← get_permission group_code effector
    when (not (is_authorized status full_control))
        (do unlock_groups; throw (permission_is_denied []))
    removed ← get_permission group_code username
    when (removed.permission_level == admin.permission_level)
        (do unlock_groups; throw (permission_is_denied []))
    number_of_users ← get_number_of_users_in_group group_code
    query exec (
        lit "DELETE FROM Users_In_Groups WHERE group_code="
        ++ (group_code ++ (lit " AND username='" ++ (username ++ lit "';"))))
    query exec (
        lit "UPDATE PublicGroups SET number_of_users ="
        ++ (to_string (wrap_int (number_of_users +ℤ negsuc 0))
            ++ (lit " WHERE code =" ++ (group_code ++ lit ";"))))
    unlock_groups

  unfoldable pub set_user_status : Text → Text → Text → Text → Action (World H) Unit
  set_user_status effector group_code username new_status = do
    lock_groups
    member ← is_user_exists_in_group group_code effector
    when (not member) (do unlock_groups; throw (no_such_user_in_the_group []))
    present ← is_user_exists_in_group group_code username
    when (not present) (do unlock_groups; throw (no_such_user_in_the_group []))
    status ← get_permission group_code effector
    when (not (is_authorized status full_control))
        (do unlock_groups; throw (permission_is_denied []))
    changed ← get_permission group_code username
    when (changed.permission_level == admin.permission_level)
        (do unlock_groups; throw (permission_is_denied []))
    query exec (
        lit "UPDATE Users_In_Groups SET status ='"
        ++ (new_status
            ++ (lit "' WHERE group_code ="
                ++ (group_code ++ (lit " AND username ='" ++ (username ++ lit "';"))))))
    unlock_groups

  unfoldable pub get_all_users_in_group : Text → Action (World H) Rows
  get_all_users_in_group group_code = query exec (
      lit "SELECT group_code,username,status FROM Users_In_Groups WHERE group_code ="
      ++ (group_code ++ lit ";"))

  unfoldable pub get_all_groups_of_user : Text → Action (World H) Rows
  get_all_groups_of_user username =
      query exec (lit "SELECT * FROM Users_In_Groups WHERE username ='" ++ (username ++ lit "';"))

  unfoldable pub get_group_name : Text → Action (World H) Text
  get_group_name group_code = do
    data_ ← query exec (lit "SELECT name from PublicGroups WHERE code=" ++ group_code)
    row ← subscript data_ 0
    subscript row 0
