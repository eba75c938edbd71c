-- ===== src/Lists.antt =====
-- ServerIList/PublicLists.cpp: the shopping list of each group.
pub mod Spec
pub mod Lookups
pub mod Guard
pub mod Refinement
pub mod Items
pub mod Change
pub mod Collision
pub mod Jam
use server_ilist.Prelude.{Bool, true, not, ◌&&◌, ◌++◌, [], ◌∷◌, pos, ◌+ℤ◌, ltb_ℤ, if◌then◌else◌}
use server_ilist.Text.{Text, lit, text_eq}
use server_ilist.Text.Number.{is_digit, stoi, to_string, wrap_int}
use server_ilist.Exception.{standard, system, no_such_user_in_the_group, permission_is_denied}
use server_ilist.Action.{Action, pure, throw, subscript, or_fail, when, ◌>>=◌, ◌>>◌}
use server_ilist.World.{World, Rows}
use server_ilist.Database.{Engine, query, is_empty}
use server_ilist.Database.Mutex.{lock_lists, unlock_lists}
use server_ilist.Database.Permissions.{Permission, permission_of, is_authorized, read_write}

unfoldable pub is_number : Text → Bool
is_number [] = true
is_number (c ∷ str) = is_digit c && is_number str

module _ {H : Type 0} (exec : Engine H) where
  unfoldable pub is_user_exists_in_group : Text → Text → Action (World H) Bool
  is_user_exists_in_group group_code username = do
    data_ ← query exec (
        lit "SELECT * FROM Users_In_Groups WHERE group_code ="
        ++ (group_code ++ (lit " AND username ='" ++ (username ++ lit "';"))))
    pure (not (is_empty data_))

  unfoldable pub is_item_exists_in_list : Text → Text → Action (World H) Bool
  is_item_exists_in_list group_code item_name = do
    data_ ← query exec (
        lit "SELECT * FROM Lists WHERE group_code ="
        ++ (group_code ++ (lit " AND item_name ='" ++ (item_name ++ lit "';"))))
    pure (not (is_empty data_))

  unfoldable pub get_permission : Text → Text → Action (World H) Permission
  get_permission group_code username = do
    data_ ← query exec (
        lit "SELECT * FROM Users_In_Groups WHERE username ='"
        ++ (username ++ (lit "' and group_code =" ++ (group_code ++ lit ";"))))
    row ← subscript data_ 0
    status ← subscript row 2
    pure (permission_of status)

  unfoldable pub get_quantity : Text → Text → Action (World H) Text
  get_quantity group_code item_name = do
    data_ ← query exec (
        lit "SELECT quantity FROM Lists WHERE group_code ="
        ++ (group_code ++ (lit " AND item_name ='" ++ (item_name ++ lit "';"))))
    row ← subscript data_ 0
    subscript row 0

  unfoldable pub inc_item : Text → Text → Text → Action (World H) Unit
  inc_item group_code item_name inc = do
    last ← get_quantity group_code item_name
    old ← or_fail standard (stoi last)
    more ← or_fail standard (stoi inc)
    let quantity = to_string (wrap_int (old +ℤ more))
    query exec (
        lit "UPDATE Lists SET quantity = "
        ++ (quantity
            ++ (lit " WHERE group_code ="
                ++ (group_code ++ (lit " AND item_name='" ++ (item_name ++ lit "';"))))))
    pure tt

  unfoldable pub dec_item : Text → Text → Text → Action (World H) Unit
  unfolding inc_item
  dec_item group_code item_name dec = inc_item group_code item_name (lit "-" ++ dec)

  unfoldable pub add_item : Text → Text → Text → Text → Text → Action (World H) Unit
  add_item effector group_code item_name quantity remarks = do
    lock_lists
    member ← is_user_exists_in_group group_code effector
    when (not member) (do unlock_lists; throw (no_such_user_in_the_group []))
    status ← get_permission group_code effector
    when (not (is_authorized status read_write)) (do unlock_lists; throw (permission_is_denied []))
    known ← is_item_exists_in_list group_code item_name
    if known then inc_item group_code item_name quantity else do
      query exec (
          lit "INSERT INTO Lists VALUES("
          ++ (group_code
              ++ (lit ",'"
                  ++ (item_name
                      ++ (lit "'," ++ (quantity ++ (lit ",'" ++ (remarks ++ lit "');"))))))))
      pure tt
    unlock_lists

  unfoldable pub remove_item : Text → Text → Text → Action (World H) Unit
  remove_item effector group_code item_name = do
    lock_lists
    member ← is_user_exists_in_group group_code effector
    when (not member) (do unlock_lists; throw (no_such_user_in_the_group []))
    status ← get_permission group_code effector
    when (not (is_authorized status read_write)) (do unlock_lists; throw (permission_is_denied []))
    known ← is_item_exists_in_list group_code item_name
    when (not known) (do unlock_lists; throw system)
    query exec (
        lit "DELETE FROM Lists WHERE group_code ="
        ++ (group_code ++ (lit " AND item_name ='" ++ (item_name ++ lit "';"))))
    unlock_lists

  unfoldable pub update_item : Text → Text → Text → Text → Text → Text → Action (World H) Unit
  update_item effector group_code key new_name new_quantity new_remarks = do
    lock_lists
    member ← is_user_exists_in_group group_code effector
    when (not member) (do unlock_lists; throw (no_such_user_in_the_group []))
    status ← get_permission group_code effector
    when (not (is_authorized status read_write)) (do unlock_lists; throw (permission_is_denied []))
    known ← is_item_exists_in_list group_code key
    when (not known) (do unlock_lists; throw system)
    data_ ← query exec (
        lit "SELECT * FROM Lists WHERE group_code="
        ++ (group_code ++ (lit " AND item_name='" ++ (key ++ lit "';"))))
    row ← subscript data_ 0
    last_name ← subscript row 1
    last_quantity ← subscript row 2
    last_remarks ← subscript row 3
    when
        (text_eq last_name new_name
          && (text_eq last_quantity new_quantity && text_eq last_remarks new_remarks))
        (do unlock_lists; throw system)
    when (not (is_number new_quantity)) (do unlock_lists; throw system)
    amount ← or_fail standard (stoi new_quantity)
    when (not (ltb_ℤ (pos 0) amount)) (do unlock_lists; throw system)
    query exec (
        lit "UPDATE Lists SET item_name ='"
        ++ (new_name
            ++ (lit "',quantity ="
                ++ (new_quantity
                    ++ (lit ",remarks ='"
                        ++ (new_remarks
                            ++ (lit "' WHERE group_code ="
                                ++ (group_code
                                    ++ (lit " AND item_name='" ++ (key ++ lit "';"))))))))))
    unlock_lists

  unfoldable pub get_all_items_in_group : Text → Action (World H) Rows
  get_all_items_in_group group_code =
      query exec (lit "SELECT * FROM Lists WHERE group_code=" ++ (group_code ++ lit ";"))
