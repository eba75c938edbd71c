-- ===== src/Restore.antt =====
-- ServerIList/Restore.cpp: the message that gives a client all of its groups, members and items.
pub mod Loops
pub mod Rendering
pub mod Round
pub mod Build
pub mod Frame
use server_ilist.Prelude.{ℕ, zero, suc, ◌+◌, Bool, ◌++◌, length, drop_last, ◌==◌, if◌then◌else◌}
use server_ilist.Text.{Text, lit}
use server_ilist.Action.{Action, pure, gets, modify, subscript, ◌>>=◌, ◌>>◌}
use server_ilist.World.{World, Cursors}
use server_ilist.Database.{Engine, query}

pub record GroupData : Type 0 where
  pub code : Text
  pub name : Text

pub record UserData : Type 0 where
  pub name : Text
  pub status : Text

pub record ItemData : Type 0 where
  pub name : Text
  pub quantity : Text
  pub remarks : Text

-- `removeLastChar` of a text that is not empty.
abbrev pub remove_last_char : Text → Text
remove_last_char st = drop_last st

module _ {H : Type 0} where
  abbrev pub set_cursors : (Cursors → Cursors) → Action (World H) Unit
  set_cursors f = modify (λ w. record w { restore = f w.restore })

  abbrev pub eof_groups : World H → Bool
  eof_groups w = length w.restore.m_groups == w.restore.m_index_g

  abbrev pub eof_users : World H → Bool
  eof_users w = length w.restore.m_users == w.restore.m_index_u

  abbrev pub eof_items : World H → Bool
  eof_items w = length w.restore.m_items == w.restore.m_index_i

  unfoldable pub get_next_user : Action (World H) UserData
  get_next_user = do
    c ← gets (λ w. w.restore)
    row ← subscript c.m_users c.m_index_u
    name ← subscript row 0
    status ← subscript row 1
    set_cursors (λ r. record r { m_index_u = r.m_index_u + 1 })
    pure (record { name = name; status = status })

  unfoldable pub get_next_item : Action (World H) ItemData
  get_next_item = do
    c ← gets (λ w. w.restore)
    row ← subscript c.m_items c.m_index_i
    name ← subscript row 0
    quantity ← subscript row 1
    remarks ← subscript row 2
    set_cursors (λ r. record r { m_index_i = r.m_index_i + 1 })
    pure (record { name = name; quantity = quantity; remarks = remarks })

  -- The loop over the users of a group. The fuel is the number of rows: each round takes one.
  unfoldable pub users_loop : ℕ → Text → Action (World H) Text
  unfolding get_next_user
  users_loop zero ret w = pure ret w
  users_loop (suc fuel) ret w =
      if eof_users w
      then (pure ret w)
      else ((do
        user ← get_next_user
        users_loop fuel (ret ++ (user.name ++ (lit ":" ++ (user.status ++ lit "-")))))
          w)

  -- The loop over the items of a group.
  unfoldable pub items_loop : ℕ → Text → Action (World H) Text
  unfolding get_next_item
  items_loop zero ret w = pure ret w
  items_loop (suc fuel) ret w =
      if eof_items w
      then (pure ret w)
      else ((do
        item ← get_next_item
        items_loop fuel (
            ret
            ++ (item.name
                ++ (lit ":" ++ (item.quantity ++ (lit ":" ++ (item.remarks ++ lit "-")))))))
          w)

module _ {H : Type 0} (exec : Engine H) where
  unfoldable pub find_groups_of_user : Text → Action (World H) Unit
  find_groups_of_user username = do
    rows ←
        query exec
          (lit "SELECT group_code FROM Users_In_Groups WHERE username='" ++ (username ++ lit "';"))
    set_cursors (λ r. record r { m_groups = rows; m_index_g = 0 })

  unfoldable pub find_users_in_group : Text → Action (World H) Unit
  find_users_in_group group_code = do
    rows ← query exec (
        lit "SELECT username,status FROM Users_In_Groups WHERE group_code="
        ++ (group_code ++ lit ";"))
    set_cursors (λ r. record r { m_users = rows; m_index_u = 0 })

  unfoldable pub find_items_in_group : Text → Action (World H) Unit
  find_items_in_group group_code = do
    rows ← query exec (
        lit "SELECT item_name,quantity,remarks FROM Lists WHERE group_code="
        ++ (group_code ++ lit ";"))
    set_cursors (λ r. record r { m_items = rows; m_index_i = 0 })

  unfoldable pub get_next_group : Action (World H) GroupData
  get_next_group = do
    c ← gets (λ w. w.restore)
    row ← subscript c.m_groups c.m_index_g
    group_code ← subscript row 0
    data_ ←
        query exec (lit "SELECT code,name FROM PublicGroups WHERE code=" ++ (group_code ++ lit ";"))
    found ← subscript data_ 0
    name ← subscript found 1
    set_cursors (λ r. record r { m_index_g = r.m_index_g + 1 })
    pure (record { code = group_code; name = name })

  -- One round of the loop over the groups: the text that it adds to `ret`.
  unfoldable pub group_round : Text → Action (World H) Text
  unfolding get_next_group find_users_in_group find_items_in_group users_loop items_loop
  group_round ret = do
    group ← get_next_group
    find_users_in_group group.code
    users ← gets (λ w. length w.restore.m_users)
    with_users ← users_loop users (ret ++ (group.code ++ (lit "," ++ (group.name ++ lit ","))))
    find_items_in_group group.code
    items ← gets (λ w. length w.restore.m_items)
    with_items ← items_loop items (remove_last_char with_users ++ lit ",")
    pure (remove_last_char with_items ++ lit "|")

  -- The loop over the groups, with one round for each row.
  unfoldable pub groups_loop : ℕ → Text → Action (World H) Text
  unfolding group_round
  groups_loop zero ret w = pure ret w
  groups_loop (suc fuel) ret w =
      if eof_groups w then (pure ret w) else ((do next ← group_round ret; groups_loop fuel next) w)

  unfoldable pub build_restore_message : Text → Action (World H) Text
  unfolding find_groups_of_user groups_loop
  build_restore_message username = do
    find_groups_of_user username
    groups ← gets (λ w. length w.restore.m_groups)
    ret ← groups_loop groups (lit "@400|")
    pure (ret ++ lit "|")
