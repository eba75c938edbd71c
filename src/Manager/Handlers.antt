-- ===== src/Manager/Handlers.antt =====
-- ServerIList/Manager.cpp: the cases of `code_handler`, and the guard before its switch.
use server_ilist.Prelude.{
  ℕ, not, ◌&&◌, List, [], ◌∷◌, ◌++◌, ℤ, pos, eq_ℤ, length, get_or, take, drop, ◌==◌, if◌then◌else◌,
}
use server_ilist.Text.{Text, lit, text_eq}
use server_ilist.Exception.{wrong_arguments_number, wrong_username, user_is_offline}
use server_ilist.Action.{Action, pure, throw, lift, gets, subscript, when, ◌>>=◌, ◌>>◌}
use server_ilist.Config.{
  en_register, en_login, en_logout, gr_group_list, gr_create_group, gr_remove_user, gr_close_group,
  gr_set_status, gr_invite_user, lst_add_item, lst_remove_item, lst_set_item, re_restore,
  pgm_scc_login, pgm_scc_register, pgm_scc_acte_created, pgm_get_groups_list, pgm_ctr_new_user,
  pgm_ctr_status_changed, pgm_ctr_group_closed, pgm_ctr_user_leave, lst_scc_add_item,
  lst_scc_remove_item, lst_scc_set_item,
}
use server_ilist.Parser.{Parser, parse}
use server_ilist.World.{World, Message, Rows}
use server_ilist.Messages.{get_message, get_socket}
use server_ilist.Database.{Engine}
use server_ilist.Users
use server_ilist.Groups
use server_ilist.Lists
use server_ilist.Restore
use server_ilist.Server
use server_ilist.Manager.{make_receive_text, make_receive, make_receive_rows, try_send, send_to_all}

abbrev arg : List Text → ℕ → Text
arg args i = get_or args i []

-- `if (args.size() != n) throw WrongArgumentsNumberException();`
abbrev need : {H : Type 0} → ℕ → List Text → Action (World H) Unit
need n args = when (not (length args == n)) (throw wrong_arguments_number)

module _ {H : Type 0} (exec : Engine H) where
  -- `case EN_REGISTER`
  unfoldable pub on_register : ℕ → List Text → Action (World H) Unit
  on_register sock args = do
    need 2 args
    Users.register exec (arg args 0) (arg args 1)
    Server.send_message sock (make_receive_text pgm_scc_register (lit ""))

  -- `case EN_LOGIN`
  unfoldable pub on_login : ℕ → List Text → Action (World H) Unit
  on_login sock args = do
    need 2 args
    Users.login exec sock (arg args 0) (arg args 1)
    try_send exec (arg args 0) (make_receive_text pgm_scc_login (lit ""))

  -- `case EN_LOGOUT`
  unfoldable pub on_logout : ℕ → List Text → Action (World H) Unit
  on_logout sock args = do need 0 args; Users.logout sock

  -- `case GR_CREATE_GROUP`
  unfoldable pub on_create_group : ℕ → Text → List Text → Action (World H) Unit
  on_create_group sock admin args = do
    need 1 args
    res ← Groups.create_group exec (arg args 0) admin
    Server.send_message sock (make_receive_text pgm_scc_acte_created res)

  -- `case GR_GROUP_LIST`
  unfoldable pub on_group_list : ℕ → Text → List Text → Action (World H) Unit
  on_group_list sock username args = do
    need 0 args
    data_ ← Groups.get_all_groups_of_user exec username
    receive ← make_receive_rows pgm_get_groups_list data_
    Server.send_message sock receive

  -- The current members of the group, each in a message to the new one.
  unfoldable pub send_members : Text → Rows → Action (World H) Unit
  send_members username [] w = pure tt w
  send_members username (user ∷ users) w =
      (do
        name ← subscript user 1
        when (not (text_eq username name))
            (try_send exec username (make_receive pgm_ctr_new_user user))
        send_members username users)
        w

  -- The current items of the group, each in a message to the new member.
  unfoldable pub send_items : Text → Rows → Action (World H) Unit
  send_items username [] w = pure tt w
  send_items username (item ∷ items) w =
      (do try_send exec username (make_receive lst_scc_add_item item); send_items username items) w

  -- `case GR_INVITE_USER`
  unfoldable pub on_invite_user : Text → List Text → Action (World H) Unit
  unfolding send_members send_items
  on_invite_user username args = do
    need 3 args
    exists ← Users.is_exist exec (arg args 1)
    when (not exists) (throw wrong_username)
    Groups.add_user exec username (arg args 0) (arg args 1) (arg args 2)
    name ← Groups.get_group_name exec (arg args 0)
    let args' = take 1 args ++ name ∷ drop 1 args
    data_ ← Groups.get_all_users_in_group exec (arg args' 0)
    send_to_all exec data_ (make_receive pgm_ctr_new_user args')
    send_members (arg args' 2) data_
    items ← Lists.get_all_items_in_group exec (arg args' 0)
    send_items (arg args' 2) items

  -- `case GR_REMOVE_USER`: the last message goes to `args[0]`, which is the group's code.
  unfoldable pub on_remove_user : Text → List Text → Action (World H) Unit
  on_remove_user username args = do
    need 2 args
    exists ← Users.is_exist exec (arg args 1)
    when (not exists) (throw wrong_username)
    Groups.remove_user exec username (arg args 0) (arg args 1)
    data_ ← Groups.get_all_users_in_group exec (arg args 0)
    send_to_all exec data_ (make_receive pgm_ctr_user_leave args)
    try_send exec (arg args 0) (make_receive pgm_ctr_user_leave args)

  -- `case GR_SET_STATUS`
  unfoldable pub on_set_status : Text → List Text → Action (World H) Unit
  on_set_status username args = do
    need 3 args
    exists ← Users.is_exist exec (arg args 1)
    when (not exists) (throw wrong_username)
    Groups.set_user_status exec username (arg args 0) (arg args 1) (arg args 2)
    data_ ← Groups.get_all_users_in_group exec (arg args 0)
    send_to_all exec data_ (make_receive pgm_ctr_status_changed args)

  -- `case GR_CLOSE_GROUP`
  unfoldable pub on_close_group : Text → List Text → Action (World H) Unit
  on_close_group username args = do
    need 1 args
    data_ ← Groups.get_all_users_in_group exec (arg args 0)
    Groups.remove_group exec username (arg args 0)
    send_to_all exec data_ (make_receive pgm_ctr_group_closed args)

  -- `case LST_ADD_ITEM`
  unfoldable pub on_add_item : Text → List Text → Action (World H) Unit
  on_add_item username args = do
    need 4 args
    Lists.add_item exec username (arg args 0) (arg args 1) (arg args 2) (arg args 3)
    data_ ← Groups.get_all_users_in_group exec (arg args 0)
    send_to_all exec data_ (make_receive lst_scc_add_item args)

  -- `case LST_REMOVE_ITEM`
  unfoldable pub on_remove_item : Text → List Text → Action (World H) Unit
  on_remove_item username args = do
    need 2 args
    Lists.remove_item exec username (arg args 0) (arg args 1)
    data_ ← Groups.get_all_users_in_group exec (arg args 0)
    send_to_all exec data_ (make_receive lst_scc_remove_item args)

  -- `case LST_SET_ITEM`
  unfoldable pub on_set_item : Text → List Text → Action (World H) Unit
  on_set_item username args = do
    need 5 args
    Lists.update_item exec username (arg args 0) (arg args 1) (arg args 2) (arg args 3) (arg args 4)
    data_ ← Groups.get_all_users_in_group exec (arg args 0)
    send_to_all exec data_ (make_receive lst_scc_set_item args)

  -- `case RE_RESTORE`
  unfoldable pub on_restore : Text → List Text → Action (World H) Unit
  on_restore username args = do
    need 0 args
    receive ← Restore.build_restore_message exec username
    try_send exec username receive

  -- The `switch`; a code without a case does nothing.
  unfoldable pub switch : ℤ → ℕ → Text → List Text → Action (World H) Unit
  switch code sock username args =
      if eq_ℤ code (pos en_register)
      then on_register sock args
      else if eq_ℤ code (pos en_login)
      then on_login sock args
      else if eq_ℤ code (pos en_logout)
      then on_logout sock args
      else if eq_ℤ code (pos gr_create_group)
      then on_create_group sock username args
      else if eq_ℤ code (pos gr_group_list)
      then on_group_list sock username args
      else if eq_ℤ code (pos gr_invite_user)
      then on_invite_user username args
      else if eq_ℤ code (pos gr_remove_user)
      then on_remove_user username args
      else if eq_ℤ code (pos gr_set_status)
      then on_set_status username args
      else if eq_ℤ code (pos gr_close_group)
      then on_close_group username args
      else if eq_ℤ code (pos lst_add_item)
      then on_add_item username args
      else if eq_ℤ code (pos lst_remove_item)
      then on_remove_item username args
      else if eq_ℤ code (pos lst_set_item)
      then on_set_item username args
      else if eq_ℤ code (pos re_restore)
      then on_restore username args
      else pure tt

  -- `code_handler` after the parser: the guard, `getUsername` and the switch.
  unfoldable pub handle_parsed : ℕ → Parser → Action (World H) Unit
  handle_parsed sock p = do
    here ← gets (Users.is_login sock)
    when
        (not here
          && (not (eq_ℤ p.msg_code (pos en_register)) && not (eq_ℤ p.msg_code (pos en_login))))
        (throw user_is_offline)
    username ← Users.get_username sock
    switch p.msg_code sock username p.args

  -- `code_handler`
  unfoldable pub code_handler : Message → Action (World H) Unit
  code_handler msg = do p ← lift (parse (get_message msg)); handle_parsed (get_socket msg) p
