-- ===== src/Restore/Frame.antt =====
-- Building the restore message (`buildRestoreMessage` of ServerIList/Restore.cpp) changes nothing but
-- the database and the cursors.
use server_ilist.Prelude.{ℕ, zero, suc, ◌≡◌, Bool, List}
use server_ilist.Text.{Text}
use server_ilist.Action.Keeps.{
  Keeps, ◌⊳◌, Keeps-pure, Keeps-fail, Keeps-gets, Keeps-lift, Keeps-if, Keeps-when, Keeps-while,
}
use server_ilist.World.{World, Cursors, Mutex, Server}
use server_ilist.Database.{Engine, query}
use server_ilist.Restore
use server_ilist.Action.{◌>>=◌}

-- The state but for the database and the cursors.
abbrev pub Rest : Type 0
Rest = List (ℕ × Text) × List (Text × ℕ) × Mutex × Mutex × Server × List Bool × Text

abbrev pub rest_of : {H : Type 0} → World H → Rest
rest_of w = (
  w.online_users, w.online_users_opposite, w.groups_mtx, w.lists_mtx, w.server, w.threads, w.today,
)

abbrev pub HasRest : {H : Type 0} → Rest → World H → Type 0
HasRest kept w = rest_of w ≡ kept

module _ {H : Type 0} (exec : Engine H) (kept : Rest) where
  Keeps-query : (sql : Text) → Keeps (HasRest kept) (query exec sql)
  unfolding query
  Keeps-query sql = record { at = λ w h. h }

  ruleset rules =
      (Keeps-pure, Keeps-fail, Keeps-gets, Keeps-lift, Keeps-if, Keeps-when, ◌⊳◌, Keeps-query)

  Keeps-set_cursors :
      (f : Cursors → Cursors) → Keeps {S = World H} (HasRest kept) (Restore.set_cursors f)
  unfolding ◌>>=◌
  Keeps-set_cursors f = record { at = λ w h. h }

  Keeps-get_next_user : Keeps {S = World H} (HasRest kept) Restore.get_next_user
  unfolding Restore.get_next_user
  Keeps-get_next_user = search (rules, Keeps-set_cursors) depth 80 fits 4000

  Keeps-get_next_item : Keeps {S = World H} (HasRest kept) Restore.get_next_item
  unfolding Restore.get_next_item
  Keeps-get_next_item = search (rules, Keeps-set_cursors) depth 80 fits 4000

  Keeps-users_loop :
      (fuel : ℕ) (ret : Text) → Keeps {S = World H} (HasRest kept) (Restore.users_loop fuel ret)
  unfolding Restore.users_loop
  Keeps-users_loop zero ret = Keeps-pure ret
  Keeps-users_loop (suc fuel) ret =
      Keeps-while Restore.eof_users (Keeps-pure ret)
        (Keeps-get_next_user ⊳ λ user. Keeps-users_loop fuel _)

  Keeps-items_loop :
      (fuel : ℕ) (ret : Text) → Keeps {S = World H} (HasRest kept) (Restore.items_loop fuel ret)
  unfolding Restore.items_loop
  Keeps-items_loop zero ret = Keeps-pure ret
  Keeps-items_loop (suc fuel) ret =
      Keeps-while Restore.eof_items (Keeps-pure ret)
        (Keeps-get_next_item ⊳ λ item. Keeps-items_loop fuel _)

  Keeps-group_round : (ret : Text) → Keeps (HasRest kept) (Restore.group_round exec ret)
  unfolding Restore.group_round Restore.get_next_group Restore.find_users_in_group
      Restore.find_items_in_group
  Keeps-group_round ret =
      search (rules, Keeps-set_cursors, Keeps-users_loop, Keeps-items_loop) depth 80 fits 4000

  Keeps-groups_loop :
      (fuel : ℕ) (ret : Text) → Keeps (HasRest kept) (Restore.groups_loop exec fuel ret)
  unfolding Restore.groups_loop
  Keeps-groups_loop zero ret = Keeps-pure ret
  Keeps-groups_loop (suc fuel) ret =
      Keeps-while Restore.eof_groups (Keeps-pure ret)
        (Keeps-group_round ret ⊳ λ next. Keeps-groups_loop fuel next)

  pub build_restore_message-HasRest :
      (name : Text) → Keeps (HasRest kept) (Restore.build_restore_message exec name)
  unfolding Restore.build_restore_message Restore.find_groups_of_user
  build_restore_message-HasRest name =
      search (rules, Keeps-set_cursors, Keeps-groups_loop) depth 80 fits 4000
