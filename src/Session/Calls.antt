-- ===== src/Session/Calls.antt =====
-- What each call on the tables keeps: every member and every item belongs to a group that is there.
use server_ilist.Prelude.{none, some, ℕ, not, Bool-cases, inl, inr, map, select}
use server_ilist.Text.{Text}
use server_ilist.Exception.{Exception}
use server_ilist.Action.{Action, ◌>>=◌, ◌>>◌, throw, when, modify}
use server_ilist.Action.Keeps.{
  Keeps, ◌⊳◌, Keeps-pure, Keeps-fail, Keeps-gets, Keeps-lift, Keeps-if, Keeps-when,
}
use server_ilist.World.{World}
use server_ilist.Database.{is_empty}
use server_ilist.Database.Mutex.{unlock_groups, unlock_lists}
use server_ilist.Sqlite.Schema.{Tables, is_member}
use server_ilist.Sqlite.Language.{member_row, select_member, select_member_by_code}
use server_ilist.Sqlite.Language
use server_ilist.Sqlite.Effect.{effect}
use server_ilist.Sqlite.Refines.{run}
use server_ilist.Users.{add}
use server_ilist.Users.Accounts.{register_on_tables, login_on_tables}
use server_ilist.Groups.Spec.{
  has_member, remove_group_on_tables, add_user_on_tables, remove_user_on_tables,
  set_user_status_on_tables,
}
use server_ilist.Lists.Spec.{
  has_user, inc_on_tables, add_item_on_tables, remove_item_on_tables, update_item_on_tables,
}
use server_ilist.Session.Foreign.{has_group-found}
use server_ilist.Session.Rooted.{
  effect-insert_member, effect-insert_item, effect-update_number, effect-update_number_at,
  effect-delete_member, effect-delete_item, effect-update_status, effect-update_quantity,
  effect-update_item, effect-close,
}
use server_ilist.Session.Tables.{
  OnDb, Keeps-run, Keeps-lock_groups, Keeps-unlock_groups, Keeps-lock_lists, Keeps-unlock_lists,
  Keeps-has_member, Keeps-permission_in, Keeps-number_of, Keeps-has_item, Keeps-has_user,
  Keeps-quantity_of,
}

-- After the test that the effector is a member, the group is there.
module _ (code name : Text) {m : Action (World Tables) Unit} where
  has_member-rooted :
      (e : Exception)
      → Keeps (OnDb (some code)) m
      → Keeps
          (OnDb none)
          (has_member code name >>= λ known. when (not known) (do unlock_groups; throw e) >> m)
  unfolding ◌>>=◌ has_member run Language.answer effect unlock_groups
  has_member-rooted e keeps = record {
    at = λ w h.
        let found = not (is_empty (map member_row (select (is_member code name) w.db.members))) in
        elim (Bool-cases found) [
          | inl f ↦
              rw f (keeps.at w (h, has_group-found w.db.groups code name w.db.members h.0 f)).0
          | inr f ↦ rw f h
        ];
  }

  has_user-rooted :
      (e : Exception)
      → Keeps (OnDb (some code)) m
      → Keeps
          (OnDb none)
          (has_user code name >>= λ known. when (not known) (do unlock_lists; throw e) >> m)
  unfolding ◌>>=◌ has_user run Language.answer effect unlock_lists
  has_user-rooted e keeps = record {
    at = λ w h.
        let found = not (is_empty (map member_row (select (is_member code name) w.db.members))) in
        elim (Bool-cases found) [
          | inl f ↦
              rw f (keeps.at w (h, has_group-found w.db.groups code name w.db.members h.0 f)).0
          | inr f ↦ rw f h
        ];
  }

ruleset anywhere = (
  Keeps-pure, Keeps-fail, Keeps-gets, Keeps-lift, Keeps-if, Keeps-when, ◌⊳◌, Keeps-lock_groups,
  Keeps-unlock_groups, Keeps-lock_lists, Keeps-unlock_lists, Keeps-has_member, Keeps-permission_in,
  Keeps-number_of, Keeps-has_item, Keeps-has_user, Keeps-quantity_of,
)

Keeps-update_number : (n code : Text) → Keeps (OnDb none) (run (Language.update_number n code))
Keeps-update_number n code = Keeps-run none _ (effect-update_number code n)

Keeps-delete_member :
    (code name : Text) → Keeps (OnDb none) (run (Language.delete_member code name))
Keeps-delete_member code name = Keeps-run none _ (effect-delete_member code name)

pub Keeps-remove_user :
    (effector code name : Text) → Keeps (OnDb none) (remove_user_on_tables effector code name)
unfolding remove_user_on_tables
Keeps-remove_user effector code name =
    search (anywhere, Keeps-delete_member, Keeps-update_number) depth 80 fits 4000

pub Keeps-register : (name password : Text) → Keeps (OnDb none) (register_on_tables name password)
unfolding register_on_tables effect
Keeps-register name password = Keeps-when _ (Keeps-fail _) ⊳ λ _.
    Keeps-run none (Language.select_register name) (λ t h. h) ⊳ λ _.
    Keeps-when _ (Keeps-fail _) ⊳ λ _.
    Keeps-run none (Language.insert_account name password) (λ t h. h) ⊳ λ _. Keeps-pure _

Keeps-add : (sock : ℕ) (name : Text) → Keeps (OnDb none) (modify (add {H = Tables} sock name))
unfolding ◌>>=◌ add
Keeps-add sock name = record { at = λ w h. h }

pub Keeps-login :
    (sock : ℕ) (name password : Text) → Keeps (OnDb none) (login_on_tables sock name password)
unfolding login_on_tables effect add
Keeps-login sock name password = Keeps-when _ (Keeps-fail _) ⊳ λ _.
    Keeps-run none (Language.select_login name password) (λ t h. h) ⊳ λ _.
    Keeps-when _ (Keeps-fail _) ⊳ λ _. Keeps-gets _ ⊳ λ _.
    Keeps-gets _ ⊳ λ _. Keeps-gets _ ⊳ λ _. Keeps-when _ (Keeps-fail _) ⊳ λ _. Keeps-add sock name

Keeps-close :
    (code : Text)
    → Keeps (OnDb none) (do
      run (Language.delete_group code)
      run (Language.delete_members code)
      run (Language.delete_items code)
      unlock_groups)
unfolding ◌>>=◌ run unlock_groups
Keeps-close code = record { at = λ w h. effect-close code w.db h }

pub Keeps-remove_group :
    (effector code : Text) → Keeps (OnDb none) (remove_group_on_tables effector code)
unfolding remove_group_on_tables
Keeps-remove_group effector code = search (anywhere, Keeps-close) depth 80 fits 4000

Keeps-update_status :
    (status code name : Text) → Keeps (OnDb none) (run (Language.update_status status code name))
Keeps-update_status status code name = Keeps-run none _ (effect-update_status code status name)

pub Keeps-set_user_status :
    (effector code name status : Text)
    → Keeps (OnDb none) (set_user_status_on_tables effector code name status)
unfolding set_user_status_on_tables
Keeps-set_user_status effector code name status =
    search (anywhere, Keeps-update_status) depth 80 fits 4000

Keeps-insert_member :
    (code name status : Text)
    → Keeps (OnDb (some code)) (run (Language.insert_member code name status))
Keeps-insert_member code name status =
    Keeps-run (some code) _ (effect-insert_member code name status)

Keeps-update_number_at :
    (n code : Text) → Keeps (OnDb (some code)) (run (Language.update_number n code))
Keeps-update_number_at n code = Keeps-run (some code) _ (effect-update_number_at code n)

pub Keeps-add_user :
    (effector code name status : Text)
    → Keeps (OnDb none) (add_user_on_tables effector code name status)
unfolding add_user_on_tables
Keeps-add_user effector code name status = Keeps-lock_groups none ⊳ λ _.
    has_member-rooted code effector _
      (search (anywhere, Keeps-insert_member, Keeps-update_number_at) depth 80 fits 4000)

Keeps-delete_item : (code name : Text) → Keeps (OnDb none) (run (Language.delete_item code name))
Keeps-delete_item code name = Keeps-run none _ (effect-delete_item code name)

pub Keeps-remove_item :
    (effector code item : Text) → Keeps (OnDb none) (remove_item_on_tables effector code item)
unfolding remove_item_on_tables
Keeps-remove_item effector code item = search (anywhere, Keeps-delete_item) depth 80 fits 4000

Keeps-update_row :
    (name quantity remarks code key : Text)
    → Keeps (OnDb none) (run (Language.update_item name quantity remarks code key))
Keeps-update_row name quantity remarks code key =
    Keeps-run none _ (effect-update_item code name quantity remarks key)

Keeps-select_item : (code key : Text) → Keeps (OnDb none) (run (Language.select_item code key))
unfolding effect
Keeps-select_item code key = Keeps-run none _ (λ t h. h)

pub Keeps-update_item :
    (effector code key name quantity remarks : Text)
    → Keeps (OnDb none) (update_item_on_tables effector code key name quantity remarks)
unfolding update_item_on_tables
Keeps-update_item effector code key name quantity remarks =
    search (anywhere, Keeps-select_item, Keeps-update_row) depth 80 fits 4000

Keeps-insert_item :
    (code item quantity remarks : Text)
    → Keeps (OnDb (some code)) (run (Language.insert_item code item quantity remarks))
Keeps-insert_item code item quantity remarks =
    Keeps-run (some code) _ (effect-insert_item code item quantity remarks)

Keeps-update_quantity :
    (quantity code item : Text)
    → Keeps (OnDb (some code)) (run (Language.update_quantity quantity code item))
unfolding effect
Keeps-update_quantity quantity code item =
    Keeps-run (some code) _ (λ t (h, here). (effect-update_quantity code quantity item t h, here))

pub Keeps-add_item :
    (effector code item quantity remarks : Text)
    → Keeps (OnDb none) (add_item_on_tables effector code item quantity remarks)
unfolding add_item_on_tables inc_on_tables
Keeps-add_item effector code item quantity remarks = Keeps-lock_lists none ⊳ λ _.
    has_user-rooted code effector _
      (search (anywhere, Keeps-insert_item, Keeps-update_quantity) depth 80 fits 4000)
