-- ===== src/Session/Tables.antt =====
-- What the statements inside a call on tables keep of the tables.
use server_ilist.Prelude.{◌≡◌, sym, subst, Option, none, some, arith}
use server_ilist.Text.{Text}
use server_ilist.Action.Keeps.{Keeps, ◌⊳◌, Keeps-pure, Keeps-lift}
use server_ilist.World.{World}
use server_ilist.Database.Mutex.{lock_groups, unlock_groups, lock_lists, unlock_lists}
use server_ilist.Sqlite.Schema.{Tables}
use server_ilist.Sqlite.Language.{
  select_member, select_number, select_item_key, select_member_by_code, select_quantity, Statement,
}
use server_ilist.Sqlite.Effect.{effect}
use server_ilist.Groups.Spec.{has_member, permission_in, number_of}
use server_ilist.Lists.Spec.{has_item, has_user, quantity_of}
use server_ilist.Sqlite.Refines.{run}
use server_ilist.Session.Foreign.{IsRooted, IsRootedAt}

pub lock_groups-db : (w : World Tables) → (lock_groups w).1.db ≡ w.db
unfolding lock_groups
lock_groups-db w = ground arith

pub lock_lists-db : (w : World Tables) → (lock_lists w).1.db ≡ w.db
unfolding lock_lists
lock_lists-db w = ground arith

-- Every member and every item has its group; and so has a code, when one is given.
abbrev pub IsRootedFor : Option Text → Tables → Type 0
IsRootedFor none t = IsRooted t
IsRootedFor (some code) t = IsRootedAt code t

abbrev pub OnDb : Option Text → World Tables → Type 0
OnDb at w = IsRootedFor at w.db

module _ (at : Option Text) where
  pub Keeps-run :
      (st : Statement)
      → ((t : Tables) → IsRootedFor at t → IsRootedFor at (effect st t))
      → Keeps (OnDb at) (run st)
  unfolding run
  Keeps-run st h = record { at = λ w p. h w.db p }

  pub Keeps-lock_groups : Keeps (OnDb at) lock_groups
  Keeps-lock_groups = record { at = λ w p. subst (IsRootedFor at) (sym (lock_groups-db w)) p }

  pub Keeps-unlock_groups : Keeps (OnDb at) unlock_groups
  unfolding unlock_groups
  Keeps-unlock_groups = record { at = λ w p. p }

  pub Keeps-lock_lists : Keeps (OnDb at) lock_lists
  Keeps-lock_lists = record { at = λ w p. subst (IsRootedFor at) (sym (lock_lists-db w)) p }

  pub Keeps-unlock_lists : Keeps (OnDb at) unlock_lists
  unfolding unlock_lists
  Keeps-unlock_lists = record { at = λ w p. p }

  pub Keeps-has_member : (code name : Text) → Keeps (OnDb at) (has_member code name)
  unfolding has_member effect
  Keeps-has_member code name = Keeps-run (select_member name code) (λ t p. p) ⊳ λ rows. Keeps-pure _

  pub Keeps-permission_in : (code name : Text) → Keeps (OnDb at) (permission_in code name)
  unfolding permission_in effect
  Keeps-permission_in code name = Keeps-run (select_member name code) (λ t p. p) ⊳ λ rows.
      Keeps-lift _ ⊳ λ row. Keeps-lift _ ⊳ λ status. Keeps-pure _

  pub Keeps-number_of : (code : Text) → Keeps (OnDb at) (number_of code)
  unfolding number_of effect
  Keeps-number_of code = Keeps-run (select_number code) (λ t p. p) ⊳ λ rows.
      Keeps-lift _ ⊳ λ row. Keeps-lift _ ⊳ λ value. Keeps-lift _

  pub Keeps-has_item : (code name : Text) → Keeps (OnDb at) (has_item code name)
  unfolding has_item effect
  Keeps-has_item code name = Keeps-run (select_item_key code name) (λ t p. p) ⊳ λ rows. Keeps-pure _

  pub Keeps-has_user : (code name : Text) → Keeps (OnDb at) (has_user code name)
  unfolding has_user effect
  Keeps-has_user code name =
      Keeps-run (select_member_by_code code name) (λ t p. p) ⊳ λ rows. Keeps-pure _

  pub Keeps-quantity_of : (code name : Text) → Keeps (OnDb at) (quantity_of code name)
  unfolding quantity_of effect
  Keeps-quantity_of code name =
      Keeps-run (select_quantity code name) (λ t p. p) ⊳ λ rows. Keeps-lift _ ⊳ λ row. Keeps-lift _
