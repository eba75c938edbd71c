-- ===== src/History/OtherCalls.antt =====
-- The calls of Users.cpp and PublicLists.cpp leave groups and members as they are.
use server_ilist.Prelude.{refl, sym, ap, ◌∙◌, List, ℕ}
use server_ilist.Text.{Text}
use server_ilist.Action.{Action}
use server_ilist.Action.Keeps.{Keeps}
use server_ilist.World.{World}
use server_ilist.Sqlite.Schema.{Tables, Group, Member, has_code, find}
use server_ilist.Users.Accounts.{register_on_tables, login_on_tables}
use server_ilist.Groups.Spec.{permission_in}
use server_ilist.Lists.Spec.{
  has_item, has_user, quantity_of, inc_on_tables, add_item_on_tables, remove_item_on_tables,
  update_item_on_tables,
}
use server_ilist.Session.{
  Call, register, login, remove_group, add_user, remove_user, set_user_status, add_item,
  remove_item, update_item,
}
use server_ilist.Session.Refinement.{on_tables}
use server_ilist.Session.Foreign.{IsRooted}
use server_ilist.Groups.Counting.{count_of, rows_of}
use server_ilist.History.Alike.{IsCounted-Alike}
use server_ilist.History.Carries.{Carries}
use server_ilist.History.GroupCalls.{
  Settles-remove_group, Settles-add_user, Settles-remove_user, Settles-set_user_status,
}
use server_ilist.History.Books.{IsTallied}
use server_ilist.History.Shows.{elsewhere, Shows}

module _ (gs : List Group) (ms : List Member) (n : ℕ) (d : Text) where
  Shows-register :
      (name password : Text) → Keeps (Shows gs ms n d) (register_on_tables name password)
  unfolding register_on_tables
  Shows-register name password = search elsewhere depth 80 fits 4000

  Shows-login :
      (sock : ℕ) (name password : Text)
      → Keeps (Shows gs ms n d) (login_on_tables sock name password)
  unfolding login_on_tables
  Shows-login sock name password = search elsewhere depth 80 fits 4000

  Shows-add_item :
      (effector code item quantity remarks : Text)
      → Keeps (Shows gs ms n d) (add_item_on_tables effector code item quantity remarks)
  unfolding add_item_on_tables inc_on_tables has_user permission_in has_item quantity_of
  Shows-add_item effector code item quantity remarks = search elsewhere depth 80 fits 4000

  Shows-remove_item :
      (effector code item : Text)
      → Keeps (Shows gs ms n d) (remove_item_on_tables effector code item)
  unfolding remove_item_on_tables has_user permission_in has_item quantity_of
  Shows-remove_item effector code item = search elsewhere depth 80 fits 4000

  Shows-update_item :
      (effector code key name quantity remarks : Text)
      → Keeps (Shows gs ms n d) (update_item_on_tables effector code key name quantity remarks)
  unfolding update_item_on_tables has_user permission_in has_item quantity_of
  Shows-update_item effector code key name quantity remarks = search elsewhere depth 80 fits 4000

module _ (w w' : World Tables) where
  Carries-Shows : Shows w.db.groups w.db.members w.db.next_code w.today w' → Carries w w'
  Carries-Shows s = record {
    today = s.same_day;
    next_code = s.same_code;
    below = λ h. rw (s.same_groups, s.same_code) h;
    tallied = λ r h. record {
      at = λ code g e.
          IsCounted-Alike code w.db w'.db
            (record {
              groups = ap (find (has_code code)) s.same_groups;
              counts = ap (count_of code) s.same_members;
              rows = λ username. ap (rows_of code username) s.same_members;
            })
            (h.at code g (sym (ap (find (has_code code)) s.same_groups) ∙ e));
    };
  }

module _ {m : Action (World Tables) Unit}
    (k : (gs : List Group) (ms : List Member) (n : ℕ) (d : Text) → Keeps (Shows gs ms n d) m) where
  Carries-kept : (w : World Tables) → Carries w (m w).1
  Carries-kept w = Carries-Shows w (m w).1 (
      (k w.db.groups w.db.members w.db.next_code w.today).at w
        (record { same_groups = refl; same_members = refl; same_code = refl; same_day = refl }))

-- Every call on the tables.
pub Carries-on_tables :
    (c : Call) (w : World Tables) → IsRooted w.db → IsTallied w.db → Carries w (on_tables c w).1
Carries-on_tables (register name password) w r t =
    Carries-kept (λ gs ms n d. Shows-register gs ms n d name password) w
Carries-on_tables (login sock name password) w r t =
    Carries-kept (λ gs ms n d. Shows-login gs ms n d sock name password) w
Carries-on_tables (remove_group effector code) w r t =
    (Settles-remove_group effector code w r t).carries
Carries-on_tables (add_user effector code name status) w r t =
    (Settles-add_user effector code w r t name status).carries
Carries-on_tables (remove_user effector code name) w r t =
    (Settles-remove_user effector code w r t name).carries
Carries-on_tables (set_user_status effector code name status) w r t =
    (Settles-set_user_status effector code w r t name status).carries
Carries-on_tables (add_item effector code item quantity remarks) w r t =
    Carries-kept (λ gs ms n d. Shows-add_item gs ms n d effector code item quantity remarks) w
Carries-on_tables (remove_item effector code item) w r t =
    Carries-kept (λ gs ms n d. Shows-remove_item gs ms n d effector code item) w
Carries-on_tables (update_item effector code key name quantity remarks) w r t =
    Carries-kept (λ gs ms n d. Shows-update_item gs ms n d effector code key name quantity remarks)
      w
