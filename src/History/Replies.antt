-- ===== src/History/Replies.antt =====
-- Each call of PublicGroup.cpp and of Users.cpp is answered, when the mutex is not held.
use server_ilist.Prelude.{not, ℕ, ◌≡◌, refl, Bool, true, false, ◌&&◌, arith}
use server_ilist.Text.{Text}
use server_ilist.Exception.{Outcome}
use server_ilist.World.{World}
use server_ilist.Sqlite.Schema.{Tables}
use server_ilist.Users.{add}
use server_ilist.Users.Accounts.{
  register_on_tables, login_on_tables, registered, logged_in, register-tables, login-tables,
}
use server_ilist.Session.{
  Call, register, login, remove_group, add_user, remove_user, set_user_status, add_item,
  remove_item, update_item,
}
use server_ilist.Session.Refinement.{on_tables}
use server_ilist.History.{Event, create, call}
use server_ilist.History.Books.{IsConsistent}
use server_ilist.History.Carries.{is_answered, Settles}
use server_ilist.History.GroupCalls.{
  Settles-remove_group, Settles-add_user, Settles-remove_user, Settles-set_user_status,
}

-- Is this a call of PublicLists?
abbrev pub is_list_call : Call → Bool
is_list_call (add_item effector code item quantity remarks) = true
is_list_call (remove_item effector code item) = true
is_list_call (update_item effector code key name quantity remarks) = true
is_list_call (register name password) = false
is_list_call (login sock name password) = false
is_list_call (remove_group effector code) = false
is_list_call (add_user effector code name status) = false
is_list_call (remove_user effector code name) = false
is_list_call (set_user_status effector code name status) = false

abbrev pub spares_lists : Event → Bool
spares_lists (create name admin) = true
spares_lists (call c) = not (is_list_call c)

-- The outcome is an answer, and the mutex of the groups is open.
abbrev pub leaves_open : {A : Type 0} → Outcome A × World Tables → Bool
leaves_open r = is_answered r.0 && not r.1.groups_mtx.held

module _ (name password : Text) (w : World Tables) (unlocked : w.groups_mtx.held ≡ false) where
  pub register_answers : leaves_open (register_on_tables name password w) ≡ true
  unfolding registered
  register_answers = rw (register-tables name password w) (ground arith)

  pub login_answers : (sock : ℕ) → leaves_open (login_on_tables sock name password w) ≡ true
  unfolding logged_in add
  login_answers sock = rw (login-tables name password w sock) (ground arith)

pub settled_answers :
    (w : World Tables) (r : Outcome Unit × World Tables)
    → Settles w r
    → w.groups_mtx.held ≡ false
    → leaves_open r ≡ true
settled_answers w r s unlocked =
    let (answer, unheld) = s.answered unlocked in rw (answer, unheld) refl

pub call_answers :
    (c : Call) (w : World Tables)
    → is_list_call c ≡ false
    → IsConsistent w.db
    → w.groups_mtx.held ≡ false
    → leaves_open (on_tables c w) ≡ true
call_answers (register name password) w q h = register_answers name password w
call_answers (login sock name password) w q h =
    λ unlocked. login_answers name password w unlocked sock
call_answers (remove_group effector code) w q h =
    settled_answers w _ (Settles-remove_group effector code w h.rooted h.tallied)
call_answers (add_user effector code name status) w q h =
    settled_answers w _ (Settles-add_user effector code w h.rooted h.tallied name status)
call_answers (remove_user effector code name) w q h =
    settled_answers w _ (Settles-remove_user effector code w h.rooted h.tallied name)
call_answers (set_user_status effector code name status) w q h =
    settled_answers w _ (Settles-set_user_status effector code w h.rooted h.tallied name status)
call_answers (add_item effector code item quantity remarks) w q h = absurd (cc q)
call_answers (remove_item effector code item) w q h = absurd (cc q)
call_answers (update_item effector code key name quantity remarks) w q h = absurd (cc q)
