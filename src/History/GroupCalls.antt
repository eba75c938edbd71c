-- ===== src/History/GroupCalls.antt =====
-- The calls of PublicGroup.cpp on the tables, from whatever state of the mutex, keep the books.
use server_ilist.Prelude.{◌≡◌, refl, sym, ◌∙◌, [], true, false}
use server_ilist.Text.{Text}
use server_ilist.Exception.{Outcome, fails, deadlock}
use server_ilist.Action.{Action}
use server_ilist.Action.Commutes.{Commutes, changed}
use server_ilist.World.{World}
use server_ilist.Database.Mutex.{free}
use server_ilist.Sqlite.Schema.{Tables}
use server_ilist.Groups.Spec.{
  remove_group_on_tables, add_user_on_tables, remove_user_on_tables, set_user_status_on_tables,
}
use server_ilist.Groups.Close.{held}
use server_ilist.Session.Foreign.{IsRooted}
use server_ilist.History.Books.{IsTallied}
use server_ilist.History.Misuse.{
  misuse, in_every_state, Commutes-remove_group, Commutes-add_user, Commutes-remove_user,
  Commutes-set_user_status, remove_group-deadlock, add_user-deadlock, remove_user-deadlock,
  set_user_status-deadlock,
}
use server_ilist.History.Carries.{Settles, Carries-same}
use server_ilist.History.FreeCalls.{
  remove_group_free, add_user_free, remove_user_free, set_user_status_free,
}

waiting : (w : World Tables) → w.groups_mtx.held ≡ true → Settles w (fails deadlock, w)
waiting w held = record {
  carries = Carries-same w w refl refl;
  answered = λ open_. absurd (true_false (sym held ∙ open_));
}
  where
    true_false : true ≡ false → ⊥
    true_false e = cc e

misused_settles :
    (w : World Tables) (r : Outcome Unit × World Tables)
    → Settles w r
    → Settles (misuse w) (changed misuse r)
misused_settles w r s = record {
  carries = record {
    today = s.carries.today;
    next_code = s.carries.next_code;
    below = s.carries.below;
    tallied = s.carries.tallied;
  };
  answered = s.answered;
}

-- From a mutex that is free to one in any state.
Settles_in_every_state :
    (m : Action (World Tables) Unit)
    → Commutes misuse m
    → ((w : World Tables) → w.groups_mtx.held ≡ true → m w ≡ (fails deadlock, w))
    → ((v : World Tables) → v.groups_mtx ≡ free → IsRooted v.db → IsTallied v.db → Settles v (m v))
    → (w : World Tables) → IsRooted w.db
    → IsTallied w.db
    → Settles w (m w)
Settles_in_every_state m passes stuck carries w rooted h =
    in_every_state m Settles passes stuck waiting misused_settles w
      (λ v unlocked e. carries v unlocked (rw e rooted) (rw e h))

module _ (effector code : Text) (w : World Tables) (rooted : IsRooted w.db)
    (h : IsTallied w.db) where
  pub Settles-remove_group : Settles w (remove_group_on_tables effector code w)
  Settles-remove_group =
      Settles_in_every_state _ (Commutes-remove_group effector code)
        (remove_group-deadlock effector code)
        (λ v unlocked r t. remove_group_free effector code [] v unlocked) w rooted h

  pub Settles-add_user :
      (username status : Text) → Settles w (add_user_on_tables effector code username status w)
  Settles-add_user username status =
      Settles_in_every_state _ (Commutes-add_user effector code username status)
        (add_user-deadlock effector code username status)
        (λ v unlocked r t. add_user_free effector code username v unlocked r t status) w rooted h

  pub Settles-remove_user :
      (username : Text) → Settles w (remove_user_on_tables effector code username w)
  Settles-remove_user username =
      Settles_in_every_state _ (Commutes-remove_user effector code username)
        (remove_user-deadlock effector code username)
        (λ v unlocked r t. remove_user_free effector code username v unlocked r t) w rooted h

  pub Settles-set_user_status :
      (username status : Text)
      → Settles w (set_user_status_on_tables effector code username status w)
  Settles-set_user_status username status =
      Settles_in_every_state _ (Commutes-set_user_status effector code username status)
        (set_user_status-deadlock effector code username status)
        (λ v unlocked r t. set_user_status_free effector code username v unlocked status) w rooted h
