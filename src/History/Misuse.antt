-- ===== src/History/Misuse.antt =====
-- No call asks whether a mutex was misused: `std::mutex` has no such question. What a call does to
-- the tables is therefore known from what it does when the mutex was always used well.
use server_ilist.Prelude.{◌≡◌, refl, Bool, true, false, Bool-cases, inl, inr, subst, sym, arith}
use server_ilist.Text.{Text}
use server_ilist.Exception.{Outcome, fails, deadlock}
use server_ilist.Action.{Action, ◌>>=◌}
use server_ilist.Action.Commutes.{
  Commutes, ◌⊳◌, Commutes-pure, Commutes-fail, Commutes-lift, Commutes-if, Commutes-when, changed,
}
use server_ilist.World.{World}
use server_ilist.Database.Mutex.{lock_groups, unlock_groups, free}
use server_ilist.Sqlite.Schema.{Tables}
use server_ilist.Sqlite.Language.{Statement}
use server_ilist.Sqlite.Refines.{run}
use server_ilist.Groups.Spec.{
  has_member, permission_in, number_of, remove_group_on_tables, add_user_on_tables,
  remove_user_on_tables, set_user_status_on_tables,
}

-- The same, after the groups' mutex was misused.
abbrev pub misuse : World Tables → World Tables
misuse w = record w { groups_mtx = record { held = w.groups_mtx.held; misused = true } }

Commutes-lock : Commutes misuse lock_groups
unfolding lock_groups
Commutes-lock = record { at = λ w. ground arith }

Commutes-unlock : Commutes misuse unlock_groups
unfolding unlock_groups
Commutes-unlock = record { at = λ w. ground arith }

Commutes-run : (st : Statement) → Commutes misuse (run st)
unfolding run
Commutes-run st = record { at = λ w. refl }

ruleset passing = (
  Commutes-pure, Commutes-fail, Commutes-lift, Commutes-if, Commutes-when, ◌⊳◌, Commutes-lock,
  Commutes-unlock, Commutes-run,
)

pub Commutes-remove_group :
    (effector code : Text) → Commutes misuse (remove_group_on_tables effector code)
unfolding remove_group_on_tables has_member permission_in
Commutes-remove_group effector code = search passing depth 80 fits 4000

pub Commutes-add_user :
    (effector code name status : Text)
    → Commutes misuse (add_user_on_tables effector code name status)
unfolding add_user_on_tables has_member permission_in number_of
Commutes-add_user effector code name status = search passing depth 80 fits 4000

pub Commutes-remove_user :
    (effector code name : Text) → Commutes misuse (remove_user_on_tables effector code name)
unfolding remove_user_on_tables has_member permission_in number_of
Commutes-remove_user effector code name = search passing depth 80 fits 4000

pub Commutes-set_user_status :
    (effector code name status : Text)
    → Commutes misuse (set_user_status_on_tables effector code name status)
unfolding set_user_status_on_tables has_member permission_in
Commutes-set_user_status effector code name status = search passing depth 80 fits 4000

module _ (m : Action (World Tables) Unit)
    (P : World Tables → Outcome Unit × World Tables → Type 0) where
  -- What holds of a call from a free mutex, and of a call that waits for ever, holds of every call,
  -- when the misuse makes no difference to it.
  module _ (passes : Commutes misuse m)
      (stuck : (w : World Tables) → w.groups_mtx.held ≡ true → m w ≡ (fails deadlock, w))
      (waiting : (w : World Tables) → w.groups_mtx.held ≡ true → P w (fails deadlock, w))
      (blind : (w : World Tables) (r : Outcome Unit × World Tables)
        → P w r
        → P (misuse w) (changed misuse r)) where
    from_free :
        (w : World Tables) (before : Bool)
        → w.groups_mtx ≡ record { held = false; misused = before }
        → ((v : World Tables) → v.groups_mtx ≡ free → v.db ≡ w.db → P v (m v))
        → P w (m w)
    from_free w false e h = h w e refl
    from_free w true e h =
        let v : World Tables = record w { groups_mtx = free } in
        let e' : misuse v ≡ w = λ i. record w { groups_mtx = sym e i } in
        subst (λ x. P x (m x)) e' (rw (passes.at v) (blind v (m v) (h v refl refl)))

    pub in_every_state :
        (w : World Tables)
        → ((v : World Tables) → v.groups_mtx ≡ free → v.db ≡ w.db → P v (m v))
        → P w (m w)
    in_every_state w h = elim (Bool-cases w.groups_mtx.held) [
      | inl waits ↦ rw (stuck w waits) (waiting w waits)
      | inr e ↦
          from_free w w.groups_mtx.misused
            (λ i. record { held = e i; misused = w.groups_mtx.misused }) h
    ]

pub remove_group-deadlock :
    (effector code : Text) (w : World Tables)
    → w.groups_mtx.held ≡ true
    → remove_group_on_tables effector code w ≡ (fails deadlock, w)
unfolding remove_group_on_tables ◌>>=◌ lock_groups
remove_group-deadlock effector code w h = rw h refl

pub add_user-deadlock :
    (effector code name status : Text) (w : World Tables)
    → w.groups_mtx.held ≡ true
    → add_user_on_tables effector code name status w ≡ (fails deadlock, w)
unfolding add_user_on_tables ◌>>=◌ lock_groups
add_user-deadlock effector code name status w h = rw h refl

pub remove_user-deadlock :
    (effector code name : Text) (w : World Tables)
    → w.groups_mtx.held ≡ true
    → remove_user_on_tables effector code name w ≡ (fails deadlock, w)
unfolding remove_user_on_tables ◌>>=◌ lock_groups
remove_user-deadlock effector code name w h = rw h refl

pub set_user_status-deadlock :
    (effector code name status : Text) (w : World Tables)
    → w.groups_mtx.held ≡ true
    → set_user_status_on_tables effector code name status w ≡ (fails deadlock, w)
unfolding set_user_status_on_tables ◌>>=◌ lock_groups
set_user_status-deadlock effector code name status w h = rw h refl
