-- ===== src/Lists/Guard.antt =====
-- What every call of ServerIList/PublicLists.cpp that changes a list begins with: the mutex, and
-- the rights of the one who asks.
use server_ilist.Prelude.{
  ◌≡◌, refl, true, false, not, Bool-cases, Option-cases, inl, inr, Option, none, some, [],
  if◌then◌else◌,
}
use server_ilist.Text.{Text}
use server_ilist.Exception.{
  Exception, Outcome, fails, thrown, no_such_user_in_the_group, permission_is_denied,
}
use server_ilist.Action.{Action, throw, when, ◌>>=◌, ◌>>◌}
use server_ilist.World.{World}
use server_ilist.Database.Mutex.{free, lock_lists, unlock_lists}
use server_ilist.Database.Permissions.{permission_of, is_authorized, read_write}
use server_ilist.Sqlite.Schema.{Tables, Member}
use server_ilist.Groups.Spec.{permission_in}
use server_ilist.Groups.Lookups.{member_of, permission_in-some}
use server_ilist.Lists.Spec.{has_user}
use server_ilist.Lists.Lookups.{has_user-none, has_user-some}

abbrev pub locked_out : Option Member → Option Exception
locked_out none = some (no_such_user_in_the_group [])
locked_out (some m) =
    if is_authorized (permission_of m.status) read_write
    then none
    else some (permission_is_denied [])

-- Why the effector may not change the list, if so.
unfoldable pub list_refusal : Text → Text → Tables → Option Exception
list_refusal effector code t = locked_out (member_of code effector t)

-- A refused call throws and changes nothing.
abbrev pub unless_locked_out :
    Option Exception → Outcome Unit × World Tables → World Tables → Outcome Unit × World Tables
unless_locked_out (some e) done w = (fails (thrown e), w)
unless_locked_out none done w = done

-- The world in which `mtx` of PublicLists was left locked.
abbrev pub stuck : World Tables → World Tables
stuck w = record w { lists_mtx = record { held = true; misused = false } }

abbrev pub guarded : Text → Text → Action (World Tables) Unit → Action (World Tables) Unit
guarded effector code m = do
  lock_lists
  member ← has_user code effector
  when (not member) (do unlock_lists; throw (no_such_user_in_the_group []))
  status ← permission_in code effector
  when (not (is_authorized status read_write)) (do unlock_lists; throw (permission_is_denied []))
  m

module _ (effector code : Text) (m : Action (World Tables) Unit) (w : World Tables)
    (unlocked : w.lists_mtx ≡ free) where
  pub guarded-eq :
      guarded effector code m w
      ≡ unless_locked_out (list_refusal effector code w.db) (m (stuck w)) w
  unfolding list_refusal ◌>>=◌ lock_lists unlock_lists
  guarded-eq = elim (Option-cases (member_of code effector w.db)) [
    | inl stranger ↦
        rw (stranger, unlocked) (rw (has_user-none code effector (stuck w) stranger) refl)
    | inr (a, ha) ↦ elim (Bool-cases (is_authorized (permission_of a.status) read_write)) [
      | inr denied ↦
          rw (ha, denied, unlocked)
            (rw
              (
                has_user-some code effector (stuck w) a ha,
                permission_in-some code effector (stuck w) a ha,
              )
              (rw denied refl))
      | inl allowed ↦
          rw (ha, allowed, unlocked)
            (rw
              (
                has_user-some code effector (stuck w) a ha,
                permission_in-some code effector (stuck w) a ha,
              )
              (rw allowed refl))
    ]
  ]
