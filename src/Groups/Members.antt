-- ===== src/Groups/Members.antt =====
-- Removing a member and changing a member's status (`removeUser` and `setUserStatus` of
-- ServerIList/PublicGroup.cpp).
use server_ilist.Prelude.{
  ◌≡◌, refl, Bool, not, ◌&&◌, Bool-cases, Option-cases, inl, inr, Option, none, some, select, [],
  ◌∙◌, ℤ, ◌+ℤ◌, negsuc, ◌==◌, if◌then◌else◌,
}
use server_ilist.Text.{Text}
use server_ilist.Text.Number.{stoi, to_string, wrap_int}
use server_ilist.Exception.{
  Exception, Outcome, ok, fails, thrown, no_such_user_in_the_group, permission_is_denied,
}
use server_ilist.Action.{◌>>=◌}
use server_ilist.World.{World}
use server_ilist.Database.{Engine}
use server_ilist.Database.Mutex.{free, lock_groups, unlock_groups}
use server_ilist.Database.Permissions.{permission_of, is_authorized, admin, full_control}
use server_ilist.Sqlite.{Implements}
use server_ilist.Sqlite.Schema.{Tables, Member, Group, is_member, has_code, update}
use server_ilist.Sqlite.Effect.{effect}
use server_ilist.Sqlite.Spelled.{IsQuotable, IsNumeral}
use server_ilist.Sqlite.Refines.{run, abs, lift_abs}
use server_ilist.Groups.{remove_user, set_user_status}
use server_ilist.Groups.Spec.{remove_user_on_tables, set_user_status_on_tables}
use server_ilist.Groups.Lookups.{
  member_of, group_of, has_member-some, has_member-none, permission_in-some, number_of-some,
}
use server_ilist.Groups.Close.{held}
use server_ilist.Groups.Refinement.{remove_user-Refines, set_user_status-Refines}

-- May a member with this status act on a member with that one?
abbrev pub may_act : Member → Member → Bool
may_act effector target =
    is_authorized (permission_of effector.status) full_control
    && not ((permission_of target.status).permission_level == admin.permission_level)

abbrev pub refusal_of : Option Member → Option Member → Option Exception
refusal_of none target = some (no_such_user_in_the_group [])
refusal_of (some effector) none = some (no_such_user_in_the_group [])
refusal_of (some effector) (some target) =
    if may_act effector target then none else some (permission_is_denied [])

-- Why the effector may not act on the member, if so.
unfoldable pub refusal : Text → Text → Text → Tables → Option Exception
refusal effector code username t =
    refusal_of (member_of code effector t) (member_of code username t)

-- A refused call throws and changes nothing; another changes the tables.
abbrev pub unless_refused :
    Option Exception → (Tables → Tables) → World Tables → Outcome Unit × World Tables
unless_refused (some e) change w = (fails (thrown e), w)
unless_refused none change w = (ok tt, record w { db = change w.db })

-- The tables without a member of a group, which then counts `n` members.
unfoldable pub without_member : Text → Text → ℤ → Tables → Tables
without_member code username n t = record t {
  members = select (λ m. not (is_member code username m)) t.members;
  groups = update (has_code code) (λ g. record g { number_of_users = to_string n }) t.groups;
}

-- The tables with another status for a member.
unfoldable pub with_status : Text → Text → Text → Tables → Tables
with_status code username status t = record t {
  members = update (is_member code username) (λ m. record m { status = status }) t.members;
}

module _ (effector code username : Text) (w : World Tables) (unlocked : w.groups_mtx ≡ free) where
  module _ (g : Group) (i : ℤ) (here : group_of code w.db ≡ some g)
      (counted : stoi g.number_of_users ≡ some i) where
    remove_user_members :
        (a m : Member)
        → member_of code effector w.db ≡ some a
        → member_of code username w.db ≡ some m
        → remove_user_on_tables effector code username w
          ≡ unless_refused
              (refusal_of (some a) (some m))
              (without_member code username (wrap_int (i +ℤ negsuc 0)))
              w
    unfolding remove_user_on_tables ◌>>=◌ lock_groups unlock_groups run effect without_member
    remove_user_members a m ha hm = rw unlocked (
        rw
          (
            has_member-some code effector (held w) a ha,
            has_member-some code username (held w) m hm,
            permission_in-some code effector (held w) a ha,
          )
          (elim (Bool-cases (is_authorized (permission_of a.status) full_control)) [
            | inl allowed ↦
                rw (allowed, permission_in-some code username (held w) m hm)
                  (elim (Bool-cases ((permission_of m.status).permission_level == 4)) [
                    | inl top ↦ rw top refl
                    | inr low ↦
                        rw (low, number_of-some code username (held w) g i here counted) refl
                  ])
            | inr denied ↦ rw denied refl
          ]))

    pub remove_user_tables :
        remove_user_on_tables effector code username w
        ≡ unless_refused
            (refusal effector code username w.db)
            (without_member code username (wrap_int (i +ℤ negsuc 0)))
            w
    unfolding refusal remove_user_on_tables ◌>>=◌ lock_groups unlock_groups
    remove_user_tables = elim (Option-cases (member_of code effector w.db)) [
      | inl stranger ↦
          rw (stranger, unlocked) (rw (has_member-none code effector (held w) stranger) refl)
      | inr (a, ha) ↦ elim (Option-cases (member_of code username w.db)) [
        | inl absent ↦
            rw (ha, absent, unlocked)
              (rw
                (
                  has_member-some code effector (held w) a ha,
                  has_member-none code username (held w) absent,
                )
                refl)
        | inr (m, hm) ↦ rw (ha, hm) (remove_user_members a m ha hm)
      ]
    ]

  set_user_status_members :
      (status : Text) (a m : Member)
      → member_of code effector w.db ≡ some a
      → member_of code username w.db ≡ some m
      → set_user_status_on_tables effector code username status w
        ≡ unless_refused (refusal_of (some a) (some m)) (with_status code username status) w
  unfolding set_user_status_on_tables ◌>>=◌ lock_groups unlock_groups run effect with_status
  set_user_status_members status a m ha hm = rw unlocked (
      rw
        (
          has_member-some code effector (held w) a ha,
          has_member-some code username (held w) m hm,
          permission_in-some code effector (held w) a ha,
        )
        (elim (Bool-cases (is_authorized (permission_of a.status) full_control)) [
          | inl allowed ↦
              rw (allowed, permission_in-some code username (held w) m hm)
                (elim (Bool-cases ((permission_of m.status).permission_level == 4)) [
                  | inl top ↦ rw top refl
                  | inr low ↦ rw low refl
                ])
          | inr denied ↦ rw denied refl
        ]))

  pub set_user_status_tables :
      (status : Text)
      → set_user_status_on_tables effector code username status w
        ≡ unless_refused (refusal effector code username w.db) (with_status code username status) w
  unfolding refusal set_user_status_on_tables ◌>>=◌ lock_groups unlock_groups
  set_user_status_tables status = elim (Option-cases (member_of code effector w.db)) [
    | inl stranger ↦
        rw (stranger, unlocked) (rw (has_member-none code effector (held w) stranger) refl)
    | inr (a, ha) ↦ elim (Option-cases (member_of code username w.db)) [
      | inl absent ↦
          rw (ha, absent, unlocked)
            (rw
              (
                has_member-some code effector (held w) a ha,
                has_member-none code username (held w) absent,
              )
              refl)
      | inr (m, hm) ↦ rw (ha, hm) (set_user_status_members status a m ha hm)
    ]
  ]

module _ {H : Type 0} {exec : Engine H} {view : H → Tables} (law : Implements exec view) where
  -- Removing a member: with the mutex free, arguments that are spelled as literals and a group
  -- whose count is a number, the call throws and changes nothing when one of the two is no member,
  -- when the effector has not full control or when the removed is the admin; otherwise it succeeds,
  -- the member is gone and the count is one less. In each case the mutex is free again.
  pub remove_user_outcome :
      (effector code username : Text) (w : World H) (g : Group) (i : ℤ)
      → IsQuotable effector
      → IsNumeral code
      → IsQuotable username
      → w.groups_mtx ≡ free
      → group_of code (view w.db) ≡ some g
      → stoi g.number_of_users ≡ some i
      → lift_abs view (remove_user exec effector code username w)
        ≡ unless_refused
            (refusal effector code username (view w.db))
            (without_member code username (wrap_int (i +ℤ negsuc 0)))
            (abs view w)
  remove_user_outcome effector code username w g i clean numeral user unlocked here counted =
      (remove_user-Refines law effector code username clean numeral user).at w
      ∙ remove_user_tables effector code username (abs view w) unlocked g i here counted

  -- Changing a member's status: with the mutex free and arguments that are spelled as literals, the
  -- call throws and changes nothing when one of the two is no member, when the effector has not
  -- full control or when the member is the admin; otherwise the member has the new status, whatever
  -- its text. In each case the mutex is free again.
  pub set_user_status_outcome :
      (effector code username status : Text) (w : World H)
      → IsQuotable effector
      → IsNumeral code
      → IsQuotable username
      → IsQuotable status
      → w.groups_mtx ≡ free
      → lift_abs view (set_user_status exec effector code username status w)
        ≡ unless_refused
            (refusal effector code username (view w.db))
            (with_status code username status)
            (abs view w)
  set_user_status_outcome effector code username status w clean numeral user rights unlocked =
      (set_user_status-Refines law effector code username status clean numeral user rights).at w
      ∙ set_user_status_tables effector code username (abs view w) unlocked status
