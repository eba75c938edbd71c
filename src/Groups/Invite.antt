-- ===== src/Groups/Invite.antt =====
-- Adding a member to a group (`addUser` of ServerIList/PublicGroup.cpp).
use server_ilist.Prelude.{
  ◌≡◌, refl, Bool, false, not, Bool-cases, Option-cases, inl, inr, Option, none, some, [], ◌∙◌, ℤ,
  pos, ◌+ℤ◌, eq_ℤ, if◌then◌else◌, ◌++◌, ◌∷◌,
}
use server_ilist.Text.{Text, lit}
use server_ilist.Text.Number.{stoi, to_string, wrap_int}
use server_ilist.Exception.{
  Exception, Outcome, ok, fails, thrown, no_such_user_in_the_group, full_group, system,
}
use server_ilist.Action.{◌>>=◌}
use server_ilist.World.{World}
use server_ilist.Database.{Engine}
use server_ilist.Database.Mutex.{free, lock_groups, unlock_groups}
use server_ilist.Database.Permissions.{
  permission_of, is_authorized, same_permission, full_control, non,
}
use server_ilist.Sqlite.{Implements}
use server_ilist.Sqlite.Schema.{Tables, Member, Group, has_code, update}
use server_ilist.Sqlite.Effect.{effect}
use server_ilist.Sqlite.Spelled.{IsQuotable, IsNumeral}
use server_ilist.Sqlite.Refines.{run, abs, lift_abs}
use server_ilist.Groups.{add_user}
use server_ilist.Groups.Spec.{add_user_on_tables}
use server_ilist.Groups.Lookups.{
  member_of, group_of, has_member-some, has_member-none, permission_in-some, number_of-some,
}
use server_ilist.Groups.Close.{held}
use server_ilist.Groups.Refinement.{add_user-Refines}

-- The tables with one more member of a group, which then counts `n` members.
unfoldable pub with_member : Text → Text → Text → ℤ → Tables → Tables
with_member code username status n t = record t {
  members = t.members ++ record { group_code = code; username = username; status = status } ∷ [];
  groups = update (has_code code) (λ g. record g { number_of_users = to_string n }) t.groups;
}

-- What the call says, given the member who asks, the count, the member who is to be added, and
-- whether the status that it is to have names no permission.
abbrev pub answer_to : Option Member → ℤ → Option Member → Bool → Option Exception
answer_to none i target powerless = some (no_such_user_in_the_group [])
answer_to (some a) i target powerless =
    if eq_ℤ i (pos 4)
    then some (full_group (lit "PublicGroup() -- adduser()"))
    else elim target [ some m ↦ some system | none ↦ if powerless then some system else none ]

-- The mutex is unlocked once too often when the call comes past the count and the name, and the
-- member who asks has not full control.
abbrev pub overlooked : Option Member → ℤ → Option Member → Bool
overlooked none i target = false
overlooked (some a) i target = if eq_ℤ i (pos 4) then false else elim target [
  | some m ↦ false
  | none ↦ not (is_authorized (permission_of a.status) full_control)
]

abbrev pub grants_nothing : Text → Bool
grants_nothing status = same_permission (permission_of status) non

-- The world after the call.
abbrev pub invited :
    Option Exception → Bool → (Tables → Tables) → World Tables → Outcome Unit × World Tables
invited (some e) misused change w =
    (fails (thrown e), record w { groups_mtx = record { held = false; misused = misused } })
invited none misused change w =
    (ok tt, record w { db = change w.db; groups_mtx = record { held = false; misused = misused } })

module _ (effector code username status : Text) (w : World Tables) (unlocked : w.groups_mtx ≡ free)
    (g : Group) (i : ℤ) (here : group_of code w.db ≡ some g)
    (counted : stoi g.number_of_users ≡ some i) where
  pub add_user_tables :
      add_user_on_tables effector code username status w
      ≡ invited
          (answer_to
            (member_of code effector w.db)
            i
            (member_of code username w.db)
            (grants_nothing status))
          (overlooked (member_of code effector w.db) i (member_of code username w.db))
          (with_member code username status (wrap_int (i +ℤ pos 1)))
          w
  unfolding add_user_on_tables ◌>>=◌ lock_groups unlock_groups run effect with_member
  add_user_tables = elim (Option-cases (member_of code effector w.db)) [
    | inl stranger ↦
        rw (stranger, unlocked) (rw (has_member-none code effector (held w) stranger) refl)
    | inr (a, ha) ↦ elim (Bool-cases (eq_ℤ i (pos 4))) [
      | inl full ↦
          rw (ha, full, unlocked)
            (rw
              (
                has_member-some code effector (held w) a ha,
                number_of-some code username (held w) g i here counted,
                full,
              )
              refl)
      | inr room ↦ elim (Option-cases (member_of code username w.db)) [
        | inr (m, hm) ↦
            rw (ha, room, hm, unlocked)
              (rw
                (
                  has_member-some code effector (held w) a ha,
                  number_of-some code username (held w) g i here counted,
                  room,
                  has_member-some code username (held w) m hm,
                )
                refl)
        | inl absent ↦
            rw (ha, room, absent, unlocked)
              (rw
                (
                  has_member-some code effector (held w) a ha,
                  number_of-some code username (held w) g i here counted,
                  room,
                  has_member-none code username (held w) absent,
                  permission_in-some code effector (held w) a ha,
                )
                (elim (Bool-cases (is_authorized (permission_of a.status) full_control)) [
                  | inl allowed ↦ rw allowed (elim (Bool-cases (grants_nothing status)) [
                    | inl p ↦ rw p refl
                    | inr p ↦ rw p (rw absent refl)
                  ])
                  | inr denied ↦ rw denied (elim (Bool-cases (grants_nothing status)) [
                    | inl p ↦ rw p refl
                    | inr p ↦ rw p (rw absent refl)
                  ])
                ]))
      ]
    ]
  ]

module _ {H : Type 0} {exec : Engine H} {view : H → Tables} (law : Implements exec view) where
  -- Adding a member: with the mutex free, arguments that are spelled as literals and a group whose
  -- count is a number, the call throws and changes no table when the one who asks is no member,
  -- when the count is 4, when the new one is a member already, and when the status names no
  -- permission; otherwise it succeeds, the member is there and the count is one more. That the one
  -- who asks has not full control stops nothing: the mutex is then unlocked once too often.
  pub add_user_outcome :
      (effector code username status : Text) (w : World H) (g : Group) (i : ℤ)
      → IsQuotable effector
      → IsNumeral code
      → IsQuotable username
      → IsQuotable status
      → w.groups_mtx ≡ free
      → group_of code (view w.db) ≡ some g
      → stoi g.number_of_users ≡ some i
      → lift_abs view (add_user exec effector code username status w)
        ≡ invited
            (answer_to
              (member_of code effector (view w.db))
              i
              (member_of code username (view w.db))
              (grants_nothing status))
            (overlooked
              (member_of code effector (view w.db))
              i
              (member_of code username (view w.db)))
            (with_member code username status (wrap_int (i +ℤ pos 1)))
            (abs view w)
  add_user_outcome effector code username status w g i clean numeral user rights unlocked here
        counted =
      (add_user-Refines law effector code username status clean numeral user rights).at w
      ∙ add_user_tables effector code username status (abs view w) unlocked g i here counted
