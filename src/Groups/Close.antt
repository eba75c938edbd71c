-- ===== src/Groups/Close.antt =====
-- Closing a group (`removeGroup` of ServerIList/PublicGroup.cpp).
use server_ilist.Prelude.{
  ◌≡◌, refl, true, false, not, Bool-cases, inl, inr, none, some, select, [], ap, ◌∙◌,
}
use server_ilist.Text.{Text}
use server_ilist.Exception.{ok, fails, thrown, no_such_user_in_the_group}
use server_ilist.Action.{◌>>=◌}
use server_ilist.World.{World}
use server_ilist.Database.{Engine}
use server_ilist.Database.Mutex.{free, lock_groups, unlock_groups}
use server_ilist.Database.Permissions.{permission_of, is_authorized, admin}
use server_ilist.Sqlite.{Implements}
use server_ilist.Sqlite.Schema.{Tables, Member, has_code, in_group, listed_in}
use server_ilist.Sqlite.Effect.{effect}
use server_ilist.Sqlite.Spelled.{IsQuotable, IsNumeral}
use server_ilist.Sqlite.Refines.{run, abs}
use server_ilist.Groups.{remove_group}
use server_ilist.Groups.Spec.{remove_group_on_tables}
use server_ilist.Groups.Lookups.{member_of, has_member-some, has_member-none, permission_in-some}
use server_ilist.Groups.Refinement.{remove_group-Refines}

-- The tables without a group, its members and its items.
unfoldable pub without_group : Text → Tables → Tables
without_group code t = record t {
  groups = select (λ g. not (has_code code g)) t.groups;
  members = select (λ m. not (in_group code m)) t.members;
  items = select (λ i. not (listed_in code i)) t.items;
}

-- The world while `removeGroup` holds its mutex.
abbrev pub held : World Tables → World Tables
held w = record w { groups_mtx = record { held = true; misused = false } }

module _ (effector code : Text) (w : World Tables) (unlocked : w.groups_mtx ≡ free) where
  pub remove_group_member :
      (m : Member)
      → member_of code effector w.db ≡ some m
      → remove_group_on_tables effector code w ≡ (
        ok tt,
        record w {
          db = without_group code w.db;
          groups_mtx = record {
            held = false;
            misused = not (is_authorized (permission_of m.status) admin);
          };
        },
      )
  unfolding remove_group_on_tables ◌>>=◌ lock_groups unlock_groups run effect without_group
  remove_group_member m h = rw unlocked (
      rw (has_member-some code effector (held w) m h, permission_in-some code effector (held w) m h)
        (elim (Bool-cases (is_authorized (permission_of m.status) admin)) [
          | inl allowed ↦ rw allowed refl
          | inr denied ↦ rw denied refl
        ]))

  pub remove_group_stranger :
      member_of code effector w.db ≡ none
      → remove_group_on_tables effector code w ≡ (fails (thrown (no_such_user_in_the_group [])), w)
  unfolding remove_group_on_tables ◌>>=◌ lock_groups unlock_groups
  remove_group_stranger h = rw unlocked (rw (has_member-none code effector (held w) h) refl)

module _ {H : Type 0} {exec : Engine H} {view : H → Tables} (law : Implements exec view) where
  -- Any member of a group closes it, whatever the member's status: with the mutex free, and an
  -- effector and a code that are spelled as literals, the call succeeds, and the group, its members
  -- and its items are gone. For a member without the admin's permission the mutex is then unlocked
  -- twice.
  pub remove_group_by_member :
      (effector code : Text) (w : World H) (m : Member)
      → IsQuotable effector
      → IsNumeral code
      → w.groups_mtx ≡ free
      → member_of code effector (view w.db) ≡ some m
      → ((remove_group exec effector code w).0 ≡ ok tt)
        × (view (remove_group exec effector code w).1.db ≡ without_group code (view w.db))
        × ((remove_group exec effector code w).1.groups_mtx.misused
            ≡ not (is_authorized (permission_of m.status) admin))
  remove_group_by_member effector code w m clean numeral unlocked h =
      let e =
        (remove_group-Refines law effector code clean numeral).at w
        ∙ remove_group_member effector code (abs view w) unlocked m h in
      (ap (λ p. p.0) e, ap (λ p. p.1.db) e, ap (λ p. p.1.groups_mtx.misused) e)

  -- One who is not a member cannot close a group: the call throws, and the tables stay as they are.
  pub remove_group_by_stranger :
      (effector code : Text) (w : World H)
      → IsQuotable effector
      → IsNumeral code
      → w.groups_mtx ≡ free
      → member_of code effector (view w.db) ≡ none
      → ((remove_group exec effector code w).0 ≡ fails (thrown (no_such_user_in_the_group [])))
        × (view (remove_group exec effector code w).1.db ≡ view w.db)
        × ((remove_group exec effector code w).1.groups_mtx ≡ free)
  remove_group_by_stranger effector code w clean numeral unlocked h =
      let e =
        (remove_group-Refines law effector code clean numeral).at w
        ∙ remove_group_stranger effector code (abs view w) unlocked h in
      (ap (λ p. p.0) e, ap (λ p. p.1.db) e, ap (λ p. p.1.groups_mtx) e ∙ unlocked)
