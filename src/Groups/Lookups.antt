-- ===== src/Groups/Lookups.antt =====
-- What the queries of ServerIList/PublicGroup.cpp that change nothing answer from the tables.
use server_ilist.Prelude.{◌≡◌, refl, true, false, Option, none, some, ℤ}
use server_ilist.Text.{Text}
use server_ilist.Text.Number.{stoi}
use server_ilist.Exception.{ok}
use server_ilist.Action.{◌>>=◌}
use server_ilist.World.{World}
use server_ilist.Database.Permissions.{permission_of}
use server_ilist.Sqlite.Schema.{Tables, Member, Group, is_member, has_code, find}
use server_ilist.Sqlite.Schema.Find.{select-eq_nil_of_find, select-eq_cons_of_find}
use server_ilist.Sqlite.Language.{answer}
use server_ilist.Sqlite.Effect.{effect}
use server_ilist.Sqlite.Refines.{run}
use server_ilist.Groups.Spec.{has_member, permission_in, number_of}

-- The row of a member.
abbrev pub member_of : Text → Text → Tables → Option Member
member_of code username t = find (is_member code username) t.members

-- The row of a group.
abbrev pub group_of : Text → Tables → Option Group
group_of code t = find (has_code code) t.groups

module _ (code username : Text) (w : World Tables) where
  pub has_member-none :
      member_of code username w.db ≡ none → has_member code username w ≡ (ok false, w)
  unfolding has_member ◌>>=◌ run answer effect
  has_member-none h = rw (select-eq_nil_of_find (is_member code username) w.db.members h) refl

  pub has_member-some :
      (m : Member)
      → member_of code username w.db ≡ some m
      → has_member code username w ≡ (ok true, w)
  unfolding has_member ◌>>=◌ run answer effect
  has_member-some m h =
      let (rest, e) = select-eq_cons_of_find (is_member code username) w.db.members m h in rw e refl

  pub permission_in-some :
      (m : Member)
      → member_of code username w.db ≡ some m
      → permission_in code username w ≡ (ok (permission_of m.status), w)
  unfolding permission_in ◌>>=◌ run answer effect
  permission_in-some m h =
      let (rest, e) = select-eq_cons_of_find (is_member code username) w.db.members m h in rw e refl

  pub number_of-some :
      (g : Group) (i : ℤ)
      → group_of code w.db ≡ some g
      → stoi g.number_of_users ≡ some i
      → number_of code w ≡ (ok i, w)
  unfolding number_of ◌>>=◌ run answer effect
  number_of-some g i h n =
      let (rest, e) = select-eq_cons_of_find (has_code code) w.db.groups g h in rw (e, n) refl
