-- ===== src/Tests/Closing.antt =====
-- Closing a group, by a member who may only read, and by one who is no member.
use server_ilist.Prelude.{◌≡◌, refl, not, []}
use server_ilist.Text.{text_eq, has_char}
use server_ilist.Exception.{ok, fails, thrown, no_such_user_in_the_group}
use server_ilist.Database.Mutex.{free}
use server_ilist.Database.Permissions.{permission_of, is_authorized, admin}
use server_ilist.Sqlite.Schema.{find}
use server_ilist.Sqlite.Toy.{toy}
use server_ilist.Sqlite.Toy.Reading.{toy-Implements}
use server_ilist.Groups.{remove_group}
use server_ilist.Groups.Close.{without_group, remove_group_by_member, remove_group_by_stranger}
use server_ilist.Tests.Data.{code, code-IsNumeral, noam, omer, noam_row, tables, world}

remove_group_by_member_example :
    ((remove_group toy noam code world).0 ≡ ok tt)
    × ((remove_group toy noam code world).1.db ≡ without_group code tables)
    × ((remove_group toy noam code world).1.groups_mtx.misused
        ≡ not (is_authorized (permission_of noam_row.status) admin))
unfolding has_char find text_eq
remove_group_by_member_example =
    remove_group_by_member toy-Implements noam code world noam_row (refl, refl) code-IsNumeral refl
      refl

remove_group_by_stranger_example :
    ((remove_group toy omer code world).0 ≡ fails (thrown (no_such_user_in_the_group [])))
    × ((remove_group toy omer code world).1.db ≡ tables)
    × ((remove_group toy omer code world).1.groups_mtx ≡ free)
unfolding has_char find text_eq
remove_group_by_stranger_example =
    remove_group_by_stranger toy-Implements omer code world (refl, refl) code-IsNumeral refl refl
