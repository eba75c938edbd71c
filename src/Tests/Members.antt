-- ===== src/Tests/Members.antt =====
-- The theorems on members, at a group of two.
use server_ilist.Prelude.{◌≡◌, refl, pos, negsuc, ◌+ℤ◌, arith}
use server_ilist.Text.{text_eq, text_eq_iff, has_char}
use server_ilist.Text.Number.{stoi, wrap_int, nat_to_string}
use server_ilist.Sqlite.Schema.{find, Tables}
use server_ilist.Sqlite.Refines.{abs, lift_abs}
use server_ilist.Sqlite.Toy.{toy}
use server_ilist.Sqlite.Toy.Reading.{toy-Implements}
use server_ilist.Groups.{add_user, remove_user, set_user_status}
use server_ilist.Groups.Lookups.{member_of}
use server_ilist.Groups.Members.{
  refusal, unless_refused, without_member, with_status, remove_user_outcome,
  set_user_status_outcome,
}
use server_ilist.Groups.Invite.{
  answer_to, overlooked, invited, grants_nothing, with_member, add_user_outcome,
}
use server_ilist.Groups.Count.{IsCounted}
use server_ilist.Tests.Data.{
  code, code-IsNumeral, dana, noam, omer, home, full_status, tables, world,
}

abbrev same : Tables → Tables
same t = t

remove_user_outcome_example :
    lift_abs same (remove_user toy dana code noam world)
    ≡ unless_refused
        (refusal dana code noam tables)
        (without_member code noam (wrap_int (pos 2 +ℤ negsuc 0)))
        (abs same world)
unfolding has_char find text_eq stoi nat_to_string
remove_user_outcome_example =
    remove_user_outcome toy-Implements dana code noam world home (pos 2) (refl, refl) code-IsNumeral
      (refl, refl) refl refl refl

set_user_status_outcome_example :
    lift_abs same (set_user_status toy dana code noam full_status world)
    ≡ unless_refused
        (refusal dana code noam tables)
        (with_status code noam full_status)
        (abs same world)
unfolding has_char
set_user_status_outcome_example =
    set_user_status_outcome toy-Implements dana code noam full_status world (refl, refl)
      code-IsNumeral (refl, refl) (refl, refl) refl

add_user_outcome_example :
    lift_abs same (add_user toy noam code omer full_status world)
    ≡ invited
        (answer_to
          (member_of code noam tables)
          (pos 2)
          (member_of code omer tables)
          (grants_nothing full_status))
        (overlooked (member_of code noam tables) (pos 2) (member_of code omer tables))
        (with_member code omer full_status (wrap_int (pos 2 +ℤ pos 1)))
        (abs same world)
unfolding has_char find text_eq stoi nat_to_string
add_user_outcome_example =
    add_user_outcome toy-Implements noam code omer full_status world home (pos 2) (refl, refl)
      code-IsNumeral (refl, refl) (refl, refl) refl refl refl

pub tables-IsCounted : IsCounted code tables
unfolding find text_eq stoi nat_to_string
tables-IsCounted = record {
  group = home;
  here = refl;
  counted = refl;
  bounded = omega arith;
  single = λ username. ground (arith, text_eq_iff dana username, text_eq_iff noam username);
}
