-- ===== src/Tests/Creating.antt =====
-- The theorems on new groups and new accounts.
use server_ilist.Prelude.{◌≡◌, refl, arith, [], ◌∷◌}
use server_ilist.Text.{Text, text_eq, has_char}
use server_ilist.Text.Number.{nat_to_string}
use server_ilist.Exception.{ok, fails, thrown, wrong_username_or_password}
use server_ilist.Database.Mutex.{free}
use server_ilist.Map
use server_ilist.Sqlite.Schema.{Tables}
use server_ilist.Sqlite.Refines.{abs, lift_abs}
use server_ilist.Sqlite.Toy.{toy}
use server_ilist.Sqlite.Toy.Reading.{toy-Implements}
use server_ilist.Groups.{create_group}
use server_ilist.Groups.Create.{with_group, create_group_outcome}
use server_ilist.Groups.Fresh.{IsFresh}
use server_ilist.Users.{
  login, register, add, is_login, is_login_name, is_valid_username, is_valid_password,
}
use server_ilist.Users.Accounts.{registered, logged_in, register_outcome, login_outcome}
use server_ilist.Users.Entry.{login-register}
use server_ilist.Tests.Data.{noam, secret, milk, tables, world}

abbrev same : Tables → Tables
same t = t

tables-IsFresh : IsFresh tables
unfolding nat_to_string text_eq
tables-IsFresh = record { above = (omega arith, tt); room = omega arith; unused = refl }

create_group_outcome_example :
    ((create_group toy milk noam world).0 ≡ ok (nat_to_string 2))
    × ((create_group toy milk noam world).1.db ≡ with_group milk noam world.today tables)
    × ((create_group toy milk noam world).1.groups_mtx ≡ free)
unfolding has_char
create_group_outcome_example =
    create_group_outcome toy-Implements milk noam world (refl, refl) (refl, refl) (refl, refl) refl
      tables-IsFresh

register_outcome_example :
    lift_abs same (register toy milk secret world) ≡ registered milk secret (abs same world)
unfolding has_char
register_outcome_example =
    register_outcome toy-Implements milk secret world (refl, refl) (refl, refl)

login_outcome_example :
    lift_abs same (login toy 8 noam secret world) ≡ logged_in 8 noam secret (abs same world)
unfolding has_char
login_outcome_example = login_outcome toy-Implements 8 noam secret world (refl, refl) (refl, refl)

-- `wrong!`
abbrev wrong : Text
wrong = 119 ∷ 114 ∷ 111 ∷ 110 ∷ 103 ∷ 33 ∷ []

login-register_example :
    (lift_abs same (login toy 8 milk secret (register toy milk secret world).1)
      ≡ (ok tt, add 8 milk (abs same (register toy milk secret world).1)))
    × (lift_abs same (login toy 8 milk wrong (register toy milk secret world).1)
        ≡ (fails (thrown wrong_username_or_password), abs same (register toy milk secret world).1))
unfolding has_char text_eq is_valid_username is_valid_password is_login is_login_name Map.lookup
login-register_example =
    login-register toy-Implements 8 milk secret wrong world (refl, refl) (refl, refl) (refl, refl)
      refl refl refl refl refl
