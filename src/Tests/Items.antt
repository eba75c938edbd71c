-- ===== src/Tests/Items.antt =====
-- The theorems on items, at a list of two.
use server_ilist.Prelude.{pos, ◌≡◌, refl, [], ◌∷◌, arith}
use server_ilist.Text.{Text, text_eq, has_char, lit}
use server_ilist.Text.Number.{stoi, nat_to_string, digits_value, wrap_int}
use server_ilist.Exception.{ok, fails, standard, deadlock}
use server_ilist.Database.Permissions.{permission_of}
use server_ilist.Sqlite.Schema.{find, Tables}
use server_ilist.Sqlite.Effect.{change_item}
use server_ilist.Sqlite.Spelled.{IsNumeral}
use server_ilist.Sqlite.Refines.{abs, lift_abs}
use server_ilist.Sqlite.Toy.{toy}
use server_ilist.Sqlite.Toy.Reading.{toy-Implements}
use server_ilist.Lists.{add_item, remove_item, update_item, is_number}
use server_ilist.Lists.Lookups.{item_of}
use server_ilist.Lists.Guard.{list_refusal, unless_locked_out}
use server_ilist.Lists.Items.{item_added, item_removed, add_item_outcome, remove_item_outcome}
use server_ilist.Lists.Change.{item_changed, update_item_outcome}
use server_ilist.Lists.Collision.{update_item_collides}
use server_ilist.Lists.Jam.{add_item_jams}
use server_ilist.Tests.Data.{
  code, code-IsNumeral, dana, noam, milk, eggs, milk_row, eggs_row, tables, world,
}

abbrev same : Tables → Tables
same t = t

-- `3` and `3000000000`
abbrev three : Text
three = 51 ∷ []

abbrev huge : Text
huge = 51 ∷ 48 ∷ 48 ∷ 48 ∷ 48 ∷ 48 ∷ 48 ∷ 48 ∷ 48 ∷ 48 ∷ []

three-IsNumeral : IsNumeral three
unfolding nat_to_string
three-IsNumeral = (3, refl, omega arith)

huge-IsNumeral : IsNumeral huge
unfolding nat_to_string
huge-IsNumeral = (3000000000, refl, omega arith)

add_item_outcome_example :
    lift_abs same (add_item toy dana code milk three [] world)
    ≡ unless_locked_out
        (list_refusal dana code tables)
        (item_added (item_of code milk tables) code milk three [] (abs same world))
        (abs same world)
unfolding has_char
add_item_outcome_example =
    add_item_outcome toy-Implements dana code milk three [] world (refl, refl) code-IsNumeral
      (refl, refl) three-IsNumeral (refl, refl) refl

remove_item_outcome_example :
    lift_abs same (remove_item toy noam code eggs world)
    ≡ unless_locked_out
        (list_refusal noam code tables)
        (item_removed (item_of code eggs tables) code eggs (abs same world))
        (abs same world)
unfolding has_char
remove_item_outcome_example =
    remove_item_outcome toy-Implements noam code eggs world (refl, refl) code-IsNumeral (refl, refl)
      refl

update_item_outcome_example :
    lift_abs same (update_item toy dana code milk milk three [] world)
    ≡ unless_locked_out
        (list_refusal dana code tables)
        (item_changed
          (item_of code milk tables)
          milk
          three
          []
          (change_item milk three [] code milk)
          (abs same world))
        (abs same world)
unfolding has_char
update_item_outcome_example =
    update_item_outcome toy-Implements dana code milk milk three [] world (refl, refl)
      code-IsNumeral (refl, refl) (refl, refl) (λ digits. three-IsNumeral) (refl, refl) refl

update_item_collides_example :
    lift_abs same (update_item toy dana code milk eggs three [] world) ≡ (ok tt, abs same world)
unfolding has_char find text_eq stoi list_refusal permission_of lit digits_value wrap_int is_number
update_item_collides_example =
    update_item_collides toy-Implements dana code milk eggs three [] world eggs_row milk_row (pos 3)
      (refl, refl) code-IsNumeral (refl, refl) (refl, refl) three-IsNumeral (refl, refl) refl refl
      refl refl refl refl refl refl

add_item_jams_example :
    ((add_item toy dana code milk huge [] world).0 ≡ fails standard)
    × ((e c n q r : Text)
        → (add_item toy e c n q r (add_item toy dana code milk huge [] world).1).0 ≡ fails deadlock)
    × ((e c n : Text)
        → (remove_item toy e c n (add_item toy dana code milk huge [] world).1).0 ≡ fails deadlock)
    × ((e c k n q r : Text)
        → (update_item toy e c k n q r (add_item toy dana code milk huge [] world).1).0
          ≡ fails deadlock)
unfolding has_char find text_eq stoi list_refusal permission_of lit
add_item_jams_example =
    add_item_jams toy-Implements dana code milk huge [] world milk_row (refl, refl) code-IsNumeral
      (refl, refl) huge-IsNumeral (refl, refl) refl refl refl refl
