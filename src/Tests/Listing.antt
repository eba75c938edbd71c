-- ===== src/Tests/Listing.antt =====
-- The theorem on messages that change a list, for one that adds to an item.
use mathlib.Core.List.{Permᴰ}
use server_ilist.Prelude.{List, select, ◌≡◌, refl, [], ◌∷◌, arith}
use server_ilist.Text.{text_eq, has_char, has_double}
use server_ilist.Text.Number.{nat_to_string}
use server_ilist.Map
use server_ilist.Sqlite.Schema.{Tables, Member, in_group}
use server_ilist.Sqlite.Refines.{abs, lift_abs}
use server_ilist.Sqlite.Toy.{toy}
use server_ilist.Sqlite.Toy.Reading.{toy-Implements}
use server_ilist.Manager.Handlers.{code_handler}
use server_ilist.Manager.Telling.{then_tell}
use server_ilist.Manager.Requests.{Request, adding, request, notice, answered}
use server_ilist.Manager.ListRequests.{code_handler-answered}
use server_ilist.Tests.Data.{dana, code, code-IsNumeral, milk, read_status, world}

abbrev same : Tables → Tables
same t = t

-- Two more of an item that is there.
abbrev more_milk : Request
more_milk = adding code milk (50 ∷ []) read_status

code_handler-answered_example :
    (ms : List Member) × Permᴰ ms (select (in_group code) (same world.db).members)
    × (lift_abs same (code_handler toy (request 7 more_milk) world)
        ≡ then_tell ms (notice more_milk) (answered dana more_milk (abs same world)))
unfolding has_char has_double text_eq Map.lookup nat_to_string
code_handler-answered_example =
    code_handler-answered toy-Implements 7 dana more_milk world
      (
        ((λ e. cc e), (refl, refl, refl)),
        (
          ((λ e. cc e), (refl, refl, refl)),
          (((λ e. cc e), (refl, refl, refl)), (((λ e. cc e), (refl, refl, refl)), tt)),
        ),
      )
      ((refl, refl), ((refl, refl), ((refl, refl), ((refl, refl), tt))))
      (code-IsNumeral, (2, refl, omega arith)) (refl, refl) ((refl, refl), ((refl, refl), tt)) refl
      refl
