-- ===== src/Tests/Restoring.antt =====
-- The theorem on messages that ask for a restore, for a user with one group.
use server_ilist.Prelude.{List, refl, [], arith}
use server_ilist.Text.{text_eq, has_char}
use server_ilist.Config.{re_restore}
use server_ilist.Map
use server_ilist.Messages.{new_message}
use server_ilist.Sqlite.Toy.{toy}
use server_ilist.Sqlite.Toy.Reading.{toy-Implements}
use server_ilist.Restore.Rendering.{Entry}
use server_ilist.Manager.{make_receive}
use server_ilist.Manager.Handlers.{code_handler}
use server_ilist.Manager.Restoring.{IsRestored, code_handler-IsRestored}
use server_ilist.Tests.Data.{dana, world}
use server_ilist.Tests.Orders.{tables-IsConsistent}

code_handler-IsRestored_example :
    (es : List Entry) × IsRestored
      (λ t. t)
      dana
      7
      world
      es
      (code_handler toy (new_message (make_receive re_restore []) 7) world)
unfolding has_char text_eq Map.lookup
code_handler-IsRestored_example =
    code_handler-IsRestored toy-Implements dana (refl, refl) 7 world refl tables-IsConsistent
      (omega arith) 7 refl
