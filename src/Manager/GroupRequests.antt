-- ===== src/Manager/GroupRequests.antt =====
-- A message about a group, from its text to the messages that it causes (the cases GR_CREATE_GROUP,
-- GR_INVITE_USER, GR_REMOVE_USER, GR_SET_STATUS and GR_CLOSE_GROUP of ServerIList/Manager.cpp).
use server_ilist.Prelude.{ℕ, ◌≡◌, some, All}
use server_ilist.Text.{Text}
use server_ilist.World.{World}
use server_ilist.Map
use server_ilist.Map.{socket_key}
use server_ilist.Database.{Engine}
use server_ilist.Parser.Spelling.{IsArgument}
use server_ilist.Sqlite.{Implements}
use server_ilist.Sqlite.Schema.{Tables}
use server_ilist.Sqlite.Spelled.{IsQuotable, IsNumeral}
use server_ilist.Sqlite.Refines.{abs, lift_abs}
use server_ilist.Manager.Handlers.{code_handler}
use server_ilist.Manager.Orders.{
  Order, creating, inviting, dismissing, rating, closing, order, order_args, case_of, IsObeyed,
}
use server_ilist.Manager.Cases.{code_handler-case_of}
use server_ilist.Manager.Obeying.{IsSound, create-IsObeyed, set_status-IsObeyed, remove-IsObeyed}
use server_ilist.Manager.Closing.{close-IsObeyed}
use server_ilist.Manager.Joining.{invite-IsObeyed}

-- The code of a group that is there already is a numeral.
abbrev pub HasNumeral : Order → Type 0
HasNumeral (creating name) = Unit {0}
HasNumeral (inviting code username status) = IsNumeral code
HasNumeral (dismissing code username) = IsNumeral code
HasNumeral (rating code username status) = IsNumeral code
HasNumeral (closing code) = IsNumeral code

module _ {H : Type 0} {exec : Engine H} {view : H → Tables} (law : Implements exec view) where
  case_of-IsObeyed :
      (sock : ℕ) (effector : Text) (o : Order) (w : World H)
      → All IsQuotable (order_args o)
      → HasNumeral o
      → IsQuotable effector
      → IsSound (abs view w)
      → IsObeyed sock effector o (abs view w) (lift_abs view (case_of exec sock effector o w))
  case_of-IsObeyed sock effector (creating name) w (n, t) numeral user =
      create-IsObeyed law effector user sock name w n
  case_of-IsObeyed sock effector (inviting code username status) w (c, (n, (s, t))) numeral user =
      invite-IsObeyed law effector code username status user numeral c n s sock w
  case_of-IsObeyed sock effector (dismissing code username) w (c, (n, t)) numeral user =
      remove-IsObeyed law effector user code username numeral c n sock w
  case_of-IsObeyed sock effector (rating code username status) w (c, (n, (s, t))) numeral user =
      set_status-IsObeyed law effector user code username numeral c n sock status w s
  case_of-IsObeyed sock effector (closing code) w (c, t) numeral user =
      close-IsObeyed law effector user code numeral c sock w

  -- A message from a user who is online that asks to create a group, to invite a user to one, to
  -- remove a member, to change a member's status or to close a group, on a database whose library
  -- behaves as documented, with arguments that the parser takes and that are spelled as literals.
  -- The tables are consistent and have room for one more group, their texts and the day are spelled
  -- as literals, and the mutex of the groups is free. Then what comes of it is what the description
  -- on the tables says: the outcome, the tables, the stored messages and those that go out, to whom
  -- and what, and the rest of the state. The members of the group are told in some order, each row
  -- once, and a new member is shown the members in that order and the items in some order, each row
  -- once. Where the call unlocks the mutex while it is free, which C++ leaves undefined, the
  -- description says so in the mutex and goes on as if nothing had come of it.
  pub code_handler-IsObeyed :
      (sock : ℕ) (effector : Text) (o : Order) (w : World H)
      → All IsArgument (order_args o)
      → All IsQuotable (order_args o)
      → HasNumeral o
      → IsQuotable effector
      → Map.lookup sock w.online_users ≡ some effector
      → IsSound (abs view w)
      → IsObeyed sock effector o (abs view w) (lift_abs view (code_handler exec (order sock o) w))
  code_handler-IsObeyed sock effector o w good clean numeral user online h =
      rw (code_handler-case_of exec sock effector w online o good)
        (case_of-IsObeyed sock effector o w clean numeral user h)
