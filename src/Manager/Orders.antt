-- ===== src/Manager/Orders.antt =====
-- What a client may ask of a group (the cases GR_CREATE_GROUP, GR_INVITE_USER, GR_REMOVE_USER,
-- GR_SET_STATUS and GR_CLOSE_GROUP of ServerIList/Manager.cpp), and what becomes of it on the tables.
use mathlib.Core.List.{Permᴰ}
use server_ilist.Prelude.{
  ◌≡◌, ℕ, pos, negsuc, ◌+ℤ◌, false, not, any, Option, none, some, List, [], ◌∷◌, select,
  if◌then◌else◌,
}
use server_ilist.Text.{Text, text_eq}
use server_ilist.Text.Number.{nat_to_string, wrap_int}
use server_ilist.Exception.{Outcome, ok, fails, thrown, wrong_username, no_such_user_in_the_group}
use server_ilist.Action.{Action, after}
use server_ilist.Config.{
  gr_create_group, gr_invite_user, gr_remove_user, gr_set_status, gr_close_group,
  pgm_scc_acte_created, pgm_ctr_new_user, pgm_ctr_user_leave, pgm_ctr_status_changed,
  pgm_ctr_group_closed, lst_scc_add_item,
}
use server_ilist.World.{World, Message}
use server_ilist.Database.Permissions.{permission_of, is_authorized, admin}
use server_ilist.Database.{Engine}
use server_ilist.Server.{send}
use server_ilist.Sqlite.Schema.{Tables, Member, Item, Group, in_group, listed_in, is_account}
use server_ilist.Sqlite.Language.{member_row, item_row}
use server_ilist.Groups.Lookups.{member_of, group_of}
use server_ilist.Groups.Counting.{count_of}
use server_ilist.Groups.Close.{without_group}
use server_ilist.Groups.Members.{refusal, unless_refused, without_member, with_status}
use server_ilist.Groups.Invite.{answer_to, overlooked, grants_nothing, invited, with_member}
use server_ilist.Groups.Create.{created}
use server_ilist.Manager.{make_receive, make_receive_text}
use server_ilist.Manager.Handlers.{
  on_create_group, on_invite_user, on_remove_user, on_set_status, on_close_group,
}
use server_ilist.Manager.Delivery.{deliver, deliver_all}
use server_ilist.Manager.Telling.{then_tell}

-- What a client asks for, with the arguments in the order of the message.
pub data Order : Type 0 where
  creating : Text → Order
  inviting : Text → Text → Text → Order
  dismissing : Text → Text → Order
  rating : Text → Text → Text → Order
  closing : Text → Order

abbrev pub order_args : Order → List Text
order_args (creating name) = name ∷ []
order_args (inviting code username status) = code ∷ username ∷ status ∷ []
order_args (dismissing code username) = code ∷ username ∷ []
order_args (rating code username status) = code ∷ username ∷ status ∷ []
order_args (closing code) = code ∷ []

abbrev pub order_code : Order → ℕ
order_code (creating name) = gr_create_group
order_code (inviting code username status) = gr_invite_user
order_code (dismissing code username) = gr_remove_user
order_code (rating code username status) = gr_set_status
order_code (closing code) = gr_close_group

-- The message of the client.
abbrev pub order : ℕ → Order → Message
order sock o = record { message = make_receive (order_code o) (order_args o); socket = sock }

-- The case of the switch.
abbrev pub case_of : {H : Type 0} → Engine H → ℕ → Text → Order → Action (World H) Unit
case_of exec sock effector (creating name) = on_create_group exec sock effector (name ∷ [])
case_of exec sock effector (inviting code username status) =
    on_invite_user exec effector (code ∷ username ∷ status ∷ [])
case_of exec sock effector (dismissing code username) =
    on_remove_user exec effector (code ∷ username ∷ [])
case_of exec sock effector (rating code username status) =
    on_set_status exec effector (code ∷ username ∷ status ∷ [])
case_of exec sock effector (closing code) = on_close_group exec effector (code ∷ [])

-- Nothing is done about a user who has no account.
abbrev pub unless_unknown :
    Text → Outcome Unit × World Tables → World Tables → Outcome Unit × World Tables
unless_unknown username r w =
    if any (is_account username) w.db.users then r else (fails (thrown wrong_username), w)

abbrev pub removed : Text → Text → Text → World Tables → Outcome Unit × World Tables
removed effector code username w =
    unless_refused (refusal effector code username w.db)
      (without_member code username (wrap_int (pos (count_of code w.db.members) +ℤ negsuc 0))) w

abbrev pub added : Text → Text → Text → Text → World Tables → Outcome Unit × World Tables
added effector code username status w =
    let n = pos (count_of code w.db.members) in
    invited
      (answer_to (member_of code effector w.db) n (member_of code username w.db)
        (grants_nothing status))
      (overlooked (member_of code effector w.db) n (member_of code username w.db))
      (with_member code username status (wrap_int (n +ℤ pos 1))) w

-- The world after a member closed the group.
abbrev pub closed : Text → Member → World Tables → World Tables
closed code m w = record w {
  db = without_group code w.db;
  groups_mtx = record {
    held = false;
    misused = not (is_authorized (permission_of m.status) admin);
  };
}

-- The same with the messages to those who were its members, if it was a member who asked.
abbrev pub closed_and_told :
    Text → List Member → Text → Option Member → World Tables → Outcome Unit × World Tables
closed_and_told message ms code none w = (fails (thrown (no_such_user_in_the_group [])), w)
closed_and_told message ms code (some m) w = (ok tt, deliver_all message ms (closed code m w))

-- One more message, to one user, when all went well.
abbrev pub then_deliver : Text → Text → Outcome Unit × World Tables → Outcome Unit × World Tables
then_deliver username message r = after r.0 (λ u w. (ok tt, deliver message username w)) r.1

-- The members that were there before are shown to the new one.
abbrev pub show_members : Text → List Member → World Tables → World Tables
show_members username [] w = w
show_members username (m ∷ ms) w = show_members username ms (
    if text_eq username m.username
    then w
    else deliver (make_receive pgm_ctr_new_user (member_row m)) username w)

-- And the items.
abbrev pub show_items : Text → List Item → World Tables → World Tables
show_items username [] w = w
show_items username (i ∷ is) w =
    show_items username is (deliver (make_receive lst_scc_add_item (item_row i)) username w)

-- What the members get and what the new member gets, once it is one. The name of the group comes
-- second in the message.
abbrev pub welcomed :
    List Member → List Item → Text → Text → Text → Group → World Tables → World Tables
welcomed ms is code username status g w = show_items username is (
    show_members username ms
      (deliver_all (make_receive pgm_ctr_new_user (code ∷ g.name ∷ username ∷ status ∷ [])) ms w))

abbrev pub then_welcome :
    List Member
    → List Item
    → Text
    → Text
    → Text
    → Outcome Unit × World Tables
    → Outcome Unit × World Tables
then_welcome ms is code username status r =
    after r.0
      (λ u w. elim (group_of code w.db) [
        | none ↦ (ok tt, w)
        | some g ↦ (ok tt, welcomed ms is code username status g w)
      ])
      r.1

abbrev pub rated : Text → Text → Text → Text → World Tables → Outcome Unit × World Tables
rated effector code username status w =
    unless_refused (refusal effector code username w.db) (with_status code username status) w

-- What becomes of an order, when the members to tell and the items to show come in these orders.
-- After a member was removed, the last message goes to the code of the group, as if it were a user.
abbrev pub obeyed :
    ℕ → Text → Order → List Member → List Item → World Tables → Outcome Unit × World Tables
obeyed sock effector (creating name) ms is w =
    let w' = created name effector w in
    (
      ok tt,
      record w' {
        server =
            send sock (make_receive_text pgm_scc_acte_created (nat_to_string w.db.next_code))
              w'.server;
      },
    )
obeyed sock effector (inviting code username status) ms is w =
    unless_unknown username
      (then_welcome ms is code username status (added effector code username status w)) w
obeyed sock effector (dismissing code username) ms is w =
    let message = make_receive pgm_ctr_user_leave (code ∷ username ∷ []) in
    unless_unknown username
      (then_deliver code message (then_tell ms message (removed effector code username w))) w
obeyed sock effector (rating code username status) ms is w =
    let message = make_receive pgm_ctr_status_changed (code ∷ username ∷ status ∷ []) in
    unless_unknown username (then_tell ms message (rated effector code username status w)) w
obeyed sock effector (closing code) ms is w =
    closed_and_told (make_receive pgm_ctr_group_closed (code ∷ [])) ms code
      (member_of code effector w.db) w

-- Who is told: those who were the members before a closing, and who are the members after any other
-- call on the group.
abbrev pub audience : Text → Order → World Tables → List Member
audience effector (creating name) w = []
audience effector (inviting code username status) w =
    select (in_group code) (added effector code username status w).1.db.members
audience effector (dismissing code username) w =
    select (in_group code) (removed effector code username w).1.db.members
audience effector (rating code username status) w =
    select (in_group code) (rated effector code username status w).1.db.members
audience effector (closing code) w = select (in_group code) w.db.members

-- The items that a new member is shown.
abbrev pub goods : Order → World Tables → List Item
goods (creating name) w = []
goods (inviting code username status) w = select (listed_in code) w.db.items
goods (dismissing code username) w = []
goods (rating code username status) w = []
goods (closing code) w = []

-- An outcome is what becomes of an order: each of those who are to be told is told once, in some
-- order, and each item to be shown is shown once, in some order.
pub record IsObeyed (sock : ℕ) (effector : Text) (o : Order) (w : World Tables)
    (r : Outcome Unit × World Tables) : Type 0 where
  pub told : List Member
  pub shown : List Item
  pub told_all : Permᴰ told (audience effector o w)
  pub shown_all : Permᴰ shown (goods o w)
  pub result : r ≡ obeyed sock effector o told shown w
