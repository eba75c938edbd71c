-- ===== src/Manager/ListRequests.antt =====
-- A message that changes a list, from its text to the messages that it causes (the cases
-- LST_ADD_ITEM, LST_REMOVE_ITEM and LST_SET_ITEM of ServerIList/Manager.cpp).
use mathlib.Core.List.{Permᴰ}
use server_ilist.Prelude.{List, ℕ, ◌≡◌, refl, some, select, ap, ◌∙◌, arith, All}
use server_ilist.Text.{Text}
use server_ilist.Action.{◌>>=◌}
use server_ilist.Config.{lst_remove_item, find_msg_code}
use server_ilist.World.{World}
use server_ilist.Map
use server_ilist.Map.{socket_key}
use server_ilist.Database.{Engine}
use server_ilist.Database.Mutex.{free}
use server_ilist.Parser.Spelling.{IsArgument}
use server_ilist.Sqlite.{Implements}
use server_ilist.Sqlite.Schema.{Tables, Member, in_group}
use server_ilist.Sqlite.Spelled.{IsQuotable, IsNumeral}
use server_ilist.Sqlite.Refines.{abs, lift_abs}
use server_ilist.Lists.Items.{remove_item_outcome}
use server_ilist.Manager.Arrival.{code_handler-switch}
use server_ilist.Manager.Handlers.{code_handler, switch, on_remove_item}
use server_ilist.Config.{lst_add_item, lst_set_item}
use server_ilist.Lists.Items.{add_item_outcome}
use server_ilist.Lists.Change.{update_item_outcome}
use server_ilist.Manager.Telling.{
  AreQuotable, then_tell, telling, followed, make_receive-IsQuotable, members_listed,
  members_listed-Permᴰ,
}
use server_ilist.Manager.Handlers.{on_add_item, on_set_item}
use server_ilist.Manager.Requests.{
  Request, adding, removing, changing, args_of, group_of, notice_code, request, notice, answered,
  HasNumerals, call, answered-members,
}

module _ {H : Type 0} (exec : Engine H) (sock : ℕ) (effector : Text) (w : World H)
    (online : Map.lookup sock w.online_users ≡ some effector) where
  -- The message comes through the parser, the guard and the switch to its call.
  code_handler-call :
      (r : Request)
      → All IsArgument (args_of r)
      → code_handler exec (request sock r) w
        ≡ (call exec effector r >>= λ _. telling exec (group_of r) (notice r)) w
  unfolding switch on_add_item on_remove_item on_set_item ◌>>=◌ find_msg_code
  code_handler-call (adding code item quantity remarks) =
      code_handler-switch exec sock effector w online lst_add_item
        (args_of (adding code item quantity remarks)) refl (omega arith)
  code_handler-call (removing code item) =
      code_handler-switch exec sock effector w online lst_remove_item (args_of (removing code item))
        refl (omega arith)
  code_handler-call (changing code key name quantity remarks) =
      code_handler-switch exec sock effector w online lst_set_item
        (args_of (changing code key name quantity remarks)) refl (omega arith)

module _ {H : Type 0} {exec : Engine H} {view : H → Tables} (law : Implements exec view) where
  call-answered :
      (effector : Text) (r : Request) (w : World H)
      → All IsQuotable (args_of r)
      → HasNumerals r
      → IsQuotable effector
      → w.lists_mtx ≡ free
      → lift_abs view (call exec effector r w) ≡ answered effector r (abs view w)
  call-answered effector (adding code item quantity remarks) w (c, (i, (q, (n, u))))
        (numeral, number) user unlocked =
      add_item_outcome law effector code item quantity remarks w user numeral i number n unlocked
  call-answered effector (removing code item) w (c, (i, u)) (numeral, t) user unlocked =
      remove_item_outcome law effector code item w user numeral i unlocked
  call-answered effector (changing code key name quantity remarks) w (c, (k, (i, (q, (n, u)))))
        (numeral, number) user unlocked =
      update_item_outcome law effector code key name quantity remarks w user numeral k i number n
        unlocked

  group_of-IsNumeral : (r : Request) → HasNumerals r → IsNumeral (group_of r)
  group_of-IsNumeral (adding code item quantity remarks) h = h.0
  group_of-IsNumeral (removing code item) h = h.0
  group_of-IsNumeral (changing code key name quantity remarks) h = h.0

  -- A message from a user who is online that asks to add, to remove or to change an item, with
  -- arguments that the parser takes and that are spelled as literals, with the names of the group's
  -- members so spelled and the mutex free: the call ends and changes the tables as the outcomes of
  -- the three calls say. When it succeeds, the members of the group, each row once and in some order,
  -- get a message with the same arguments, on the member's socket when online and stored when not;
  -- when it fails, nobody gets one. A change that gives an item the name of another one on the list
  -- succeeds so too, and the members are told of it, though no row is changed.
  pub code_handler-answered :
      (sock : ℕ) (effector : Text) (r : Request) (w : World H)
      → All IsArgument (args_of r)
      → All IsQuotable (args_of r)
      → HasNumerals r
      → IsQuotable effector
      → AreQuotable (select (in_group (group_of r)) (view w.db).members)
      → Map.lookup sock w.online_users ≡ some effector
      → w.lists_mtx ≡ free
      → (ms : List Member) × Permᴰ ms (select (in_group (group_of r)) (view w.db).members)
        × (lift_abs view (code_handler exec (request sock r) w)
            ≡ then_tell ms (notice r) (answered effector r (abs view w)))
  code_handler-answered sock effector r w good clean numerals user names online unlocked =
      let e = call-answered effector r w clean numerals user unlocked in
      let same = ap (λ p. p.1.db.members) e ∙ answered-members effector r (abs view w) in
      let names' : AreQuotable
          (select (in_group (group_of r)) (view (call exec effector r w).1.db).members) =
        rw same names in
      let w' = (call exec effector r w).1 in
      let ms = members_listed law (group_of r) w' in
      (
        ms,
        members_listed-Permᴰ law (group_of r) w' (view w.db).members same,
        ap (λ p. lift_abs view p) (code_handler-call exec sock effector w online r good)
            ∙ (followed law (group_of r) (notice r) (group_of-IsNumeral r numerals)
                  (make_receive-IsQuotable (notice_code r) (args_of r) clean) (call exec effector r)
                  w names'
                ∙ ap (then_tell ms (notice r)) e),
      )
