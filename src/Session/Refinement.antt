-- ===== src/Session/Refinement.antt =====
-- A session on the database is a session on the tables.
use server_ilist.Prelude.{◌≡◌, true, refl, ap, ◌∙◌, List, [], ◌∷◌, All}
use server_ilist.Exception.{thrown, standard, out_of_bounds, deadlock, Outcome, ok, fails}
use server_ilist.Action.{Action}
use server_ilist.World.{World}
use server_ilist.Database.{Engine}
use server_ilist.Sqlite.{Implements}
use server_ilist.Sqlite.Schema.{Tables}
use server_ilist.Sqlite.Spelled.{IsQuotable, IsNumeral}
use server_ilist.Sqlite.Refines.{lift_abs, Refines, Refines-pure, ◌⊳◌}
use server_ilist.Lists.{is_number}
use server_ilist.Users.Accounts.{
  register_on_tables, login_on_tables, register-Refines, login-Refines,
}
use server_ilist.Groups.Spec.{
  remove_group_on_tables, add_user_on_tables, remove_user_on_tables, set_user_status_on_tables,
}
use server_ilist.Groups.Refinement.{
  remove_group-Refines, add_user-Refines, remove_user-Refines, set_user_status-Refines,
}
use server_ilist.Lists.Spec.{add_item_on_tables, remove_item_on_tables, update_item_on_tables}
use server_ilist.Lists.Refinement.{add_item-Refines, remove_item-Refines, update_item-Refines}
use server_ilist.Session.{
  Call, register, login, remove_group, add_user, remove_user, set_user_status, add_item,
  remove_item, update_item, perform, settle, attempt, session,
}

-- The calls on the tables.
abbrev pub on_tables : Call → Action (World Tables) Unit
on_tables (register name password) = register_on_tables name password
on_tables (login sock name password) = login_on_tables sock name password
on_tables (remove_group effector code) = remove_group_on_tables effector code
on_tables (add_user effector code name status) = add_user_on_tables effector code name status
on_tables (remove_user effector code name) = remove_user_on_tables effector code name
on_tables (set_user_status effector code name status) =
    set_user_status_on_tables effector code name status
on_tables (add_item effector code item quantity remarks) =
    add_item_on_tables effector code item quantity remarks
on_tables (remove_item effector code item) = remove_item_on_tables effector code item
on_tables (update_item effector code key name quantity remarks) =
    update_item_on_tables effector code key name quantity remarks

-- The arguments are spelled as the literals that they seem to be.
abbrev pub IsSpelled : Call → Type 0
IsSpelled (register name password) = IsQuotable name × IsQuotable password
IsSpelled (login sock name password) = IsQuotable name × IsQuotable password
IsSpelled (remove_group effector code) = IsQuotable effector × IsNumeral code
IsSpelled (add_user effector code name status) =
    IsQuotable effector × IsNumeral code × IsQuotable name × IsQuotable status
IsSpelled (remove_user effector code name) = IsQuotable effector × IsNumeral code × IsQuotable name
IsSpelled (set_user_status effector code name status) =
    IsQuotable effector × IsNumeral code × IsQuotable name × IsQuotable status
IsSpelled (add_item effector code item quantity remarks) =
    IsQuotable effector × IsNumeral code × IsQuotable item × IsNumeral quantity × IsQuotable remarks
IsSpelled (remove_item effector code item) = IsQuotable effector × IsNumeral code × IsQuotable item
IsSpelled (update_item effector code key name quantity remarks) =
    IsQuotable effector
    × IsNumeral code
    × IsQuotable key
    × IsQuotable name
    × (is_number quantity ≡ true → IsNumeral quantity)
    × IsQuotable remarks

module _ {H : Type 0} {exec : Engine H} {view : H → Tables} (law : Implements exec view) where
  pub perform-Refines : (c : Call) → IsSpelled c → Refines view (perform exec c) (on_tables c)
  perform-Refines (register name password) (n, p) = register-Refines law name password n p
  perform-Refines (login sock name password) (n, p) = login-Refines law sock name password n p
  perform-Refines (remove_group effector code) (e, c) = remove_group-Refines law effector code e c
  perform-Refines (add_user effector code name status) (e, c, n, s) =
      add_user-Refines law effector code name status e c n s
  perform-Refines (remove_user effector code name) (e, c, n) =
      remove_user-Refines law effector code name e c n
  perform-Refines (set_user_status effector code name status) (e, c, n, s) =
      set_user_status-Refines law effector code name status e c n s
  perform-Refines (add_item effector code item quantity remarks) (e, c, i, q, r) =
      add_item-Refines law effector code item e c i quantity remarks q r
  perform-Refines (remove_item effector code item) (e, c, i) =
      remove_item-Refines law effector code item e c i
  perform-Refines (update_item effector code key name quantity remarks) (e, c, k, n, q, r) =
      update_item-Refines law effector code key e c k name quantity remarks n q r

  pub settle-lift_abs :
      {A : Type 0} (r : Outcome A × World H) → lift_abs view (settle r) ≡ settle (lift_abs view r)
  settle-lift_abs (ok a, w) = refl
  settle-lift_abs (fails (thrown ex), w) = refl
  settle-lift_abs (fails standard, w) = refl
  settle-lift_abs (fails out_of_bounds, w) = refl
  settle-lift_abs (fails deadlock, w) = refl

  attempt-Refines :
      {A : Type 0} {m : Action (World H) A} {m' : Action (World Tables) A}
      → Refines view m m'
      → Refines view (attempt m) (attempt m')
  unfolding attempt
  attempt-Refines {m = m} r = record { at = λ w. settle-lift_abs (m w) ∙ ap settle (r.at w) }

  -- Calls one after another, on a database whose library behaves as documented and with arguments
  -- that are spelled as literals, answer what the calls on the tables answer, and leave the tables
  -- and the rest of the state as they do, from whatever state they start.
  pub session-Refines :
      (cs : List Call)
      → All IsSpelled cs
      → Refines view (session (perform exec) cs) (session on_tables cs)
  session-Refines [] h = Refines-pure []
  session-Refines (c ∷ cs) (h, hs) = attempt-Refines (perform-Refines c h) ⊳ λ answer.
      session-Refines cs hs ⊳ λ answers. Refines-pure _
