-- ===== src/Manager/Cases.antt =====
-- A message about a group comes through the parser, the guard and the switch to its case.
use server_ilist.Prelude.{
  ℕ, ◌≡◌, refl, ◌∙◌, ap, not, any, Bool-cases, inl, inr, some, [], ◌∷◌, arith, All,
}
use server_ilist.Text.{Text}
use server_ilist.Exception.{Outcome, fails, thrown, wrong_username}
use server_ilist.Action.{Action, ◌>>=◌, ◌>>◌, when, throw}
use server_ilist.Config.{
  find_msg_code, gr_create_group, gr_invite_user, gr_remove_user, gr_set_status, gr_close_group,
}
use server_ilist.World.{World}
use server_ilist.Map
use server_ilist.Map.{socket_key}
use server_ilist.Database.{Engine}
use server_ilist.Parser.Spelling.{IsArgument}
use server_ilist.Sqlite.{Implements}
use server_ilist.Sqlite.Schema.{Tables, is_account}
use server_ilist.Sqlite.Language.{sql, answer, select_exists}
use server_ilist.Sqlite.Effect.{effect}
use server_ilist.Sqlite.Spelled.{IsQuotable}
use server_ilist.Sqlite.Refines.{abs, lift_abs, asked, query-answer, view-asked}
use server_ilist.Users.{is_exist}
use server_ilist.Users.Accounts.{is_empty-taken}
use server_ilist.Manager.Handlers.{code_handler, switch}
use server_ilist.Manager.Arrival.{code_handler-switch}
use server_ilist.Manager.Orders.{
  Order, creating, inviting, dismissing, rating, closing, order, order_args, case_of,
  unless_unknown,
}

module _ {H : Type 0} (exec : Engine H) (sock : ℕ) (effector : Text) (w : World H)
    (online : Map.lookup sock w.online_users ≡ some effector) where
  pub code_handler-case_of :
      (o : Order)
      → All IsArgument (order_args o)
      → code_handler exec (order sock o) w ≡ case_of exec sock effector o w
  unfolding switch find_msg_code
  code_handler-case_of (creating name) =
      code_handler-switch exec sock effector w online gr_create_group (name ∷ []) refl (omega arith)
  code_handler-case_of (inviting code username status) =
      code_handler-switch exec sock effector w online gr_invite_user (code ∷ username ∷ status ∷ [])
        refl (omega arith)
  code_handler-case_of (dismissing code username) =
      code_handler-switch exec sock effector w online gr_remove_user (code ∷ username ∷ []) refl
        (omega arith)
  code_handler-case_of (rating code username status) =
      code_handler-switch exec sock effector w online gr_set_status (code ∷ username ∷ status ∷ [])
        refl (omega arith)
  code_handler-case_of (closing code) =
      code_handler-switch exec sock effector w online gr_close_group (code ∷ []) refl (omega arith)

module _ {H : Type 0} {exec : Engine H} {view : H → Tables} (law : Implements exec view)
    (username : Text) (clean : IsQuotable username) where
  -- The world after the question whether there is such a user.
  abbrev pub acquainted : World H → World H
  acquainted w = asked law (select_exists username) w

  pub abs-acquainted : (w : World H) → abs view (acquainted w) ≡ abs view w
  unfolding effect
  abs-acquainted w =
      λ i. record (abs view w) { db = view-asked law (select_exists username) w clean refl i }

  -- The question whether there is such a user, before a call.
  pub is_exist_first :
      (m : Action (World H) Unit) (m' : World Tables → Outcome Unit × World Tables) (w : World H)
      → lift_abs view (m (acquainted w)) ≡ m' (abs view (acquainted w))
      → lift_abs view
          ((is_exist exec username >>= λ exists. when (not exists) (throw wrong_username) >> m) w)
        ≡ unless_unknown username (m' (abs view w)) (abs view w)
  unfolding is_exist ◌>>=◌ sql answer
  is_exist_first m m' w k =
      rw
        (
          query-answer law (select_exists username) w clean,
          is_empty-taken username (view w.db).users,
        )
        (elim (Bool-cases (any (is_account username) (view w.db).users)) [
          | inl known ↦ rw known (k ∙ ap m' (abs-acquainted w))
          | inr unknown ↦ rw unknown (λ i. (fails (thrown wrong_username), abs-acquainted w i))
        ])
