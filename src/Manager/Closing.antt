-- ===== src/Manager/Closing.antt =====
-- The case GR_CLOSE_GROUP of ServerIList/Manager.cpp, from the argument to what becomes of it on the
-- tables.
use mathlib.Core.List.Permᴰ
use server_ilist.Prelude.{◌≡◌, refl, ap, ◌∙◌, Option-cases, inl, inr, List, [], ◌∷◌, map, ℕ}
use server_ilist.Text.{Text}
use server_ilist.Exception.{Outcome, ok}
use server_ilist.Action.{◌>>=◌}
use server_ilist.Config.{pgm_ctr_group_closed}
use server_ilist.World.{World}
use server_ilist.Database.{Engine}
use server_ilist.Database.Mutex.{free}
use server_ilist.Sqlite.{Implements}
use server_ilist.Sqlite.Schema.{Tables, Member}
use server_ilist.Sqlite.Language.{sql, answer, select_members, member_row}
use server_ilist.Sqlite.Spelled.{IsQuotable, IsNumeral}
use server_ilist.Sqlite.Follows.{same-bind}
use server_ilist.Sqlite.Refines.{abs, lift_abs, asked, query-lists, abs-listed}
use server_ilist.Groups.{remove_group, get_all_users_in_group}
use server_ilist.Groups.Spec.{remove_group_on_tables}
use server_ilist.Groups.Lookups.{member_of}
use server_ilist.Groups.Close.{remove_group_member, remove_group_stranger}
use server_ilist.Groups.Refinement.{remove_group-Refines}
use server_ilist.Manager.{make_receive, send_to_all}
use server_ilist.Manager.Handlers.{on_close_group}
use server_ilist.Manager.Delivery.{deliver_all, send_to_all-deliver_all}
use server_ilist.Manager.Telling.{
  make_receive-IsQuotable, members_listed, members_listed-Permᴰ, AreQuotable-listed,
}
use server_ilist.Manager.Literals.{AreQuotable-in}
use server_ilist.Manager.Orders.{closed_and_told, IsObeyed, closing}
use server_ilist.Manager.Obeying.{IsSound}

module _ {H : Type 0} {exec : Engine H} {view : H → Tables} (law : Implements exec view)
    (effector : Text) (user : IsQuotable effector) where
  module _ (code : Text) (numeral : IsNumeral code) (clean : IsQuotable code) where
    closed_on_tables :
        (message : Text) (ms : List Member) (x : World Tables)
        → x.groups_mtx ≡ free
        → (remove_group_on_tables effector code >>= λ u x'. (ok tt, deliver_all message ms x')) x
          ≡ closed_and_told message ms code (member_of code effector x.db) x
    unfolding ◌>>=◌
    closed_on_tables message ms x unlocked = elim (Option-cases (member_of code effector x.db)) [
      | inl stranger ↦ rw (remove_group_stranger effector code x unlocked stranger, stranger) refl
      | inr (m, member) ↦ rw (remove_group_member effector code x unlocked m member, member) refl
    ]

    -- The members are asked for before the group is closed.
    pub close-IsObeyed :
        (sock : ℕ) (w : World H)
        → IsSound (abs view w)
        → IsObeyed sock effector
            (closing code)
            (abs view w)
            (lift_abs view (on_close_group exec effector (code ∷ []) w))
    unfolding on_close_group ◌>>=◌ get_all_users_in_group answer sql
    close-IsObeyed sock w h =
        let ms = members_listed law code w in
        let message = make_receive pgm_ctr_group_closed (code ∷ []) in
        let v = asked law (select_members code) w in
        let tell_all : World Tables → Outcome Unit × World Tables = λ x.
          (remove_group_on_tables effector code >>= λ u x'. (ok tt, deliver_all message ms x')) x in
        record {
          told = ms;
          shown = [];
          told_all = members_listed-Permᴰ law code w (view w.db).members refl;
          shown_all = Permᴰ.nil;
          result = rw (query-lists law (select_members code) w numeral) (
              same-bind view (remove_group exec effector code)
                (remove_group_on_tables effector code)
                (λ _. send_to_all exec (map member_row ms) message)
                (λ u x. (ok tt, deliver_all message ms x)) v
                ((remove_group-Refines law effector code user numeral).at v)
                (λ u v' moved.
                  send_to_all-deliver_all law message
                    (make_receive-IsQuotable pgm_ctr_group_closed (code ∷ []) (clean, tt)) ms v'
                    (AreQuotable-listed law code w
                      (AreQuotable-in code (view w.db).members h.literals.members)))
              ∙ (ap tell_all (abs-listed law (select_members code) w numeral)
                  ∙ closed_on_tables message ms (abs view w) h.unlocked));
        }
