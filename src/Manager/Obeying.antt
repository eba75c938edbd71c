-- ===== src/Manager/Obeying.antt =====
-- The cases GR_CREATE_GROUP, GR_REMOVE_USER and GR_SET_STATUS of ServerIList/Manager.cpp, from the
-- arguments to what becomes of them on the tables.
use mathlib.Core.List.Permᴰ
use server_ilist.Prelude.{◌≡◌, refl, ap, sym, subst, ◌∙◌, [], ◌∷◌, ℕ}
use server_ilist.Text.{Text}
use server_ilist.Text.Number.{nat_to_string}
use server_ilist.Exception.{ok}
use server_ilist.Action.{Action, ◌>>=◌, ◌>>◌, bind_assoc}
use server_ilist.Config.{pgm_ctr_user_leave, pgm_ctr_status_changed, pgm_scc_acte_created}
use server_ilist.World.{World}
use server_ilist.Database.{Engine}
use server_ilist.Database.Mutex.{free}
use server_ilist.Server.{send_message}
use server_ilist.Sqlite.{Implements}
use server_ilist.Sqlite.Schema.{Tables}
use server_ilist.Sqlite.Spelled.{IsQuotable, IsNumeral}
use server_ilist.Sqlite.Follows.{same-bind}
use server_ilist.Sqlite.Refines.{abs, lift_abs}
use server_ilist.Groups.{create_group, remove_user, set_user_status, get_all_users_in_group}
use server_ilist.Groups.Members.{refusal, set_user_status_outcome}
use server_ilist.Groups.Refinement.{remove_user-Refines}
use server_ilist.History.Room.{IsReady, IsReady-IsFresh}
use server_ilist.Groups.Create.{created, created_on_database}
use server_ilist.History.Outcomes.{remove_user_consistent}
use server_ilist.Manager.{make_receive, make_receive_text, try_send, send_to_all}
use server_ilist.Manager.Handlers.{on_create_group, on_remove_user, on_set_status}
use server_ilist.Manager.Delivery.{deliver, try_send-deliver}
use server_ilist.Manager.Telling.{
  then_tell, telling, followed, make_receive-IsQuotable, members_listed, members_listed-Permᴰ,
}
use server_ilist.Manager.Literals.{
  AreLiterals, AreQuotable-in, HasLiterals-unless_refused, HasLiterals-with_status,
  HasLiterals-without_member,
}
use server_ilist.Manager.Cases.{is_exist_first, acquainted, abs-acquainted}
use server_ilist.Manager.Orders.{
  removed, rated, then_deliver, IsObeyed, creating, dismissing, rating,
}

-- The tables are consistent and have room for a group, their texts are literals, and the mutex of
-- the groups is free.
pub record IsSound (w : World Tables) : Type 0 where
  pub ready : IsReady 1 w
  pub literals : AreLiterals w.db
  pub unlocked : w.groups_mtx ≡ free

module _ {H : Type 0} {exec : Engine H} {view : H → Tables} (law : Implements exec view)
    (effector : Text) (user : IsQuotable effector) where
  pub create-IsObeyed :
      (sock : ℕ) (name : Text) (w : World H)
      → IsQuotable name
      → IsSound (abs view w)
      → IsObeyed sock effector
          (creating name)
          (abs view w)
          (lift_abs view (on_create_group exec sock effector (name ∷ []) w))
  unfolding on_create_group ◌>>=◌ send_message
  create-IsObeyed sock name w named h =
      let e =
        created_on_database law name effector w named user h.ready.dated
          (ap (λ m. m.held) h.unlocked) (IsReady-IsFresh 0 (abs view w) h.ready) in
      record {
        told = [];
        shown = [];
        told_all = Permᴰ.nil;
        shown_all = Permᴰ.nil;
        result =
            same-bind view (create_group exec name effector)
              (λ x. (ok (nat_to_string x.db.next_code), created name effector x)) _
              (λ res. send_message sock (make_receive_text pgm_scc_acte_created res)) w e
              (λ code v moved. refl);
      }

  module _ (code username : Text) (numeral : IsNumeral code) (clean : IsQuotable code)
      (name : IsQuotable username) where
    rated-eq :
        (status : Text) (v : World H)
        → IsQuotable status
        → IsSound (abs view v)
        → lift_abs view (set_user_status exec effector code username status v)
          ≡ rated effector code username status (abs view v)
    rated-eq status v rights h =
        set_user_status_outcome law effector code username status v user numeral name rights
          h.unlocked

    status_told :
        (status : Text) (v : World H)
        → IsQuotable status
        → IsSound (abs view v)
        → let message = make_receive pgm_ctr_status_changed (code ∷ username ∷ status ∷ []) in
          let m = set_user_status exec effector code username status in
          lift_abs view ((m >>= λ _. telling exec code message) v)
          ≡ then_tell
              (members_listed law code (m v).1)
              message
              (rated effector code username status (abs view v))
    status_told status v rights h =
        let message = make_receive pgm_ctr_status_changed (code ∷ username ∷ status ∷ []) in
        let e = rated-eq status v rights h in
        followed law code _ numeral
          (make_receive-IsQuotable pgm_ctr_status_changed (code ∷ username ∷ status ∷ [])
            (clean, (name, (rights, tt))))
          (set_user_status exec effector code username status) v
          (rw (ap (λ p. p.1.db.members) e) (
            AreQuotable-in code _ (
              HasLiterals-unless_refused (refusal effector code username (view v.db)) _ (abs view v)
                (HasLiterals-with_status code username (view v.db) h.literals.members status rights)
                h.literals.members)))
        ∙ ap
            (then_tell
              (members_listed law code (set_user_status exec effector code username status v).1)
              message)
            e

    pub set_status-IsObeyed :
        (sock : ℕ) (status : Text) (w : World H)
        → IsQuotable status
        → IsSound (abs view w)
        → IsObeyed sock effector
            (rating code username status)
            (abs view w)
            (lift_abs view (on_set_status exec effector (code ∷ username ∷ status ∷ []) w))
    unfolding on_set_status ◌>>=◌
    set_status-IsObeyed sock status w rights h =
        let message = make_receive pgm_ctr_status_changed (code ∷ username ∷ status ∷ []) in
        let v = acquainted law username name w in
        let same = abs-acquainted law username name w in
        let sound = subst IsSound (sym same) h in
        let m = set_user_status exec effector code username status in
        let ms = members_listed law code (m v).1 in
        record {
          told = ms;
          shown = [];
          told_all = members_listed-Permᴰ law code (m v).1 _ (
              ap (λ p. p.1.db.members) (rated-eq status v rights sound)
              ∙ ap (λ x. (rated effector code username status x).1.db.members) same);
          shown_all = Permᴰ.nil;
          result =
              is_exist_first law username name (m >>= λ _. telling exec code message)
                (λ x. then_tell ms message (rated effector code username status x)) w
                (status_told status v rights sound);
        }

    removed-eq :
        (v : World H)
        → IsSound (abs view v)
        → lift_abs view (remove_user exec effector code username v)
          ≡ removed effector code username (abs view v)
    removed-eq v h =
        (remove_user-Refines law effector code username user numeral name).at v
        ∙ remove_user_consistent effector code username (abs view v) h.unlocked h.ready.consistent

    removed_told :
        (v : World H)
        → IsSound (abs view v)
        → let message = make_receive pgm_ctr_user_leave (code ∷ username ∷ []) in
          let m = remove_user exec effector code username in
          lift_abs view ((m >>= λ _. telling exec code message) v)
          ≡ then_tell
              (members_listed law code (m v).1)
              message
              (removed effector code username (abs view v))
    removed_told v h =
        let message = make_receive pgm_ctr_user_leave (code ∷ username ∷ []) in
        let e = removed-eq v h in
        followed law code _ numeral
          (make_receive-IsQuotable pgm_ctr_user_leave (code ∷ username ∷ []) (clean, (name, tt)))
          (remove_user exec effector code username) v
          (rw (ap (λ p. p.1.db.members) e) (
            AreQuotable-in code _ (
              HasLiterals-unless_refused (refusal effector code username (view v.db)) _ (abs view v)
                (HasLiterals-without_member code username (view v.db) h.literals.members _)
                h.literals.members)))
        ∙ ap
            (then_tell (members_listed law code (remove_user exec effector code username v).1)
              message)
            e

    -- The last message goes out after the others.
    told_and_sent :
        (v : World H)
        → IsSound (abs view v)
        → let message = make_receive pgm_ctr_user_leave (code ∷ username ∷ []) in
          let m = remove_user exec effector code username in
          lift_abs view
            (((m >>= λ _. telling exec code message) >>= λ _. try_send exec code message) v)
          ≡ then_deliver code message (
              then_tell
                (members_listed law code (m v).1)
                message
                (removed effector code username (abs view v)))
    unfolding ◌>>=◌
    told_and_sent v h =
        let message = make_receive pgm_ctr_user_leave (code ∷ username ∷ []) in
        let m = remove_user exec effector code username in
        same-bind view (m >>= λ _. telling exec code message)
          (λ x.
            then_tell (members_listed law code (m v).1) message (removed effector code username x))
          (λ _. try_send exec code message) (λ u x. (ok tt, deliver message code x)) v
          (removed_told v h)
          (λ u v' moved.
            try_send-deliver law message
              (make_receive-IsQuotable pgm_ctr_user_leave (code ∷ username ∷ [])
                (clean, (name, tt)))
              code v' clean)

    pub remove-IsObeyed :
        (sock : ℕ) (w : World H)
        → IsSound (abs view w)
        → IsObeyed sock effector
            (dismissing code username)
            (abs view w)
            (lift_abs view (on_remove_user exec effector (code ∷ username ∷ []) w))
    unfolding on_remove_user ◌>>=◌
    remove-IsObeyed sock w h =
        let message = make_receive pgm_ctr_user_leave (code ∷ username ∷ []) in
        let last : Unit → Action (World H) Unit = λ _. try_send exec code message in
        let m = remove_user exec effector code username in
        let v = acquainted law username name w in
        let same = abs-acquainted law username name w in
        let sound = subst IsSound (sym same) h in
        let ms = members_listed law code (m v).1 in
        record {
          told = ms;
          shown = [];
          told_all = members_listed-Permᴰ law code (m v).1 _ (
              ap (λ p. p.1.db.members) (removed-eq v sound)
              ∙ ap (λ x. (removed effector code username x).1.db.members) same);
          shown_all = Permᴰ.nil;
          result =
              is_exist_first law username name
                (do
                  m
                  data_ ← get_all_users_in_group exec code
                  send_to_all exec data_ message
                  try_send exec code message)
                (λ x.
                  then_deliver code message
                    (then_tell ms message (removed effector code username x)))
                w
                (ap (lift_abs view) (
                    sym (
                      bind_assoc (λ _. telling exec code message) last m v ∙ (λ i.
                        (m >>= λ _ s.
                        bind_assoc (λ rows. send_to_all exec rows message) last
                          (get_all_users_in_group exec code) s i)
                          v)))
                  ∙ told_and_sent v sound);
        }
