-- ===== src/Manager/Welcome.antt =====
-- What a new member of a group is shown (the loops of the case GR_INVITE_USER of
-- ServerIList/Manager.cpp).
use server_ilist.Prelude.{
  ◌≡◌, refl, ap, ◌∙◌, Bool-cases, Option-cases, inl, inr, List, [], ◌∷◌, map, All,
}
use server_ilist.Text.{Text, text_eq}
use server_ilist.Exception.{ok}
use server_ilist.Action.{◌>>=◌}
use server_ilist.Config.{pgm_ctr_new_user, lst_scc_add_item}
use server_ilist.World.{World}
use server_ilist.Map
use server_ilist.Map.{text_key}
use server_ilist.Database.{Engine}
use server_ilist.Sqlite.{Implements}
use server_ilist.Sqlite.Schema.{Tables, Member, Item}
use server_ilist.Sqlite.Language.{member_row, item_row}
use server_ilist.Sqlite.Spelled.{IsQuotable}
use server_ilist.Sqlite.Refines.{abs, lift_abs}
use server_ilist.Manager.{make_receive, try_send}
use server_ilist.Manager.Handlers.{send_members, send_items}
use server_ilist.Manager.Delivery.{deliver, deliver_all, try_send-deliver}
use server_ilist.Manager.Telling.{make_receive-IsQuotable}
use server_ilist.Manager.Literals.{HasLiterals}
use server_ilist.Manager.Orders.{show_members, show_items}

module _ {H : Type 0} {exec : Engine H} {view : H → Tables} (law : Implements exec view)
    (username : Text) (name : IsQuotable username) where
  pub send_members-show :
      (ms : List Member) (w : World H)
      → All HasLiterals ms
      → lift_abs view (send_members exec username (map member_row ms) w)
        ≡ (ok tt, show_members username ms (abs view w))
  unfolding send_members ◌>>=◌
  send_members-show [] w h = refl
  send_members-show (m ∷ ms) w (h, hs) = elim (Bool-cases (text_eq username m.username)) [
    | inl same ↦ rw same (send_members-show ms w hs)
    | inr other ↦
        let message = make_receive pgm_ctr_new_user (member_row m) in
        let literal = make_receive-IsQuotable pgm_ctr_new_user (member_row m) h in
        let e = try_send-deliver law message literal username w name in
        let w' = (try_send exec username message w).1 in
        rw other (
          rw (ap (λ p. p.0) e) (
            send_members-show ms w' hs
            ∙ ap (λ t. (ok tt, show_members username ms t)) (ap (λ p. p.1) e)))
  ]

  pub send_items-show :
      (is : List Item) (w : World H)
      → All (λ (i : Item). All IsQuotable (item_row i)) is
      → lift_abs view (send_items exec username (map item_row is) w)
        ≡ (ok tt, show_items username is (abs view w))
  unfolding send_items ◌>>=◌
  send_items-show [] w h = refl
  send_items-show (i ∷ is) w (h, hs) =
      let message = make_receive lst_scc_add_item (item_row i) in
      let literal = make_receive-IsQuotable lst_scc_add_item (item_row i) h in
      let e = try_send-deliver law message literal username w name in
      let w' = (try_send exec username message w).1 in
      rw (ap (λ p. p.0) e)
        (send_items-show is w' hs ∙ ap (λ t. (ok tt, show_items username is t)) (ap (λ p. p.1) e))

-- A message that is delivered changes no list.
deliver-items :
    (message name : Text) (w : World Tables) → (deliver message name w).db.items ≡ w.db.items
deliver-items message name w = elim (Option-cases (Map.lookup name w.online_users_opposite)) [
  | inl away ↦ rw (away, deliver) refl
  | inr (sock, here) ↦ rw (here, deliver) refl
]

pub deliver_all-items :
    (message : Text) (ms : List Member) (w : World Tables)
    → (deliver_all message ms w).db.items ≡ w.db.items
deliver_all-items message [] w = refl
deliver_all-items message (m ∷ ms) w =
    deliver_all-items message ms (deliver message m.username w) ∙ deliver-items message m.username w

pub show_members-items :
    (username : Text) (ms : List Member) (w : World Tables)
    → (show_members username ms w).db.items ≡ w.db.items
show_members-items username [] w = refl
show_members-items username (m ∷ ms) w = elim (Bool-cases (text_eq username m.username)) [
  | inl same ↦ rw (same, show_members) (show_members-items username ms w)
  | inr other ↦
      rw (other, show_members)
        (show_members-items username ms
            (deliver (make_receive pgm_ctr_new_user (member_row m)) username w)
          ∙ deliver-items (make_receive pgm_ctr_new_user (member_row m)) username w)
]
