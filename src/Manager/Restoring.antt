-- ===== src/Manager/Restoring.antt =====
-- A message that asks for a restore (the case RE_RESTORE of ServerIList/Manager.cpp), from end to end.
use server_ilist.Prelude.{
  ℕ, ◌≡◌, ◌≤◌, ◌<◌, ◌^◌, refl, sym, ap, ◌∙◌, true, Bool-cases, inl, inr, some, List, [], ◌∷◌, All,
  arith,
}
use server_ilist.Text.{Text, text_eq_iff}
use server_ilist.Text.Number.{nat_to_string}
use server_ilist.Exception.{Outcome, ok}
use server_ilist.Action.{◌>>=◌}
use server_ilist.Config.{re_restore, find_msg_code}
use server_ilist.World.{World}
use server_ilist.Map
use server_ilist.Map.{socket_key, text_key}
use server_ilist.Messages.{new_message}
use server_ilist.Database.{Engine}
use server_ilist.Users.{is_login_name}
use server_ilist.Server.{send, send_message}
use server_ilist.Restore.{build_restore_message}
use server_ilist.Restore.Rendering.{Entry, IsComplete, restore_text}
use server_ilist.Restore.Build.{IsKnown, build_restore_message-restore_text}
use server_ilist.Restore.Frame.{rest_of, build_restore_message-HasRest}
use server_ilist.Sqlite.{Implements}
use server_ilist.Sqlite.Schema.{Tables, Member, Group, has_code, of_user, find}
use server_ilist.Sqlite.Spelled.{IsQuotable}
use server_ilist.Session.Foreign.{has_group, members_of}
use server_ilist.History.Books.{IsConsistent}
use server_ilist.Manager.{make_receive, try_send}
use server_ilist.Manager.Handlers.{code_handler, switch, on_restore}
use server_ilist.Manager.Arrival.{code_handler-switch}
use server_ilist.Manager.Delivery.{get_sock-found}
use server_ilist.Manager.Literals.{All-select}

-- The row of a group that is there.
found-group :
    (n : ℕ) (code : Text) (gs : List Group)
    → All (λ (g : Group). g.code < n) gs
    → has_group code gs ≡ true
    → (g : Group) × (find (has_code code) gs ≡ some g)
      × (code ≡ nat_to_string g.code)
      × (g.code < n)
unfolding find
found-group n code [] below h = absurd (cc h)
found-group n code (g ∷ gs) (b, below) h = elim (Bool-cases (has_code code g)) [
  | inl e ↦ (g, rw e refl, sym ((text_eq_iff (nat_to_string g.code) code).0 e), b)
  | inr e ↦
      let there : has_group code gs ≡ true = ground arith in
      let (g', here, same, b') = found-group n code gs below there in (g', rw e here, same, b')
]

All-IsKnown :
    (t : Tables) (ms : List Member)
    → IsConsistent t
    → t.next_code ≤ 2 ^ 63
    → members_of t.groups ms ≡ true
    → All (IsKnown t) ms
All-IsKnown t [] books room h = tt
All-IsKnown t (m ∷ ms) books room h =
    let (g, here, same, b) =
      found-group t.next_code m.group_code t.groups books.below (ground arith) in
    (((g.code, same, omega (arith, b, room)), g, here), All-IsKnown t ms books room (ground arith))

-- The user is sent at the socket the text for these memberships, which are all of the user's, and no
-- table changes.
pub record IsRestored {H : Type 0} (view : H → Tables) (user : Text) (target : ℕ) (w : World H)
    (es : List Entry) (r : Outcome Unit × World H) : Type 0 where
  pub complete : IsComplete (view w.db) user es
  pub succeeds : r.0 ≡ ok tt
  pub unchanged : view r.1.db ≡ view w.db
  pub sent : r.1.server ≡ send target (restore_text (view w.db) es) w.server

module _ {H : Type 0} {exec : Engine H} {view : H → Tables} (law : Implements exec view)
    (effector : Text) (user : IsQuotable effector) (target : ℕ) (w : World H)
    (here : Map.lookup effector w.online_users_opposite ≡ some target)
    (books : IsConsistent (view w.db)) (room : (view w.db).next_code ≤ 2 ^ 63) where
  on_restore-IsRestored :
      (es : List Entry) × IsRestored view effector target w es (on_restore exec effector [] w)
  unfolding on_restore ◌>>=◌ try_send is_login_name send_message
  on_restore-IsRestored =
      let known =
        All-select (IsKnown (view w.db)) (of_user effector) (view w.db).members
          (All-IsKnown (view w.db) (view w.db).members books room books.rooted.0) in
      let (es, complete, rendered) = build_restore_message-restore_text law effector w user known in
      let text = restore_text (view w.db) es in
      let w' = (build_restore_message exec effector w).1 in
      let kept = (build_restore_message-HasRest exec (rest_of w) effector).at w refl in
      let online : Map.lookup effector w'.online_users_opposite ≡ some target =
        ap (λ r. Map.lookup effector r.1) kept ∙ here in
      (
        es,
        rw rendered.text_out (
            rw online (
              rw (get_sock-found effector target w' online) (record {
                complete = complete;
                succeeds = refl;
                unchanged = rendered.unchanged;
                sent = ap (λ r. send target text r.4) kept;
              }))),
      )

  -- A message from a socket that is online that asks for a restore, on consistent tables whose codes
  -- SQLite can hold, with a library that behaves as documented, for a user whose name is spelled as
  -- a literal and who is online at a socket: the call succeeds, no table changes, and the user is
  -- sent at that socket the rendering of all the user's groups with their members and items, each
  -- row once. The groups, the members of each and its items come in some order.
  pub code_handler-IsRestored :
      (sock : ℕ)
      → Map.lookup sock w.online_users ≡ some effector
      → (es : List Entry) × IsRestored view effector target w es
          (code_handler exec (new_message (make_receive re_restore []) sock) w)
  unfolding switch find_msg_code
  code_handler-IsRestored sock online =
      rw (code_handler-switch exec sock effector w online re_restore [] refl (omega arith) tt)
        on_restore-IsRestored
