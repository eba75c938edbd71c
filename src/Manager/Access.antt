-- ===== src/Manager/Access.antt =====
-- Who may send what (`code_handler` of ServerIList/Manager.cpp).
use server_ilist.Prelude.{
  ℕ, ◌≡◌, refl, true, arith, pos, ◌⊎◌, inl, inr, [], Option-cases, Bool-cases, List,
}
use server_ilist.Text.{Text}
use server_ilist.Exception.{Outcome, ok, fails}
use server_ilist.Action.{Action, ◌>>=◌, modify, after}
use server_ilist.Action.Keeps.{Keeps, ◌⊳◌, Keeps-pure, Keeps-fail, Keeps-gets, Keeps-if, Keeps-when}
use server_ilist.Config.{en_register, en_login}
use server_ilist.Parser.{Parser}
use server_ilist.World.{World}
use server_ilist.Map
use server_ilist.Map.{socket_key, text_key}
use server_ilist.Database.{Engine, query}
use server_ilist.Users.{is_login, get_username, add, login, register, get_sock}
use server_ilist.Server.{send_message}
use server_ilist.Manager.{try_send}
use server_ilist.Manager.Handlers.{handle_parsed, switch, on_register, on_login}

module _ {H : Type 0} (sock : ℕ) where
  abbrev pub IsOnline : World H → Type 0
  IsOnline w = is_login sock w ≡ true

  pub get_username-IsOnline : (w : World H) → IsOnline (get_username sock w).1
  unfolding get_username is_login
  get_username-IsOnline w = elim (Option-cases (Map.lookup sock w.online_users)) [
    | inl e ↦ rw (e, get_username) (ground (arith, Map.lookup-insert sock sock [] w.online_users))
    | inr (name, e) ↦ rw (e, get_username) (rw e refl)
  ]

  Keeps-query : (exec : Engine H) (sql : Text) → Keeps IsOnline (query exec sql)
  unfolding query is_login
  Keeps-query exec sql = record { at = λ w h. h }

  Keeps-send : (s : ℕ) (message : Text) → Keeps IsOnline (send_message s message)
  unfolding send_message is_login
  Keeps-send s message = record { at = λ w h. h }

  Keeps-get_sock : (name : Text) → Keeps IsOnline (get_sock name)
  unfolding get_sock is_login
  Keeps-get_sock name = record { at = λ w h. ground arith }

  Keeps-add : (name : Text) → Keeps IsOnline (modify (add sock name))
  unfolding add is_login ◌>>=◌
  Keeps-add name = record {
    at = λ w h. ground (arith, Map.lookup-insert sock sock name w.online_users);
  }

module _ {H : Type 0} (exec : Engine H) (sock : ℕ) where
  Keeps-try_send : (name message : Text) → Keeps (IsOnline sock) (try_send exec name message)
  unfolding try_send
  Keeps-try_send name message = Keeps-gets _ ⊳ λ online.
      Keeps-if online (Keeps-get_sock sock name ⊳ λ s. Keeps-send sock s message)
        (Keeps-query sock exec _ ⊳ λ _. Keeps-pure tt)

  Keeps-register : (name password : Text) → Keeps (IsOnline sock) (register exec name password)
  unfolding register
  Keeps-register name password = Keeps-when _ (Keeps-fail _) ⊳ λ _.
      Keeps-query sock exec _ ⊳ λ rows.
      Keeps-when _ (Keeps-fail _) ⊳ λ _. Keeps-query sock exec _ ⊳ λ _. Keeps-pure tt

  Keeps-login : (name password : Text) → Keeps (IsOnline sock) (login exec sock name password)
  unfolding login
  Keeps-login name password = Keeps-when _ (Keeps-fail _) ⊳ λ _. Keeps-query sock exec _ ⊳ λ rows.
      Keeps-when _ (Keeps-fail _) ⊳ λ _. Keeps-gets _ ⊳ λ some_online. Keeps-gets _ ⊳ λ here.
      Keeps-gets _ ⊳ λ elsewhere. Keeps-when _ (Keeps-fail _) ⊳ λ _. Keeps-add sock name

  Keeps-on_register : (args : List Text) → Keeps (IsOnline sock) (on_register exec sock args)
  unfolding on_register
  Keeps-on_register args =
      Keeps-when _ (Keeps-fail _) ⊳ λ _. Keeps-register _ _ ⊳ λ _. Keeps-send sock sock _

  Keeps-on_login : (args : List Text) → Keeps (IsOnline sock) (on_login exec sock args)
  unfolding on_login
  Keeps-on_login args = Keeps-when _ (Keeps-fail _) ⊳ λ _. Keeps-login _ _ ⊳ λ _. Keeps-try_send _ _

  -- What a handler of the two codes keeps, the whole message keeps.
  after_get_username :
      (m : Text → Action (World H) Unit)
      → ((name : Text) → Keeps (IsOnline sock) (m name))
      → (w : World H) → IsOnline sock ((get_username sock >>= m) w).1
  unfolding ◌>>=◌
  after_get_username m km w =
      kept (get_username sock w).0 (get_username sock w).1 (get_username-IsOnline sock w)
    where
      kept : (o : Outcome Text) (w : World H) → IsOnline sock w → IsOnline sock (after o m w).1
      kept (ok name) w h = (km name).at w h
      kept (fails f) w h = h

  enter_register :
      (p : Parser) (w : World H)
      → p.msg_code ≡ pos en_register
      → handle_parsed exec sock p w ≡ (get_username sock >>= λ name. on_register exec sock p.args) w
  unfolding handle_parsed ◌>>=◌ switch
  enter_register p w code = elim (Bool-cases (is_login sock w)) [
    | inl e ↦ rw (e, code) refl
    | inr e ↦ rw (e, code) refl
  ]

  pub enter_login :
      (p : Parser) (w : World H)
      → p.msg_code ≡ pos en_login
      → handle_parsed exec sock p w ≡ (get_username sock >>= λ name. on_login exec sock p.args) w
  unfolding handle_parsed ◌>>=◌ switch
  enter_login p w code = elim (Bool-cases (is_login sock w)) [
    | inl e ↦ rw (e, code) refl
    | inr e ↦ rw (e, code) refl
  ]

  -- A registration or a login, from any socket and with any outcome, leaves the socket online: one
  -- whose password was refused passes the guard of every later message.
  pub attempt_opens :
      (p : Parser) (w : World H)
      → (p.msg_code ≡ pos en_register) ⊎ (p.msg_code ≡ pos en_login)
      → is_login sock (handle_parsed exec sock p w).1 ≡ true
  attempt_opens p w (inl e) = rw (enter_register p w e) (
      after_get_username (λ name. on_register exec sock p.args) (λ name. Keeps-on_register p.args)
        w)
  attempt_opens p w (inr e) =
      rw (enter_login p w e)
        (after_get_username (λ name. on_login exec sock p.args) (λ name. Keeps-on_login p.args) w)
