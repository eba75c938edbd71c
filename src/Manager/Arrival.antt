-- ===== src/Manager/Arrival.antt =====
-- A message that makeReceiveMessgae could have built, from a socket that is online, comes through the
-- parser, the guard and getUsername to the switch.
use server_ilist.Prelude.{ℕ, ◌≡◌, ◌≤◌, refl, some, pos, true, List, All}
use server_ilist.Text.{Text}
use server_ilist.Text.Number.{int_max}
use server_ilist.Exception.{ok}
use server_ilist.Action.{◌>>=◌}
use server_ilist.Config.{find_msg_code}
use server_ilist.World.{World}
use server_ilist.Map
use server_ilist.Map.{socket_key}
use server_ilist.Database.{Engine}
use server_ilist.Parser.Spelling.{IsArgument}
use server_ilist.Parser.RoundTrip.{parse-make_receive}
use server_ilist.Users.{is_login, get_username}
use server_ilist.Messages.{new_message}
use server_ilist.Manager.{make_receive}
use server_ilist.Manager.Handlers.{code_handler, handle_parsed, switch}

module _ {H : Type 0} (exec : Engine H) (sock : ℕ) (effector : Text) (w : World H)
    (online : Map.lookup sock w.online_users ≡ some effector) where
  get_username-found : get_username sock w ≡ (ok effector, w)
  unfolding get_username
  get_username-found = rw (online, get_username) refl

  pub code_handler-switch :
      (code : ℕ) (args : List Text)
      → find_msg_code (pos code) ≡ true
      → code ≤ int_max
      → All IsArgument args
      → code_handler exec (new_message (make_receive code args) sock) w
        ≡ switch exec (pos code) sock effector args w
  unfolding code_handler handle_parsed ◌>>=◌ is_login
  code_handler-switch code args known small good =
      rw (parse-make_receive code args known small good) (rw online (rw get_username-found refl))
