-- ===== src/Tests/Access.antt =====
-- The theorems on who may send what, for a socket on which nobody is logged in.
use server_ilist.Prelude.{◌≡◌, refl, ◌∷◌, [], pos, true, inr}
use server_ilist.Exception.{ok}
use server_ilist.Config.{en_login}
use server_ilist.Map
use server_ilist.Text.{text_eq, has_char}
use server_ilist.Parser.{Parser}
use server_ilist.Users.{is_login, is_valid_username, is_valid_password}
use server_ilist.Sqlite.Toy.{toy}
use server_ilist.Manager.Handlers.{handle_parsed}
use server_ilist.Manager.Access.{attempt_opens}
use server_ilist.Manager.Takeover.{IsTwice, login_takes_over}
use server_ilist.Users.Online.{IsPaired}
use server_ilist.Sqlite.Toy.Reading.{toy-Implements}
use server_ilist.Tests.Data.{secret, dana, noam, world}

abbrev bad_login : Parser
bad_login = record { message = []; args = dana ∷ noam ∷ []; msg_code = pos en_login }

attempt_opens_example : is_login 8 (handle_parsed toy 8 bad_login world).1 ≡ true
attempt_opens_example = attempt_opens toy 8 bad_login world (inr refl)

-- Dana, who is online at socket 7, logs in from socket 8.
abbrev again : Parser
again = record { message = []; args = dana ∷ secret ∷ []; msg_code = pos en_login }

login_takes_over_example :
    let r = handle_parsed toy 8 again world in (r.0 ≡ ok tt) × IsTwice 8 7 dana r.1 × ¬ IsPaired r.1
unfolding has_char text_eq Map.lookup is_valid_username is_valid_password
login_takes_over_example =
    login_takes_over toy-Implements 8 7 dana secret (refl, refl) (refl, refl) refl refl again world
      refl refl refl refl
