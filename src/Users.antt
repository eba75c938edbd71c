-- ===== src/Users.antt =====
-- ServerIList/Users.cpp: accounts in the database, and the two maps of who is online.
pub mod Online
pub mod Accounts
pub mod Entry
use server_ilist.Prelude.{
  ℕ, Bool, true, false, not, ◌&&◌, Option, none, some, List, [], ◌∷◌, ◌++◌, length, leb,
}
use server_ilist.Text.{Text, lit}
use server_ilist.Exception.{
  invalid_username_or_password, wrong_username_or_password, user_not_avilable, ok,
}
use server_ilist.Action.{Action, pure, throw, gets, when, modify, ◌>>=◌, ◌>>◌}
use server_ilist.World.{World}
use server_ilist.Map
use server_ilist.Map.{socket_key, text_key}
use server_ilist.Database.{Engine, query, is_empty}

abbrev pub max_username_length : ℕ
max_username_length = 20

abbrev pub min_username_length : ℕ
min_username_length = 4

abbrev pub max_password_length : ℕ
max_password_length = 20

abbrev pub min_password_length : ℕ
min_password_length = 6

unfoldable pub is_valid_username : ℕ → Bool
is_valid_username len = leb min_username_length len && leb len max_username_length

unfoldable pub is_valid_password : ℕ → Bool
is_valid_password len = leb min_password_length len && leb len max_password_length

abbrev pub is_some : {A : Type 0} → Option A → Bool
is_some none = false
is_some (some a) = true

-- `size()` as a condition
abbrev pub has_entries : {A : Type 0} → List A → Bool
has_entries [] = false
has_entries (x ∷ xs) = true

-- `map::operator[]` inserts a default value at a missing key: an empty name, a socket 0.
module _ {H : Type 0} where
  -- `getUsername`: `online_users[sock]`
  unfoldable pub get_username : ℕ → Action (World H) Text
  get_username sock w = elim (Map.lookup sock w.online_users) [
    | none ↦ (ok [], record w { online_users = Map.insert sock [] w.online_users })
    | some name ↦ (ok name, w)
  ]

  -- `getSock`: `online_users_opposite[username]`
  unfoldable pub get_sock : Text → Action (World H) ℕ
  get_sock username w = elim (Map.lookup username w.online_users_opposite) [
    | none ↦
        (ok 0, record w { online_users_opposite = Map.insert username 0 w.online_users_opposite })
    | some sock ↦ (ok sock, w)
  ]

  -- `isLogin` of a socket
  unfoldable pub is_login : ℕ → World H → Bool
  is_login sock w = is_some (Map.lookup sock w.online_users)

  -- `isLogin` of a username
  unfoldable pub is_login_name : Text → World H → Bool
  is_login_name username w = is_some (Map.lookup username w.online_users_opposite)

  unfoldable pub add : ℕ → Text → World H → World H
  add sock username w = record w {
    online_users = Map.insert sock username w.online_users;
    online_users_opposite = Map.insert username sock w.online_users_opposite;
  }

  unfoldable pub remove : ℕ → Text → World H → World H
  remove sock username w = record w {
    online_users = Map.erase sock w.online_users;
    online_users_opposite = Map.erase username w.online_users_opposite;
  }

  -- `Logout` of a socket
  unfoldable pub logout : ℕ → Action (World H) Unit
  unfolding get_username remove
  logout sock = do username ← get_username sock; modify (remove sock username)

  -- `Logout` of a username
  unfoldable pub logout_name : Text → Action (World H) Unit
  unfolding get_sock remove
  logout_name username = do sock ← get_sock username; modify (remove sock username)

module _ {H : Type 0} (exec : Engine H) where
  unfoldable pub login : ℕ → Text → Text → Action (World H) Unit
  unfolding is_valid_username is_valid_password is_login is_login_name add
  login sock username password = do
    when (not (is_valid_username (length username) && is_valid_password (length password)))
        (throw invalid_username_or_password)
    data_ ← query exec (
        lit "select * from Users where username = '"
        ++ (username ++ (lit "' and password = '" ++ (password ++ lit "';"))))
    when (is_empty data_) (throw wrong_username_or_password)
    some_online ← gets (λ w. has_entries w.online_users)
    here ← gets (is_login sock)
    elsewhere ← gets (is_login_name username)
    when (some_online && (not here && elsewhere)) (throw user_not_avilable)
    modify (add sock username)

  unfoldable pub register : Text → Text → Action (World H) Unit
  unfolding is_valid_username is_valid_password
  register username password = do
    when (not (is_valid_username (length username) && is_valid_password (length password)))
        (throw invalid_username_or_password)
    data_ ← query exec (lit "select * from Users where username = '" ++ (username ++ lit "';"))
    when (not (is_empty data_)) (throw user_not_avilable)
    query exec
        (lit "INSERT INTO Users VALUES('" ++ (username ++ (lit "','" ++ (password ++ lit "');"))))
    pure tt

  unfoldable pub is_exist : Text → Action (World H) Bool
  is_exist username = do
    data_ ← query exec (lit "SELECT * FROM Users WHERE username ='" ++ (username ++ lit "';"))
    pure (not (is_empty data_))
