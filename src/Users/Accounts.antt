-- ===== src/Users/Accounts.antt =====
-- Registering and logging in (`Register` and `Login` of ServerIList/Users.cpp), on the tables.
use server_ilist.Prelude.{
  ℕ, ◌≡◌, refl, Bool, false, not, ◌&&◌, Bool-cases, inl, inr, List, [], ◌∷◌, ◌++◌, select, any, map,
  length, ◌∙◌, arith, if◌then◌else◌, none,
}
use server_ilist.Text.{Text, text_eq}
use server_ilist.Exception.{
  Outcome, ok, fails, thrown, invalid_username_or_password, wrong_username_or_password,
  user_not_avilable,
}
use server_ilist.Action.{Action, ◌>>=◌, ◌>>◌, throw, when, gets, modify, pure}
use server_ilist.World.{World}
use server_ilist.Database.{Engine, is_empty}
use server_ilist.Map.{text_key, socket_key}
use server_ilist.Sqlite.{Implements}
use server_ilist.Sqlite.Schema.{Tables, Account, is_account, find}
use server_ilist.Sqlite.Language.{
  answer, sql, select_login, select_register, insert_account, account_row,
}
use server_ilist.Sqlite.Effect.{effect}
use server_ilist.Sqlite.Spelled.{IsQuotable}
use server_ilist.Sqlite.Refines.{
  run, abs, lift_abs, Refines, ◌⊳◌, Refines-pure, Refines-fail, Refines-when, Refines-query,
  Refines-gets, Refines-modify,
}
use server_ilist.Users.{
  login, register, is_login, is_login_name, add, has_entries, is_valid_username, is_valid_password,
}

abbrev pub is_valid : Text → Text → Bool
is_valid username password =
    is_valid_username (length username) && is_valid_password (length password)

unfoldable pub login_on_tables : ℕ → Text → Text → Action (World Tables) Unit
login_on_tables sock username password = do
  when (not (is_valid username password)) (throw invalid_username_or_password)
  data_ ← run (select_login username password)
  when (is_empty data_) (throw wrong_username_or_password)
  some_online ← gets (λ w. has_entries w.online_users)
  here ← gets (is_login sock)
  elsewhere ← gets (is_login_name username)
  when (some_online && (not here && elsewhere)) (throw user_not_avilable)
  modify (add sock username)

unfoldable pub register_on_tables : Text → Text → Action (World Tables) Unit
register_on_tables username password = do
  when (not (is_valid username password)) (throw invalid_username_or_password)
  data_ ← run (select_register username)
  when (not (is_empty data_)) (throw user_not_avilable)
  run (insert_account username password)
  pure tt

abbrev pub is_taken : Text → Tables → Bool
is_taken username t = any (is_account username) t.users

abbrev pub opens : Text → Text → Account → Bool
opens username password a = is_account username a && text_eq a.password password

-- Is there an account of this name with this password?
abbrev pub is_accepted : Text → Text → Tables → Bool
is_accepted username password t = any (opens username password) t.users

-- Is somebody online, the socket not, and the name at another socket?
abbrev pub is_elsewhere : {H : Type 0} → ℕ → Text → World H → Bool
is_elsewhere sock username w =
    has_entries w.online_users && (not (is_login sock w) && is_login_name username w)

abbrev with_account : Text → Text → Tables → Tables
with_account username password t = record t {
  users = t.users ++ record { username = username; password = password } ∷ [];
}

unfoldable pub registered : Text → Text → World Tables → Outcome Unit × World Tables
registered username password w =
    if is_valid username password
    then if is_taken username w.db
      then (fails (thrown user_not_avilable), w)
      else (ok tt, record w { db = with_account username password w.db })
    else (fails (thrown invalid_username_or_password), w)

unfoldable pub logged_in : ℕ → Text → Text → World Tables → Outcome Unit × World Tables
logged_in sock username password w =
    if is_valid username password
    then if is_accepted username password w.db
      then if is_elsewhere sock username w
        then (fails (thrown user_not_avilable), w)
        else (ok tt, add sock username w)
      else (fails (thrown wrong_username_or_password), w)
    else (fails (thrown invalid_username_or_password), w)

module _ (username : Text) where
  pub is_empty-taken :
      (xs : List Account)
      → is_empty (map account_row (select (is_account username) xs))
        ≡ not (any (is_account username) xs)
  is_empty-taken [] = refl
  is_empty-taken (x ∷ xs) = ground (arith, is_empty-taken xs)

  is_empty-accepted :
      (password : Text) (xs : List Account)
      → is_empty (
          map account_row
            (select (λ a. text_eq a.password password) (select (is_account username) xs)))
        ≡ not (any (opens username password) xs)
  is_empty-accepted password [] = refl
  is_empty-accepted password (x ∷ xs) = ground (arith, is_empty-accepted password xs)

  find-untaken :
      (xs : List Account)
      → any (is_account username) xs ≡ false
      → find (is_account username) xs ≡ none
  unfolding find
  find-untaken [] h = refl
  find-untaken (x ∷ xs) h = ground (arith, find-untaken xs)

module _ (username password : Text) (w : World Tables) where
  pub register-tables : register_on_tables username password w ≡ registered username password w
  unfolding register_on_tables registered ◌>>=◌ run answer effect
  register-tables = elim (Bool-cases (is_valid username password)) [
    | inr bad ↦ rw bad refl
    | inl good ↦
        rw (good, is_empty-taken username w.db.users)
          (elim (Bool-cases (is_taken username w.db)) [
            | inl taken ↦ rw taken refl
            | inr new ↦ rw (new, find-untaken username w.db.users new) refl
          ])
  ]

  pub login-tables :
      (sock : ℕ) → login_on_tables sock username password w ≡ logged_in sock username password w
  unfolding login_on_tables logged_in ◌>>=◌ run answer effect
  login-tables sock = elim (Bool-cases (is_valid username password)) [
    | inr bad ↦ rw bad refl
    | inl good ↦
        rw (good, is_empty-accepted username password w.db.users)
          (elim (Bool-cases (is_accepted username password w.db)) [
            | inr wrong ↦ rw wrong refl
            | inl right ↦ rw right (elim (Bool-cases (is_elsewhere sock username w)) [
              | inl away ↦ rw away refl
              | inr free ↦ rw free refl
            ])
          ])
  ]

module _ {H : Type 0} {exec : Engine H} {view : H → Tables} (law : Implements exec view) where
  pub register-Refines :
      (username password : Text)
      → IsQuotable username
      → IsQuotable password
      → Refines view (register exec username password) (register_on_tables username password)
  unfolding register register_on_tables sql
  register-Refines username password clean secret = Refines-when _ (Refines-fail _) ⊳ λ _.
      Refines-query law (select_register username) clean ⊳ λ data_.
      Refines-when _ (Refines-fail _) ⊳ λ _.
      Refines-query law (insert_account username password) (clean, secret) ⊳ λ _. Refines-pure _

  pub login-Refines :
      (sock : ℕ) (username password : Text)
      → IsQuotable username
      → IsQuotable password
      → Refines view (login exec sock username password) (login_on_tables sock username password)
  unfolding login login_on_tables sql is_login is_login_name add
  login-Refines sock username password clean secret = Refines-when _ (Refines-fail _) ⊳ λ _.
      Refines-query law (select_login username password) (clean, secret) ⊳ λ data_.
      Refines-when _ (Refines-fail _) ⊳ λ _. Refines-gets _ _ (λ w. refl) ⊳ λ some_online.
      Refines-gets _ _ (λ w. refl) ⊳ λ here. Refines-gets _ _ (λ w. refl) ⊳ λ elsewhere.
      Refines-when _ (Refines-fail _) ⊳ λ _. Refines-modify _ _ (λ w. refl)

  -- Registering with arguments that are spelled as literals: a name or a password of a wrong length
  -- and a name that is taken are refused, and nothing changes; otherwise there is one more account.
  pub register_outcome :
      (username password : Text) (w : World H)
      → IsQuotable username
      → IsQuotable password
      → lift_abs view (register exec username password w)
        ≡ registered username password (abs view w)
  register_outcome username password w clean secret =
      (register-Refines username password clean secret).at w
      ∙ register-tables username password (abs view w)

  -- Logging in with arguments that are spelled as literals: a name or a password of a wrong length,
  -- one that is not in the accounts, and a name that is online at another socket, from a socket
  -- that is not online, are refused, and nothing changes; otherwise the two maps have the socket
  -- and the name.
  pub login_outcome :
      (sock : ℕ) (username password : Text) (w : World H)
      → IsQuotable username
      → IsQuotable password
      → lift_abs view (login exec sock username password w)
        ≡ logged_in sock username password (abs view w)
  login_outcome sock username password w clean secret =
      (login-Refines sock username password clean secret).at w
      ∙ login-tables username password (abs view w) sock
