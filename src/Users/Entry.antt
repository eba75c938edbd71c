-- ===== src/Users/Entry.antt =====
-- Logging in after registering (ServerIList/Users.cpp).
use server_ilist.Prelude.{ℕ, ◌≡◌, refl, true, false, List, [], ◌∷◌, ◌++◌, any, ap, ◌∙◌, arith}
use server_ilist.Text.{Text, text_eq, text_eq_iff}
use server_ilist.Exception.{ok, fails, thrown, wrong_username_or_password}
use server_ilist.World.{World}
use server_ilist.Database.{Engine}
use server_ilist.Sqlite.{Implements}
use server_ilist.Sqlite.Schema.{Tables, Account, is_account}
use server_ilist.Sqlite.Spelled.{IsQuotable}
use server_ilist.Sqlite.Refines.{abs, lift_abs}
use server_ilist.Users.{login, register, is_login, is_login_name, add}
use server_ilist.Users.Accounts.{
  is_valid, is_taken, is_elsewhere, opens, registered, logged_in, register_outcome, login_outcome,
}

module _ (username password : Text) where
  accepted_new :
      (xs : List Account)
      → any
          (opens username password)
          (xs ++ record { username = username; password = password } ∷ [])
        ≡ true
  accepted_new [] = ground (arith, text_eq_iff username username, text_eq_iff password password)
  accepted_new (x ∷ xs) = ground (arith, accepted_new xs)

  refused_other :
      (other : Text) (xs : List Account)
      → any (is_account username) xs ≡ false
      → text_eq password other ≡ false
      → any (opens username other) (xs ++ record { username = username; password = password } ∷ [])
        ≡ false
  refused_other other [] h d = ground (arith, text_eq_iff username username)
  refused_other other (x ∷ xs) h d = ground (arith, refused_other other xs)

module _ (sock : ℕ) (username password : Text) (w : World Tables)
    (new : is_taken username w.db ≡ false) where
  logged_in_new :
      is_valid username password ≡ true
      → is_elsewhere sock username w ≡ false
      → logged_in sock username password (registered username password w).1
        ≡ (ok tt, add sock username (registered username password w).1)
  unfolding logged_in registered is_login is_login_name
  logged_in_new good alone =
      rw (good, new, accepted_new username password w.db.users) (rw alone refl)

  logged_in_other :
      (other : Text)
      → text_eq password other ≡ false
      → is_valid username password ≡ true
      → is_valid username other ≡ true
      → logged_in sock username other (registered username password w).1
        ≡ (fails (thrown wrong_username_or_password), (registered username password w).1)
  unfolding logged_in registered is_login is_login_name
  logged_in_other other d good fine =
      rw (good, new) (rw (fine, refused_other username password other w.db.users new d) refl)

module _ {H : Type 0} {exec : Engine H} {view : H → Tables} (law : Implements exec view) where
  -- Who registers a new name can log in: with arguments that are spelled as literals and have the
  -- lengths that are asked for, a name that is not taken and not online at another socket, the
  -- login with the password succeeds and adds the socket and the name to the maps, and a login with
  -- another password is refused.
  pub login-register :
      (sock : ℕ) (username password other : Text) (w : World H)
      → IsQuotable username
      → IsQuotable password
      → IsQuotable other
      → is_taken username (view w.db) ≡ false
      → is_valid username password ≡ true
      → is_valid username other ≡ true
      → text_eq password other ≡ false
      → is_elsewhere sock username w ≡ false
      → (lift_abs view (login exec sock username password (register exec username password w).1)
          ≡ (ok tt, add sock username (abs view (register exec username password w).1)))
        × (lift_abs view (login exec sock username other (register exec username password w).1) ≡ (
          fails (thrown wrong_username_or_password),
          abs view (register exec username password w).1,
        ))
  unfolding is_login is_login_name
  login-register sock username password other w clean secret wrong new good fine differ alone =
      let e = ap (λ p. p.1) (register_outcome law username password w clean secret) in
      let w' = (register exec username password w).1 in
      (
        login_outcome law sock username password w' clean secret
            ∙ rw e (logged_in_new sock username password (abs view w) new good alone),
        login_outcome law sock username other w' clean wrong
            ∙ rw e (logged_in_other sock username password (abs view w) new other differ good fine),
      )
