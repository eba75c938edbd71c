-- ===== src/Users/Online.antt =====
-- Who is online (ServerIList/Users.cpp): the two maps stay inverse to one another when a user
-- logs out.
use server_ilist.Prelude.{ℕ, ◌≡◌, false, some, List, arith}
use server_ilist.Text.{Text, text_eq_iff}
use server_ilist.Exception.{ok}
use server_ilist.Action.{◌>>=◌}
use server_ilist.World.{World}
use server_ilist.Map
use server_ilist.Map.{socket_key, text_key}
use server_ilist.Users.{logout, is_login, is_login_name, remove, get_username}

-- Each socket's user is at that socket, and each user's socket holds that user.
pub record Inverse (m : List (ℕ × Text)) (n : List (Text × ℕ)) : Type 0 where
  pub by_socket :
      (sock : ℕ) (name : Text) → Map.lookup sock m ≡ some name → Map.lookup name n ≡ some sock
  pub by_name :
      (name : Text) (sock : ℕ) → Map.lookup name n ≡ some sock → Map.lookup sock m ≡ some name

abbrev pub IsPaired : {H : Type 0} → World H → Type 0
IsPaired w = Inverse w.online_users w.online_users_opposite

module _ (sock : ℕ) (name : Text) (m : List (ℕ × Text)) (n : List (Text × ℕ))
    (h : Inverse m n) where
  Inverse-erase : Map.lookup sock m ≡ some name → Inverse (Map.erase sock m) (Map.erase name n)
  Inverse-erase here = record {
    by_socket = λ s u e. ground (
      arith,
      Map.lookup-erase sock s m,
      Map.lookup-erase name u n,
      text_eq_iff name u,
      h.by_socket s u,
      h.by_name u s,
      h.by_socket sock name,
    );
    by_name = λ u s e. ground (
      arith,
      Map.lookup-erase sock s m,
      Map.lookup-erase name u n,
      text_eq_iff name u,
      h.by_socket s u,
      h.by_name u s,
      h.by_socket sock name,
    );
  }

module _ {H : Type 0} where
  pub logout-some :
      (sock : ℕ) (name : Text) (w : World H)
      → Map.lookup sock w.online_users ≡ some name
      → logout sock w ≡ (ok tt, remove sock name w)
  unfolding logout ◌>>=◌
  logout-some sock name w here = rw (here, get_username)

module _ {H : Type 0} where
  -- Logging out a socket that has a user keeps the two maps inverse to one another, and afterwards
  -- neither the socket nor its user is online.
  pub logout-IsPaired :
      (sock : ℕ) (name : Text) (w : World H)
      → IsPaired w
      → Map.lookup sock w.online_users ≡ some name
      → IsPaired (logout sock w).1
        × (is_login sock (logout sock w).1 ≡ false)
        × (is_login_name name (logout sock w).1 ≡ false)
  unfolding is_login is_login_name
  logout-IsPaired sock name w h here = rw (logout-some sock name w here) (
      unfold remove in
      (
        Inverse-erase sock name w.online_users w.online_users_opposite h here,
        ground (arith, Map.lookup-erase sock sock w.online_users),
        ground (arith, Map.lookup-erase name name w.online_users_opposite, text_eq_iff name name),
      ))
