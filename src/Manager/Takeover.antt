-- ===== src/Manager/Takeover.antt =====
-- Logging in from a second socket (`code_handler` of ServerIList/Manager.cpp and `Login` of
-- ServerIList/Users.cpp).
use server_ilist.Prelude.{
  ℕ, ◌≡◌, refl, ap, ◌∙◌, true, false, ◌==◌, pos, Option-cases, inl, inr, some, [], ◌∷◌, arith,
}
use server_ilist.Text.{Text, lit, text_eq_iff}
use server_ilist.Exception.{ok}
use server_ilist.Action.{◌>>=◌}
use server_ilist.Config.{en_login, pgm_scc_login}
use server_ilist.Parser.{Parser}
use server_ilist.World.{World}
use server_ilist.Map
use server_ilist.Map.{socket_key, text_key}
use server_ilist.Database.{Engine}
use server_ilist.Sqlite.{Implements}
use server_ilist.Sqlite.Schema.{Tables}
use server_ilist.Sqlite.Spelled.{IsQuotable}
use server_ilist.Sqlite.Refines.{abs, lift_abs}
use server_ilist.Server.{send_message}
use server_ilist.Users.{is_login, is_login_name, get_username, add, login}
use server_ilist.Users.Accounts.{is_valid, is_accepted, logged_in, login_outcome}
use server_ilist.Users.Online.{IsPaired}
use server_ilist.Manager.{make_receive_text, try_send}
use server_ilist.Manager.Handlers.{handle_parsed, on_login}
use server_ilist.Manager.Delivery.{get_sock-found}
use server_ilist.Manager.Access.{enter_login, get_username-IsOnline}

module _ {H : Type 0} (sock other : ℕ) (name : Text) where
  -- The user is online at both sockets, and the second map knows of one of them.
  pub record IsTwice (w : World H) : Type 0 where
    pub here : Map.lookup sock w.online_users ≡ some name
    pub there : Map.lookup other w.online_users ≡ some name
    pub reached : Map.lookup name w.online_users_opposite ≡ some sock

  IsTwice-unpaired : (w : World H) → (sock == other) ≡ false → IsTwice w → ¬ IsPaired w
  IsTwice-unpaired w apart h paired =
      let e = paired.by_socket other name h.there in ground (arith, h.reached, e, apart)

  -- The map of sockets is asked for the socket's user, and gets an empty name when it has none.
  get_username-other :
      (w : World H)
      → (sock == other) ≡ false
      → Map.lookup other w.online_users ≡ some name
      → let r = get_username sock w in
        (x : Text) × (r.0 ≡ ok x)
        × (r.1.db ≡ w.db)
        × (Map.lookup other r.1.online_users ≡ some name)
  unfolding get_username
  get_username-other w apart h = elim (Option-cases (Map.lookup sock w.online_users)) [
    | inl e ↦
        rw (e, get_username)
          ([], refl, refl, ground (arith, h, apart, Map.lookup-insert sock other [] w.online_users))
    | inr (x, e) ↦ rw (e, get_username) (x, refl, refl, h)
  ]

  add-IsTwice :
      (w : World H)
      → (sock == other) ≡ false
      → Map.lookup other w.online_users ≡ some name
      → IsTwice (add sock name w)
  unfolding add
  add-IsTwice w apart h = record {
    here = ground (arith, Map.lookup-insert sock sock name w.online_users);
    there = ground (arith, h, apart, Map.lookup-insert sock other name w.online_users);
    reached =
        ground
          (arith, Map.lookup-insert name name sock w.online_users_opposite, text_eq_iff name name);
  }

  try_send-IsTwice :
      (exec : Engine H) (message : Text) (w : World H)
      → IsTwice w
      → ((try_send exec name message w).0 ≡ ok tt) × IsTwice (try_send exec name message w).1
  unfolding try_send is_login_name send_message ◌>>=◌
  try_send-IsTwice exec message w h = rw h.reached (
      rw (get_sock-found name sock w h.reached)
        (refl, record { here = h.here; there = h.there; reached = h.reached }))

module _ {H : Type 0} {exec : Engine H} {view : H → Tables} (law : Implements exec view)
    (sock other : ℕ) (name password : Text) (user : IsQuotable name) (secret : IsQuotable password)
    (valid : is_valid name password ≡ true) (apart : (sock == other) ≡ false) where
  login-eq :
      (w : World H)
      → is_login sock w ≡ true
      → is_accepted name password (view w.db) ≡ true
      → lift_abs view (login exec sock name password w) ≡ (ok tt, add sock name (abs view w))
  unfolding logged_in is_login is_login_name
  login-eq w entered accepted =
      login_outcome law sock name password w user secret
      ∙ rw (valid, accepted) (ground (arith, entered))

  on_login-IsTwice :
      (w : World H)
      → is_login sock w ≡ true
      → is_accepted name password (view w.db) ≡ true
      → Map.lookup other w.online_users ≡ some name
      → let r = on_login exec sock (name ∷ password ∷ []) w in
        (r.0 ≡ ok tt) × IsTwice sock other name r.1
  unfolding on_login ◌>>=◌
  on_login-IsTwice w entered accepted h =
      let e = login-eq w entered accepted in
      let twice = add-IsTwice sock other name (abs view w) apart h in
      let there : IsTwice sock other name (login exec sock name password w).1 = record {
        here = ap (λ p. Map.lookup sock p.1.online_users) e ∙ twice.here;
        there = ap (λ p. Map.lookup other p.1.online_users) e ∙ twice.there;
        reached = ap (λ p. Map.lookup name p.1.online_users_opposite) e ∙ twice.reached;
      } in
      rw (ap (λ p. p.0) e)
        (try_send-IsTwice sock other name exec (make_receive_text pgm_scc_login (lit "")) _ there)

  -- A login with a name and its password, both spelled as literals and of the lengths asked for,
  -- from another socket than the one where the user is online: it succeeds. Both sockets then have
  -- the user, who is reached at the new one, and the two maps are not inverse to one another. The
  -- guard of Login against this never holds back anybody, for the socket has been entered in the
  -- map by then.
  pub login_takes_over :
      (p : Parser) (w : World H)
      → p.msg_code ≡ pos en_login
      → p.args ≡ name ∷ password ∷ []
      → is_accepted name password (view w.db) ≡ true
      → Map.lookup other w.online_users ≡ some name
      → let r = handle_parsed exec sock p w in
        (r.0 ≡ ok tt) × IsTwice sock other name r.1 × ¬ IsPaired r.1
  unfolding ◌>>=◌
  login_takes_over p w code args accepted h =
      let (x, named, kept, there) = get_username-other sock other name w apart h in
      let v = (get_username sock w).1 in
      let entered = get_username-IsOnline sock w in
      let accepted' : is_accepted name password (view v.db) ≡ true =
        ap (λ d. is_accepted name password (view d)) kept ∙ accepted in
      let (done, twice) = on_login-IsTwice v entered accepted' there in
      rw (enter_login exec sock p w code, args)
        (rw named (done, twice, IsTwice-unpaired sock other name _ apart twice))
