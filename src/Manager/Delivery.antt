-- ===== src/Manager/Delivery.antt =====
-- Who gets a message that is sent to all of a group (`trySend` and `sendToAll` of
-- ServerIList/Manager.cpp).
use server_ilist.Prelude.{
  ℕ, ◌≡◌, refl, inl, inr, List, [], ◌∷◌, ◌++◌, map, ap, ◌∙◌, none, some, Option-cases, All,
}
use server_ilist.Text.{Text}
use server_ilist.Exception.{ok}
use server_ilist.Action.{◌>>=◌, ◌>>◌, pure}
use server_ilist.World.{World}
use server_ilist.Map
use server_ilist.Map.{socket_key, text_key}
use server_ilist.Database.{Engine, query}
use server_ilist.Users.{is_login_name, get_sock}
use server_ilist.Server.{send_message, send}
use server_ilist.Sqlite.{Implements}
use server_ilist.Sqlite.Schema.{Tables, Member}
use server_ilist.Sqlite.Language.{sql, insert_packet, member_row}
use server_ilist.Sqlite.Effect.{effect}
use server_ilist.Sqlite.Spelled.{IsQuotable}
use server_ilist.Sqlite.Refines.{abs, lift_abs, Refines, ◌⊳◌, run, Refines-query, Refines-pure}
use server_ilist.Manager.{try_send, send_to_all}

-- What becomes of a message to a user: it goes out on the user's socket, or it is stored.
abbrev pub deliver : Text → Text → World Tables → World Tables
deliver message name w = elim (Map.lookup name w.online_users_opposite) [
  | some sock ↦ record w { server = send sock message w.server }
  | none ↦ record w {
    db = record w.db {
      packets = w.db.packets ++ record { username = name; message = message } ∷ [];
    };
  }
]

abbrev pub deliver_all : Text → List Member → World Tables → World Tables
deliver_all message [] w = w
deliver_all message (m ∷ ms) w = deliver_all message ms (deliver message m.username w)

pub get_sock-found :
    {H : Type 0} (name : Text) (sock : ℕ) (w : World H)
    → Map.lookup name w.online_users_opposite ≡ some sock
    → get_sock name w ≡ (ok sock, w)
unfolding get_sock
get_sock-found name sock w here = rw (here, get_sock)

module _ {H : Type 0} {exec : Engine H} {view : H → Tables} (law : Implements exec view)
    (message : Text) (literal : IsQuotable message) where
  store-Refines :
      (name : Text)
      → IsQuotable name
      → Refines view
          (do query exec (sql (insert_packet name message)); pure tt)
          (do run (insert_packet name message); pure tt)
  store-Refines name clean =
      Refines-query law (insert_packet name message) (clean, literal) ⊳ λ _. Refines-pure tt

  stored :
      (name : Text) (w : World H)
      → IsQuotable name
      → lift_abs view ((do query exec (sql (insert_packet name message)); pure tt) w) ≡ (
        ok tt,
        record (abs view w) {
          db = record (view w.db) {
            packets = (view w.db).packets ++ record { username = name; message = message } ∷ [];
          };
        },
      )
  stored name w clean =
      (store-Refines name clean).at w ∙ (unfold run in unfold effect in unfold ◌>>=◌ in refl)

  pub try_send-deliver :
      (name : Text) (w : World H)
      → IsQuotable name
      → lift_abs view (try_send exec name message w) ≡ (ok tt, deliver message name (abs view w))
  unfolding try_send ◌>>=◌ is_login_name get_sock send_message sql
  try_send-deliver name w clean = elim (Option-cases (Map.lookup name w.online_users_opposite)) [
    | inl away ↦ rw away (stored name w clean ∙ rw (away, deliver) refl)
    | inr (sock, here) ↦ rw here (rw (get_sock-found name sock w here) (rw (here, deliver) refl))
  ]

  -- A message to all of a group, for names and a message that are spelled as literals: in the order
  -- of the rows, each member who is online gets it on the member's own socket, and for each other
  -- it is stored in the database.
  pub send_to_all-deliver_all :
      (members : List Member) (w : World H)
      → All (λ (m : Member). IsQuotable m.username) members
      → lift_abs view (send_to_all exec (map member_row members) message w)
        ≡ (ok tt, deliver_all message members (abs view w))
  unfolding send_to_all ◌>>=◌
  send_to_all-deliver_all [] w clean = refl
  send_to_all-deliver_all (m ∷ ms) w (clean, rest) =
      let e = try_send-deliver m.username w clean in
      let w' = (try_send exec m.username message w).1 in
      rw (ap (λ p. p.0) e) (
        send_to_all-deliver_all ms w' rest
        ∙ ap (λ t. (ok tt, deliver_all message ms t)) (ap (λ p. p.1) e))
