-- ===== src/Manager/Serve.antt =====
-- How a message is served (`message_handler` of ServerIList/Manager.cpp).
use server_ilist.Prelude.{
  ℕ, ◌≡◌, refl, sym, subst, false, inl, inr, List, [], ◌∷◌, ◌++◌, drop, All, arith, Option, none,
  some, Option-cases,
}
use server_ilist.Text.{Text, lit}
use server_ilist.Exception.{
  Failure, Outcome, ok, fails, thrown, standard, out_of_bounds, deadlock, what,
}
use server_ilist.Action.{◌>>=◌}
use server_ilist.World.{World, Message}
use server_ilist.Map
use server_ilist.Map.{socket_key, text_key}
use server_ilist.Database.{Engine}
use server_ilist.Users.Online.{logout-some}
use server_ilist.Users.{is_login, remove}
use server_ilist.Server.{send, send_message}
use server_ilist.Manager.Handlers.{code_handler}
use server_ilist.Manager.Threads.{
  forget_socket, forget_sockets, report_failure, message_handler, set_thread,
}

abbrev known_away : {H : Type 0} → ℕ → Option Text → World H → World H
known_away sock none w = w
known_away sock (some name) w = remove sock name w

module _ {H : Type 0} where
  -- The world after a round of the loop.
  abbrev forgotten : ℕ → World H → World H
  forgotten sock w =
      let w' = known_away sock (Map.lookup sock w.online_users) w in
      record w' {
        server = record w'.server { disconnected_sockets = drop 1 w'.server.disconnected_sockets };
      }

  forget_socket-eq : (sock : ℕ) (w : World H) → forget_socket sock w ≡ (ok tt, forgotten sock w)
  unfolding forget_socket ◌>>=◌ is_login
  forget_socket-eq sock w = elim (Option-cases (Map.lookup sock w.online_users)) [
    | inl e ↦ rw e refl
    | inr (name, e) ↦ rw (e, logout-some sock name w e) refl
  ]

  forgotten-offline : (sock : ℕ) (w : World H) → is_login sock (forgotten sock w) ≡ false
  unfolding is_login remove
  forgotten-offline sock w = elim (Option-cases (Map.lookup sock w.online_users)) [
    | inl e ↦ ground arith
    | inr (name, e) ↦ ground (arith, Map.lookup-erase sock sock w.online_users)
  ]

  forgotten-other :
      (sock other : ℕ) (w : World H)
      → is_login other w ≡ false
      → is_login other (forgotten sock w) ≡ false
  unfolding is_login remove
  forgotten-other sock other w h = ground (arith, Map.lookup-erase sock other w.online_users)

  forgotten-queue :
      (sock : ℕ) (w : World H)
      → (forgotten sock w).server.disconnected_sockets ≡ drop 1 w.server.disconnected_sockets
  unfolding remove
  forgotten-queue sock w = ground arith

  forget_sockets-step :
      (sock : ℕ) (gone : List ℕ) (w : World H)
      → forget_sockets (sock ∷ gone) w ≡ forget_sockets gone (forgotten sock w)
  unfolding forget_sockets ◌>>=◌
  forget_sockets-step sock gone w = rw (forget_socket-eq sock w) refl

  forget_sockets-other :
      (other : ℕ) (gone : List ℕ) (w : World H)
      → is_login other w ≡ false
      → is_login other (forget_sockets gone w).1 ≡ false
  unfolding forget_sockets ◌>>=◌
  forget_sockets-other other [] w h = h
  forget_sockets-other other (sock ∷ gone) w h =
      rw (forget_socket-eq sock w)
        (forget_sockets-other other gone (forgotten sock w) (forgotten-other sock other w h))

  pub forget_sockets-ok : (gone : List ℕ) (w : World H) → (forget_sockets gone w).0 ≡ ok tt
  unfolding forget_sockets ◌>>=◌
  forget_sockets-ok [] w = refl
  forget_sockets-ok (sock ∷ gone) w =
      rw (forget_socket-eq sock w) (forget_sockets-ok gone (forgotten sock w))

  -- The queue is empty, and no socket of the list is online.
  abbrev pub AreForgotten : List ℕ → Outcome Unit × World H → Type 0
  AreForgotten gone r =
      (r.0 ≡ ok tt)
      × (r.1.server.disconnected_sockets ≡ [])
      × All (λ sock. is_login sock r.1 ≡ false) gone

  -- The loop over the disconnected sockets comes to an end with the queue empty, and afterwards no
  -- socket that was in it is online.
  pub forget_sockets_done :
      (gone : List ℕ) (w : World H)
      → w.server.disconnected_sockets ≡ gone
      → AreForgotten gone (forget_sockets gone w)
  forget_sockets_done [] w h = unfold forget_sockets in unfold ◌>>=◌ in (refl, h, tt)
  forget_sockets_done (sock ∷ gone) w h =
      let (fine, empty, away) =
        forget_sockets_done gone (forgotten sock w) (rw (forgotten-queue sock w, h) refl) in
      subst (AreForgotten (sock ∷ gone)) (sym (forget_sockets-step sock gone w)) (
        fine,
        empty,
        (forget_sockets-other sock gone (forgotten sock w) (forgotten-offline sock w), away),
      )

-- The text after `@500|`; what is not caught has none.
abbrev pub error_text : Failure → Option Text
error_text (thrown ex) = some (what ex)
error_text standard = some (lit "Unknown Error")
error_text out_of_bounds = none
error_text deadlock = none

module _ {H : Type 0} (sock : ℕ) (text : Text) where
  report_failure-eq :
      (f : Failure)
      → error_text f ≡ some text
      → report_failure {H = H} sock f ≡ send_message sock ((lit "@500|" ++ text) ++ lit "||")
  unfolding report_failure
  report_failure-eq (thrown ex) e = let t : what ex ≡ text = cc e in rw t refl
  report_failure-eq standard e =
      let t : lit "Unknown Error" ≡ text = cc e in rw⁻¹ t (unfold lit in refl)
  report_failure-eq out_of_bounds e = ground (arith, e)
  report_failure-eq deadlock e = ground (arith, e)

module _ {H : Type 0} (exec : Engine H) where
  -- No exception leaves a handler: when serving a message throws, the sender, and nobody else, gets
  -- one more message, `@500|` with the text of the exception, and the slot is given back. What is
  -- written in the database and the maps before the throw stays.
  pub message_handler_replies :
      (msg : Message) (index : ℕ) (w w' : World H) (f : Failure) (text : Text)
      → code_handler exec msg (forget_sockets w.server.disconnected_sockets w).1 ≡ (fails f, w')
      → error_text f ≡ some text
      → message_handler exec msg index w ≡ (
        ok tt,
        record w' {
          server = send msg.socket ((lit "@500|" ++ text) ++ lit "||") w'.server;
          threads = set_thread index false w'.threads;
        },
      )
  unfolding message_handler ◌>>=◌ report_failure send_message
  message_handler_replies msg index w w' f text h e =
      rw (forget_sockets-ok w.server.disconnected_sockets w, h)
        (rw (report_failure-eq msg.socket text f e) refl)
