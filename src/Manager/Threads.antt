-- ===== src/Manager/Threads.antt =====
-- ServerIList/Manager.cpp: `message_handler`, which runs on a thread of its own.
use server_ilist.Prelude.{ℕ, zero, suc, Bool, false, List, [], ◌∷◌, ◌++◌, drop}
use server_ilist.Text.{lit}
use server_ilist.Exception.{
  what, Failure, thrown, standard, out_of_bounds, deadlock, Outcome, ok, fails,
}
use server_ilist.Action.{Action, pure, fail, gets, modify, when, ◌>>=◌, ◌>>◌}
use server_ilist.World.{World, Message}
use server_ilist.Database.{Engine}
use server_ilist.Users
use server_ilist.Server
use server_ilist.Manager.Handlers.{code_handler}

abbrev pub set_thread : ℕ → Bool → List Bool → List Bool
set_thread index b [] = []
set_thread zero b (t ∷ ts) = b ∷ ts
set_thread (suc index) b (t ∷ ts) = t ∷ set_thread index b ts

abbrev pub threads_max : ℕ
threads_max = 10

-- `new thread*[THREADS_MAX]{0}`
abbrev free_from : ℕ → List Bool
free_from zero = []
free_from (suc n) = false ∷ free_from n

abbrev pub free_slots : List Bool
free_slots = free_from threads_max

module _ {H : Type 0} where
  -- One round of the loop over the disconnected sockets.
  unfoldable pub forget_socket : ℕ → Action (World H) Unit
  forget_socket sock = do
    here ← gets (Users.is_login sock)
    when here (Users.logout sock)
    modify (λ w. record w {
      server = record w.server { disconnected_sockets = drop 1 w.server.disconnected_sockets };
    })

  -- The loop over the disconnected sockets: each round pops the front, and no round adds one.
  unfoldable pub forget_sockets : List ℕ → Action (World H) Unit
  unfolding forget_socket
  forget_sockets [] w = pure tt w
  forget_sockets (sock ∷ socks) w = (do forget_socket sock; forget_sockets socks) w

  -- The two `catch` clauses. What C++ leaves undefined, and a lock that is never free, are no
  -- exceptions and are not caught.
  unfoldable pub report_failure : ℕ → Failure → Action (World H) Unit
  report_failure sock (thrown ex) = Server.send_message sock ((lit "@500|" ++ what ex) ++ lit "||")
  report_failure sock standard = Server.send_message sock (lit "@500|" ++ lit "Unknown Error||")
  report_failure sock out_of_bounds = fail out_of_bounds
  report_failure sock deadlock = fail deadlock

  abbrev pub catch : ℕ → Outcome Unit → Action (World H) Unit
  catch sock (ok u) w = (ok u, w)
  catch sock (fails f) w = report_failure sock f w

module _ {H : Type 0} (exec : Engine H) where
  abbrev try_handle : Message → Action (World H) Unit
  try_handle msg w = let (r, w') = code_handler exec msg w in catch msg.socket r w'

  -- `message_handler`, on the thread in slot `index`
  unfoldable pub message_handler : Message → ℕ → Action (World H) Unit
  unfolding forget_sockets code_handler report_failure
  message_handler msg index = do
    gone ← gets (λ w. w.server.disconnected_sockets)
    forget_sockets gone
    try_handle msg
    modify (λ w. record w { threads = set_thread index false w.threads })
