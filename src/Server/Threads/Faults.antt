-- ===== src/Server/Threads/Faults.antt =====
-- Where the threads of ServerIList/Server.cpp come to what C++ leaves undefined, or miss a client.
use server_ilist.Prelude.{◌≡◌, ◌≢◌, ℕ, refl, ◌∙◌, Bool, true, some, List, [], ◌∷◌, ◌++◌, arith}
use server_ilist.Text.{Text}
use server_ilist.World.{Message, Server}
use server_ilist.Server.{accept_round, disconnect, erase_removed, send}
use server_ilist.Server.Threads.{
  polling, idle, waiting, serving, receiver, Threads, accepted, Undefined, poll_nobody, Reach, next,
  accept, wait_client, reply,
}
use server_ilist.Server.Threads.Invariant.{Reach-IsOrderly}

clients-send :
    (socket : ℕ) (text : Text) (s : Server)
    → s.clients ≡ socket ∷ []
    → s.send_error socket text ≡ true
    → (send socket text s).clients ≡ []
unfolding send disconnect erase_removed
clients-send socket text s e f = ground arith

-- A reply may strand the receiver, with no spurious wakeup at all: when `recvFunction` has found one
-- client and a reply to that client fails, the client is dropped without `queueMutex`, and
-- `clients[0]` is read with no client left.
pub reply_strands :
    {spurious : Bool} {s : Server} {t : Threads} {msg : Message} (socket : ℕ) (text : Text)
    → Reach spurious s t
    → t.receive_at ≡ polling
    → t.take_at ≡ serving msg
    → t.server.clients ≡ socket ∷ []
    → t.server.send_error socket text ≡ true
    → (u : Threads) × Reach spurious s u × Undefined u
reply_strands {t} {msg} socket text r p q c f = (
  record t { server = send socket text t.server },
  next r (reply msg socket text q),
  poll_nobody p (clients-send socket text t.server c f),
)

one_more : (cs : List ℕ) (c : ℕ) → cs ++ c ∷ [] ≢ []
one_more [] c = λ e. cc e
one_more (d ∷ cs) c = λ e. cc e

-- `clients.empty()` is asked and `cv` waited for without a lock that `acceptFunction` takes too. A
-- client who connects between the two wakes nobody: from an empty queue on, the receiver then waits
-- with `queueMutex` locked, though there is a client.
pub client_missed :
    {spurious : Bool} {s : Server} {t : Threads} (socket : ℕ)
    → s.messages ≡ []
    → Reach spurious s t
    → t.receive_at ≡ idle
    → (u : Threads) × Reach spurious s u
      × (u.receive_at ≡ waiting)
      × (u.queue_mutex ≡ some receiver)
      × (u.server.clients ≢ [])
unfolding accept_round
client_missed {t} socket e r i = (
  record (accepted socket t) { receive_at = waiting },
  next (next r (accept socket)) (wait_client (rw i refl)),
  refl,
  (Reach-IsOrderly e r).owned ∙ rw i refl,
  one_more t.server.clients socket,
)
