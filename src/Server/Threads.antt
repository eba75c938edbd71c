-- ===== src/Server/Threads.antt =====
-- The threads of ServerIList/Server.cpp in any order of their steps: `acceptFunction`,
-- `recvFunction`, and the one that takes messages by `getLastPacket` and serves them
-- (`threads_handler` of ServerIList/Manager.cpp). A `wait` ends by a `notify_one`, or, where spurious
-- wakeups are allowed, by itself.
pub mod Invariant
pub mod Stall
pub mod Faults
use server_ilist.Prelude.{
  ◌≡◌, ◌≢◌, ℕ, Bool, true, false, Option, none, some, List, [], ◌∷◌, ◌++◌, length, drop, ltb,
}
use server_ilist.Text.{Text}
use server_ilist.World.{Message, Server}
use server_ilist.Server.{Received, accept_round, recv_round, get_last_packet, send}

-- Where `recvFunction` is: before `queueMutex.lock()`, after it, before `cv.wait`, in it, and after
-- the wait.
pub data Receiver : Type 0 where
  top locked idle waiting polling : Receiver

-- Where `getLastPacket` is: before `messages.empty()`, before `queueCV.wait`, in it, before
-- `queueMutex.lock()`, after it; and when it has returned, the message that is served.
pub data Taker : Type 0 where
  asking drowsy asleep taking holding : Taker
  serving : Message → Taker

pub data Holder : Type 0 where
  receiver taker : Holder

-- `received` and `served` keep all the messages that were put into the queue and taken out of it.
pub record Threads : Type 0 where
  pub server : Server
  pub queue_mutex : Option Holder
  pub receive_at : Receiver
  pub take_at : Taker
  pub received : List Message
  pub served : List Message

abbrev pub start : Server → Threads
start s = record {
  server = s;
  queue_mutex = none;
  receive_at = top;
  take_at = asking;
  received = [];
  served = [];
}

-- `cv.notify_one()`
abbrev pub wake_receiver : Receiver → Receiver
wake_receiver waiting = polling
wake_receiver top = top
wake_receiver locked = locked
wake_receiver idle = idle
wake_receiver polling = polling

-- `queueCV.notify_one()`
abbrev pub wake_taker : Taker → Taker
wake_taker asleep = taking
wake_taker asking = asking
wake_taker drowsy = drowsy
wake_taker taking = taking
wake_taker holding = holding
wake_taker (serving msg) = serving msg

-- The messages that a round of recvFunction puts into the queue.
abbrev pub arrivals : Server → Server → List Message
arrivals s s' = drop (length s.messages) s'.messages

abbrev pub wake_for : List Message → Taker → Taker
wake_for [] t = t
wake_for (m ∷ ms) t = wake_taker t

abbrev pub accepted : ℕ → Threads → Threads
accepted socket s = record s {
  server = accept_round socket s.server;
  receive_at = wake_receiver s.receive_at;
}

abbrev pub polled : Bool → Received → Threads → Threads
polled ready answer s =
    let s' = recv_round ready answer s.server in
    record s {
      server = s';
      queue_mutex = none;
      receive_at = top;
      take_at = wake_for (arrivals s.server s') s.take_at;
      received = s.received ++ arrivals s.server s';
    }

-- A step of one thread. `spurious` says whether a `wait` may end by itself.
pub data Step (spurious : Bool) (s : Threads) : Threads → Type 0 where
  accept : (socket : ℕ) → Step spurious s (accepted socket s)
  lock_receive :
      s.receive_at ≡ top
      → s.queue_mutex ≡ none
      → Step spurious s (record s { queue_mutex = some receiver; receive_at = locked })
  find_nobody :
      s.receive_at ≡ locked
      → s.server.clients ≡ []
      → Step spurious s (record s { receive_at = idle })
  wait_client : s.receive_at ≡ idle → Step spurious s (record s { receive_at = waiting })
  stir_receiver :
      spurious ≡ true → s.receive_at ≡ waiting → Step spurious s (record s { receive_at = polling })
  find_client :
      s.receive_at ≡ locked
      → s.server.clients ≢ []
      → Step spurious s (record s { receive_at = polling })
  poll :
      (ready : Bool) (answer : Received)
      → s.receive_at ≡ polling
      → s.server.clients ≢ []
      → Step spurious s (polled ready answer s)
  ask_empty :
      s.take_at ≡ asking → s.server.messages ≡ [] → Step spurious s (record s { take_at = drowsy })
  ask_some :
      s.take_at ≡ asking → s.server.messages ≢ [] → Step spurious s (record s { take_at = taking })
  fall_asleep : s.take_at ≡ drowsy → Step spurious s (record s { take_at = asleep })
  stir_taker :
      spurious ≡ true → s.take_at ≡ asleep → Step spurious s (record s { take_at = taking })
  lock_take :
      s.take_at ≡ taking
      → s.queue_mutex ≡ none
      → Step spurious s (record s { queue_mutex = some taker; take_at = holding })
  pop :
      (msg : Message) (s' : Server)
      → s.take_at ≡ holding
      → get_last_packet s.server ≡ some (msg, s')
      → Step spurious s (record s {
        server = s';
        queue_mutex = none;
        take_at = serving msg;
        served = s.served ++ msg ∷ [];
      })
  reply :
      (msg : Message) (socket : ℕ) (text : Text)
      → s.take_at ≡ serving msg
      → Step spurious s (record s { server = send socket text s.server })
  forget :
      (msg : Message)
      → s.take_at ≡ serving msg
      → Step spurious s (record s {
        server = record s.server { disconnected_sockets = drop 1 s.server.disconnected_sockets };
      })
  finish :
      (msg : Message) → s.take_at ≡ serving msg → Step spurious s (record s { take_at = asking })

-- The next step of a thread is one that C++ leaves undefined: `clients[0]` with no client, or `front`
-- of an empty queue. There is no state after it.
pub data Undefined (s : Threads) : Type 0 where
  poll_nobody : s.receive_at ≡ polling → s.server.clients ≡ [] → Undefined s
  pop_nothing : s.take_at ≡ holding → get_last_packet s.server ≡ none → Undefined s

pub data Reach (spurious : Bool) (s : Server) : Threads → Type 0 where
  here : Reach spurious s (start s)
  next : {t u : Threads} → Reach spurious s t → Step spurious t u → Reach spurious s u
