-- ===== src/Server/Threads/Invariant.antt =====
-- What holds whenever the threads of ServerIList/Server.cpp are looked at.
use server_ilist.Prelude.{
  append-nil, append_assoc, ℕ, ◌≡◌, ◌≢◌, refl, sym, Bool, true, false, Option, none, some, List, [],
  ◌∷◌, ◌++◌, length, drop, ltb, get_or, ◌==◌, ◌∙◌, arith, Bool-cases, inl, inr, if◌then◌else◌,
}
use server_ilist.Text.{Text}
use server_ilist.World.{Message, Server}
use server_ilist.Server.{
  Received, c_string, clear_buffer, wrapped_index, min_length_message, accept_round, recv_round,
  receive, get_last_packet, send, disconnect, socket_error, bytes,
}
use server_ilist.Server.Threads.{
  Receiver, top, locked, idle, waiting, polling, Taker, asking, drowsy, asleep, taking, holding,
  serving, Holder, receiver, taker, Threads, start, wake_for, arrivals, Step, Reach, here, next,
  accept, lock_receive, find_nobody, wait_client, stir_receiver, stir_taker, find_client, poll,
  ask_empty, ask_some, fall_asleep, lock_take, pop, reply, forget, finish,
}

-- Who holds `queueMutex`, by where the two threads are.
abbrev receiver_holds : Receiver → Bool
receiver_holds top = false
receiver_holds locked = true
receiver_holds idle = true
receiver_holds waiting = true
receiver_holds polling = true

abbrev taker_holds : Taker → Bool
taker_holds holding = true
taker_holds asking = false
taker_holds drowsy = false
taker_holds asleep = false
taker_holds taking = false
taker_holds (serving msg) = false

-- Has the taker been told that there is a message?
abbrev is_told : Taker → Bool
is_told taking = true
is_told holding = true
is_told asking = false
is_told drowsy = false
is_told asleep = false
is_told (serving msg) = false

abbrev owner : Receiver → Taker → Option Holder
owner r t = if receiver_holds r then some receiver else if taker_holds t then some taker else none

pub record IsOrderly (spurious : Bool) (s : Threads) : Type 0 where
  pub owned : s.queue_mutex ≡ owner s.receive_at s.take_at
  pub one_owner : receiver_holds s.receive_at ≡ true → taker_holds s.take_at ≡ false
  pub told : spurious ≡ false → is_told s.take_at ≡ true → s.server.messages ≢ []
  pub in_order : s.served ++ s.server.messages ≡ s.received

messages-disconnect : (socket : ℕ) (s : Server) → (disconnect socket s).messages ≡ s.messages
unfolding disconnect
messages-disconnect socket s = ground arith

messages-send : (socket : ℕ) (text : Text) (s : Server) → (send socket text s).messages ≡ s.messages
unfolding send
messages-send socket text s = ground (arith, messages-disconnect socket s)

drop-append : (ms ns : List Message) → drop (length ms) (ms ++ ns) ≡ ns
drop-append [] ns = refl
drop-append (m ∷ ms) ns = drop-append ms ns

abbrev Appends : Server → Server → Type 0
Appends s s' = (new : List Message) × (s'.messages ≡ s.messages ++ new)

receive-Appends : (socket : ℕ) (a : Received) (s : Server) → Appends s (receive socket a s)
unfolding receive
receive-Appends socket socket_error s =
    ([], messages-disconnect socket _ ∙ sym (append-nil s.messages))
receive-Appends socket (bytes t) s = elim (Bool-cases (ltb (length t) min_length_message)) [
  | inl short ↦ ([], rw short (messages-disconnect socket _ ∙ sym (append-nil s.messages)))
  | inr long ↦ (
    record { message = c_string (t ++ drop (length t) (clear_buffer s.buffer)); socket = socket }
        ∷ [],
    rw long refl,
  )
]

recv_round-Appends : (ready : Bool) (a : Received) (s : Server) → Appends s (recv_round ready a s)
unfolding recv_round
recv_round-Appends ready a s = elim (Bool-cases (length s.clients == 0)) [
  | inl none_there ↦ ([], rw none_there (sym (append-nil s.messages)))
  | inr there ↦ elim (Bool-cases ready) [
    | inr quiet ↦ ([], rw (there, quiet) (sym (append-nil s.messages)))
    | inl asked ↦
        let (new, e) = receive-Appends (get_or s.clients (wrapped_index s) 0) a s in
        (new, rw (there, asked) e)
  ]
]

-- What the log of received messages gains is what the queue gains.
arrivals-append :
    (ready : Bool) (a : Received) (s : Server)
    → (recv_round ready a s).messages ≡ s.messages ++ arrivals s (recv_round ready a s)
arrivals-append ready a s =
    let (new, e) = recv_round-Appends ready a s in
    let d : arrivals s (recv_round ready a s) ≡ new = rw e (drop-append s.messages new) in rw d e

messages-pop :
    (s : Server) (msg : Message) (s' : Server)
    → get_last_packet s ≡ some (msg, s')
    → s.messages ≡ msg ∷ s'.messages
unfolding get_last_packet
messages-pop s msg s' e = ground arith

pub append-ne_nil : (ms : List Message) (m : Message) (ns : List Message) → ms ++ m ∷ ns ≢ []
append-ne_nil [] m ns = λ e. cc e
append-ne_nil (n ∷ ms) m ns = λ e. cc e

-- The end of a round that puts `new` into the queue.
polled-IsOrderly :
    (b : Bool) (s : Threads) (s' : Server) (new : List Message)
    → s'.messages ≡ s.server.messages ++ new
    → s.receive_at ≡ polling
    → IsOrderly b s
    → IsOrderly b (record s {
      server = s';
      queue_mutex = none;
      receive_at = top;
      take_at = wake_for new s.take_at;
      received = s.received ++ new;
    })
polled-IsOrderly b s s' [] e p h =
    ground (arith, append-nil s.server.messages, append-nil s.received)
polled-IsOrderly b s s' (m ∷ ms) e p h =
    ground (
      arith,
      append_assoc s.served s.server.messages (m ∷ ms),
      append-ne_nil s.server.messages m ms,
    )

Step-IsOrderly : (b : Bool) {s t : Threads} → Step b s t → IsOrderly b s → IsOrderly b t
unfolding accept_round get_last_packet
Step-IsOrderly b {s} (accept socket) h = ground arith
Step-IsOrderly b (lock_receive p m) h = ground arith
Step-IsOrderly b (find_nobody p c) h = ground arith
Step-IsOrderly b (wait_client p) h = ground arith
Step-IsOrderly b (stir_receiver e p) h = ground arith
Step-IsOrderly b (find_client p c) h = ground arith
Step-IsOrderly b {s} (poll ready a p c) h =
    let s' = recv_round ready a s.server in
    polled-IsOrderly b s s' (arrivals s.server s') (arrivals-append ready a s.server) p h
Step-IsOrderly b (ask_empty p m) h = ground arith
Step-IsOrderly b (ask_some p m) h = ground arith
Step-IsOrderly b (fall_asleep p) h = ground arith
Step-IsOrderly b (stir_taker e p) h = ground arith
Step-IsOrderly b (lock_take p m) h = ground arith
Step-IsOrderly b {s} (pop msg s' p e) h =
    ground (arith, messages-pop s.server msg s' e, append_assoc s.served (msg ∷ []) s'.messages)
Step-IsOrderly b {s} (reply msg socket text p) h =
    ground (arith, messages-send socket text s.server)
Step-IsOrderly b (forget msg p) h = ground arith
Step-IsOrderly b (finish msg p) h = ground arith

start-IsOrderly : (b : Bool) (s : Server) → s.messages ≡ [] → IsOrderly b (start s)
start-IsOrderly b s e = record {
  owned = refl;
  one_owner = λ h. refl;
  told = λ q h. cc h;
  in_order = e;
}

-- Whatever the order of the steps, from an empty queue on, with spurious wakeups or without, as long as
-- no thread does what C++ leaves undefined: the two loops are never inside `queueMutex` together, and the messages that were served, followed by those
-- in the queue, are the received ones in the order of their arrival. Without spurious wakeups a taker
-- who was told of a message finds one.
pub Reach-IsOrderly :
    {spurious : Bool} {s : Server} {t : Threads}
    → s.messages ≡ []
    → Reach spurious s t
    → IsOrderly spurious t
Reach-IsOrderly {spurious = b} {s} e here = start-IsOrderly b s e
Reach-IsOrderly {spurious = b} e (next r st) = Step-IsOrderly b st (Reach-IsOrderly e r)
