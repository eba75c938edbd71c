-- ===== src/Server/Threads/Stall.antt =====
-- Where the threads of ServerIList/Server.cpp wait though there is a message.
use server_ilist.Prelude.{
  Bool, ℕ, ◌≡◌, ◌≢◌, ◌≤◌, refl, sym, true, false, some, List, [], ◌∷◌, ◌++◌, length, length-append,
  drop, get_or, ltb, ◌==◌, ap, ◌∙◌, ◌⊎◌, inl, inr, arith,
}
use server_ilist.Text.{Text}
use server_ilist.World.{Message, Server}
use server_ilist.Server.{
  bytes, receive, wrapped_index, c_string, clear_buffer, min_length_message, recv_round,
}
use server_ilist.Server.Threads.{
  waiting, polling, drowsy, asleep, taking, receiver, Threads, accepted, wake_for, arrivals, polled,
  Step, Reach, next, accept, lock_receive, find_nobody, wait_client, stir_receiver, stir_taker,
  find_client, poll, ask_empty, ask_some, fall_asleep, lock_take, pop, reply, forget, finish,
}
use server_ilist.Server.Threads.Invariant.{Reach-IsOrderly, append-ne_nil}

abbrev pub IsAccept : Threads → Threads → Type 0
IsAccept t u = (socket : ℕ) × (u ≡ accepted socket t)

-- From an empty queue on, `recvFunction` waits for a client with `queueMutex` locked. A taker who wants that mutex, for a
-- message that is in the queue, is then stopped: without spurious wakeups, the only step of any
-- thread is that a new client connects.
pub wait_stops_taker :
    {s : Server} {t u : Threads}
    → s.messages ≡ []
    → Reach false s t
    → t.receive_at ≡ waiting
    → t.take_at ≡ taking
    → Step false t u
    → IsAccept t u
wait_stops_taker {t} e r w k st = stopped st
  where
    held : t.queue_mutex ≡ some receiver
    held = (Reach-IsOrderly e r).owned ∙ rw w refl

    stopped : {u : Threads} → Step false t u → IsAccept t u
    stopped (accept socket) = (socket, refl)
    stopped (lock_receive p m) = cc
    stopped (find_nobody p c) = cc
    stopped (wait_client p) = cc
    stopped (stir_receiver b p) = cc b
    stopped (find_client p c) = cc
    stopped (poll ready a p c) = cc
    stopped (ask_empty p m) = cc
    stopped (ask_some p m) = cc
    stopped (fall_asleep p) = cc
    stopped (stir_taker b p) = cc
    stopped (lock_take p m) = cc held
    stopped (pop msg s' p h) = cc
    stopped (reply msg socket text p) = cc
    stopped (forget msg p) = cc
    stopped (finish msg p) = cc

length-ne_zero : (cs : List ℕ) → cs ≢ [] → (length cs == 0) ≡ false
length-ne_zero [] h = absurd (h refl)
length-ne_zero (c ∷ cs) h = ground arith

wake_for-drowsy : (ms : List Message) → wake_for ms drowsy ≡ drowsy
wake_for-drowsy [] = refl
wake_for-drowsy (m ∷ ms) = refl

-- What a round does that receives a message of at least four bytes from the socket it asks.
recv_round-received :
    (t : Text) (s : Server)
    → s.clients ≢ []
    → min_length_message ≤ length t
    → (m : Message) × ((recv_round true (bytes t) s).messages ≡ s.messages ++ m ∷ [])
unfolding recv_round receive
recv_round-received t s c h =
    let there : (length s.clients == 0) ≡ false = length-ne_zero s.clients c in
    let long : ltb (length t) min_length_message ≡ false = ground arith in
    (
      record {
        message = c_string (t ++ drop (length t) (clear_buffer s.buffer));
        socket = get_or s.clients (wrapped_index s) 0;
      },
      rw (there, long) refl,
    )

-- `messages.empty()` is asked and `queueCV` waited for without a lock that the receiver takes too.
-- A message that arrives between the two wakes nobody: the taker falls asleep with the message in
-- the queue.
pub wakeup_missed :
    {spurious : Bool} {s : Server} {t : Threads} (text : Text)
    → Reach spurious s t
    → t.take_at ≡ drowsy
    → t.receive_at ≡ polling
    → t.server.clients ≢ []
    → min_length_message ≤ length text
    → (u : Threads) × Reach spurious s u × (u.take_at ≡ asleep) × (u.server.messages ≢ [])
wakeup_missed {t} text r d p c h =
    let v = polled true (bytes text) t in
    let (m, e) = recv_round-received text t.server c h in
    (
      record v { take_at = asleep },
      next (next r (poll true (bytes text) p c)) (fall_asleep (rw d (wake_for-drowsy _))),
      refl,
      λ q. append-ne_nil t.server.messages m [] (sym e ∙ q),
    )

wakes : (new ms : List Message) → (wake_for new asleep ≡ asleep) ⊎ (ms ++ new ≢ ms)
wakes [] ms = inl refl
wakes (m ∷ new) ms = inr (λ e. omega (arith, ap length e, length-append ms (m ∷ new)))

-- Without spurious wakeups, a taker who sleeps is woken by nothing but the arrival of another message.
pub asleep_until_arrival :
    {t u : Threads}
    → t.take_at ≡ asleep
    → Step false t u
    → (u.take_at ≡ asleep) ⊎ (u.received ≢ t.received)
asleep_until_arrival a (accept socket) = inl a
asleep_until_arrival a (lock_receive p m) = inl a
asleep_until_arrival a (find_nobody p c) = inl a
asleep_until_arrival a (wait_client p) = inl a
asleep_until_arrival a (stir_receiver b p) = inl a
asleep_until_arrival a (find_client p c) = inl a
asleep_until_arrival {t} a (poll ready b p c) =
    rw a (wakes (arrivals t.server (recv_round ready b t.server)) t.received)
asleep_until_arrival a (ask_empty p m) = inl cc
asleep_until_arrival a (ask_some p m) = inl cc
asleep_until_arrival a (fall_asleep p) = inl refl
asleep_until_arrival a (stir_taker b p) = cc b
asleep_until_arrival a (lock_take p m) = inl cc
asleep_until_arrival a (pop msg s' p h) = inl cc
asleep_until_arrival a (reply msg socket text p) = inl a
asleep_until_arrival a (forget msg p) = inl a
asleep_until_arrival a (finish msg p) = inl cc
