-- ===== src/Tests/Interleaving.antt =====
-- Runs of the threads of the server, and the theorems on them.
use server_ilist.Prelude.{false, ◌≡◌, ◌≢◌, refl, arith, true, [], ◌∷◌, some}
use server_ilist.World.{Server}
use server_ilist.Server.{
  bytes, socket_error, receive, recv_round, get_last_packet, disconnect, erase_removed,
}
use server_ilist.Server.Threads.{
  idle, waiting, polling, serving, Undefined, pop, drowsy, asleep, taking, receiver, Threads, start,
  accepted, polled, Reach, here, next, accept, lock_receive, find_nobody, wait_client, find_client,
  poll, ask_empty, ask_some, lock_take,
}
use server_ilist.Server.Threads.Invariant.{IsOrderly, Reach-IsOrderly}
use server_ilist.Server.Threads.Faults.{reply_strands, client_missed}
use server_ilist.Server.Threads.Stall.{IsAccept, wait_stops_taker, wakeup_missed}
use server_ilist.Tests.Data.{milk, server}

-- One client, whose message is received before it is gone.
abbrev one_client : Server
one_client = record server { clients = 7 ∷ []; buffer = 0 ∷ 0 ∷ 0 ∷ 0 ∷ 0 ∷ 0 ∷ [] }

abbrev ready_to_poll : Threads
ready_to_poll = record (start one_client) { queue_mutex = some receiver; receive_at = polling }

abbrev got : Threads
got = polled true (bytes milk) ready_to_poll

abbrev told : Threads
told = record got { take_at = taking }

abbrev gone : Threads
gone = polled true socket_error (record told { queue_mutex = some receiver; receive_at = polling })

abbrev stalled : Threads
stalled = record gone { queue_mutex = some receiver; receive_at = waiting }

to_poll : Reach false one_client ready_to_poll
to_poll = next (next here (lock_receive refl refl)) (find_client refl (λ e. cc e))

to_told : Reach false one_client told
unfolding receive recv_round
to_told = next (next to_poll (poll true (bytes milk) refl (λ e. cc e))) (ask_some refl (λ e. cc e))

to_stalled : Reach false one_client stalled
unfolding receive recv_round disconnect erase_removed
to_stalled =
    let again = next (next to_told (lock_receive refl refl)) (find_client refl (λ e. cc e)) in
    let lost = next again (poll true socket_error refl (λ e. cc e)) in
    next (next (next lost (lock_receive refl refl)) (find_nobody refl refl)) (wait_client refl)

-- The message of the client who is gone waits for another client.
stalled_message : stalled.server.messages ≢ []
unfolding receive recv_round disconnect
stalled_message = λ e. cc e

wait_stops_taker_example : IsAccept stalled (accepted 8 stalled)
unfolding recv_round
wait_stops_taker_example = wait_stops_taker refl to_stalled refl refl (accept 8)

Reach-IsOrderly_example : IsOrderly false stalled
Reach-IsOrderly_example = Reach-IsOrderly refl to_stalled

abbrev dozing : Threads
dozing = record ready_to_poll { take_at = drowsy }

to_dozing : Reach false one_client dozing
to_dozing = next to_poll (ask_empty refl refl)

wakeup_missed_example :
    (u : Threads) × Reach false one_client u × (u.take_at ≡ asleep) × (u.server.messages ≢ [])
wakeup_missed_example = wakeup_missed milk to_dozing refl refl (λ e. cc e) (omega arith)

-- Nothing has arrived, and getLastPacket waits.
abbrev dreaming : Threads
dreaming = record (start one_client) { take_at = asleep }

-- The message is served, while the receiver has found its sender, who hears no answer.
abbrev deaf : Server
deaf = record one_client { send_error = λ sock message. true }

abbrev served_one : Threads
served_one =
    let s =
      polled true (bytes milk)
        (record (start deaf) { queue_mutex = some receiver; receive_at = polling }) in
    record s {
      server = record s.server { messages = [] };
      queue_mutex = some receiver;
      receive_at = polling;
      take_at = serving (record { message = milk; socket = 7 });
      served = record { message = milk; socket = 7 } ∷ [];
    }

to_served_one : Reach false deaf served_one
unfolding receive recv_round get_last_packet
to_served_one =
    let asked = next (next here (lock_receive refl refl)) (find_client refl (λ e. cc e)) in
    let got = next asked (poll true (bytes milk) refl (λ e. cc e)) in
    let told = next (next got (ask_some refl (λ e. cc e))) (lock_take refl refl) in
    let taken = next told (pop (record { message = milk; socket = 7 }) _ refl refl) in
    next (next taken (lock_receive refl refl)) (find_client refl (λ e. cc e))

reply_strands_example : (u : Threads) × Reach false deaf u × Undefined u
unfolding receive recv_round
reply_strands_example = reply_strands 7 milk to_served_one refl refl refl refl

abbrev nobody : Server
nobody = record server { clients = [] }

to_idle :
    Reach false nobody (record (start nobody) { queue_mutex = some receiver; receive_at = idle })
to_idle = next (next here (lock_receive refl refl)) (find_nobody refl refl)

client_missed_example :
    (u : Threads) × Reach false nobody u
    × (u.receive_at ≡ waiting)
    × (u.queue_mutex ≡ some receiver)
    × (u.server.clients ≢ [])
client_missed_example = client_missed 7 refl to_idle refl
