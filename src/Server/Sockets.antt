-- ===== src/Server/Sockets.antt =====
-- The list of connected sockets (`disconnect` of ServerIList/Server.cpp).
use server_ilist.Prelude.{
  append-nil, if◌then◌else◌, ℕ, ◌+◌, ◌≡◌, ◌≤◌, refl, sym, Bool-cases, inl, inr, true, false, not,
  List, [], ◌∷◌, ◌++◌, select, length, drop, ◌==◌, arith,
}
use server_ilist.Server.{disconnect, erase_removed, is_client}
use server_ilist.World.{Server}

abbrev times : ℕ → List ℕ → ℕ
times socket clients = length (select (λ c. c == socket) clients)

abbrev pub others : ℕ → List ℕ → List ℕ
others socket clients = select (λ c. not (c == socket)) clients

-- No socket is in the list twice.
abbrev pub IsDistinct : List ℕ → Type 0
IsDistinct clients = (socket : ℕ) → times socket clients ≤ 1

module _ (socket : ℕ) where
  length-others : (cs : List ℕ) → length (others socket cs) + times socket cs ≡ length cs
  length-others [] = refl
  length-others (c ∷ cs) = ground (arith, length-others cs)

  times-client : (cs : List ℕ) → is_client socket cs ≡ true → 1 ≤ times socket cs
  times-client [] h = ground arith
  times-client (c ∷ cs) h = ground (arith, times-client cs)

  others-absent : (cs : List ℕ) → is_client socket cs ≡ false → others socket cs ≡ cs
  others-absent [] h = refl
  others-absent (c ∷ cs) h = ground (arith, others-absent cs)

  times-others : (other : ℕ) (cs : List ℕ) → times other (others socket cs) ≤ times other cs
  times-others other [] = omega arith
  times-others other (c ∷ cs) = ground (arith, times-others other cs)

  others-none : (cs : List ℕ) → times socket (others socket cs) ≡ 0
  others-none [] = refl
  others-none (c ∷ cs) = ground (arith, others-none cs)

drop-length : (cs : List ℕ) → drop (length cs) cs ≡ []
drop-length [] = refl
drop-length (c ∷ cs) = drop-length cs

erase_removed-eq :
    (socket : ℕ) (cs : List ℕ)
    → times socket cs ≤ 1
    → is_client socket cs ≡ true
    → erase_removed socket cs ≡ others socket cs
unfolding erase_removed
erase_removed-eq socket cs h here =
    let e : length (others socket cs) + 1 ≡ length cs =
      omega (arith, length-others socket cs, times-client socket cs here) in
    rw e (rw (drop-length cs) (append-nil (others socket cs)))

-- With no socket in the list twice, a disconnect takes out the socket and leaves the others in
-- their order, so that again no socket is there twice. It closes the socket and puts it into the
-- queue of the disconnected when the socket was in the list, and does neither when it was not.
pub disconnect_removes :
    (socket : ℕ) (s : Server)
    → IsDistinct s.clients
    → ((disconnect socket s).clients ≡ others socket s.clients)
      × IsDistinct (disconnect socket s).clients
      × ((disconnect socket s).closed
          ≡ (if is_client socket s.clients then s.closed ++ socket ∷ [] else s.closed))
      × ((disconnect socket s).disconnected_sockets ≡ (
          if is_client socket s.clients
          then s.disconnected_sockets ++ socket ∷ []
          else s.disconnected_sockets))
unfolding disconnect
disconnect_removes socket s h = elim (Bool-cases (is_client socket s.clients)) [
  | inl here ↦ rw here (
      rw (erase_removed-eq socket s.clients (h socket) here)
        (refl, λ other. omega (arith, h other, times-others socket other s.clients), refl, refl))
  | inr gone ↦ rw gone (sym (others-absent socket s.clients gone), h, refl, refl)
]
