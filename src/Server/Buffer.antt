-- ===== src/Server/Buffer.antt =====
-- The one buffer into which all messages are received (`recvFunction` of ServerIList/Server.cpp).
use server_ilist.Prelude.{
  ℕ, zero, suc, ◌+◌, ◌-◌, ◌≡◌, ◌≤◌, ◌<◌, refl, sym, false, [], ◌∷◌, ◌++◌, length, drop, ltb, ap,
  ◌∙◌, arith, length-append,
}
use server_ilist.Text.{Text, has_char}
use server_ilist.Server.{receive, clear_buffer, c_string, bytes, min_length_message}
use server_ilist.World.{Server}

abbrev pub zeros : ℕ → Text
zeros zero = []
zeros (suc n) = 0 ∷ zeros n

-- `memset(_buffer, 0, strlen(_buffer))` leaves nothing but null bytes.
abbrev pub IsErasable : Text → Type 0
IsErasable buffer = clear_buffer buffer ≡ zeros (length buffer)

clear-zeros : (n : ℕ) → clear_buffer (zeros n) ≡ zeros n
unfolding clear_buffer
clear-zeros zero = refl
clear-zeros (suc n) = refl

length-zeros : (n : ℕ) → length (zeros n) ≡ n
length-zeros zero = refl
length-zeros (suc n) = ap suc (length-zeros n)

drop-zeros : (m n : ℕ) → drop m (zeros (m + n)) ≡ zeros n
drop-zeros zero n = let e : 0 + n ≡ n = omega arith in rw e refl
drop-zeros (suc m) n = let e : suc m + n ≡ suc (m + n) = omega arith in rw e (drop-zeros m n)

module _ (n : ℕ) where
  c_string-filled : (t : Text) → has_char 0 t ≡ false → c_string (t ++ zeros (suc n)) ≡ t
  unfolding c_string has_char
  c_string-filled [] h = refl
  c_string-filled (c ∷ t) h = ground (arith, c_string-filled t)

  clear_buffer-filled :
      (t : Text) → has_char 0 t ≡ false → clear_buffer (t ++ zeros n) ≡ zeros (length t + n)
  unfolding clear_buffer has_char
  clear_buffer-filled [] h = let e : 0 + n ≡ n = omega arith in rw e (clear-zeros n)
  clear_buffer-filled (c ∷ t) h =
      let e : suc (length t) + n ≡ suc (length t + n) = omega arith in
      rw e (ground (arith, clear_buffer-filled t))

module _ (t : Text) (n : ℕ) where
  filled-eq :
      (buffer : Text)
      → IsErasable buffer
      → length buffer ≡ length t + suc n
      → t ++ drop (length t) (clear_buffer buffer) ≡ t ++ zeros (suc n)
  filled-eq buffer clean e = rw (clean, e) (ap (λ z. t ++ z) (drop-zeros (length t) (suc n)))

  length-filled : length (t ++ zeros (suc n)) ≡ length t + suc n
  length-filled = omega (arith, length-append t (zeros (suc n)), length-zeros (suc n))

  filled-IsErasable : has_char 0 t ≡ false → IsErasable (t ++ zeros (suc n))
  filled-IsErasable whole = rw length-filled (clear_buffer-filled (suc n) t whole)

-- A message without a null byte, of at least four bytes and shorter than the buffer, comes into the
-- queue as it was received when the buffer held one text and null bytes after it, and the buffer is
-- such again.
pub receive-exact :
    (socket : ℕ) (t : Text) (s : Server)
    → IsErasable s.buffer
    → has_char 0 t ≡ false
    → min_length_message ≤ length t
    → length t < length s.buffer
    → ((receive socket (bytes t) s).messages
        ≡ s.messages ++ record { message = t; socket = socket } ∷ [])
      × IsErasable (receive socket (bytes t) s).buffer
      × (length (receive socket (bytes t) s).buffer ≡ length s.buffer)
unfolding receive
receive-exact socket t s clean whole long fits =
    let n : ℕ = length s.buffer - length t - 1 in
    let e : length s.buffer ≡ length t + suc n = omega arith in
    let short : ltb (length t) min_length_message ≡ false = ground arith in
    rw (filled-eq t n s.buffer clean e, short)
      (
        ap (λ m. s.messages ++ record { message = m; socket = socket } ∷ [])
            (c_string-filled n t whole),
        filled-IsErasable t n whole,
        length-filled t n ∙ sym e,
      )
