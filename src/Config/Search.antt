-- ===== src/Config/Search.antt =====
-- The binary search of FIND_MSG_CODE against a linear scan of the array.
use server_ilist.Prelude.{
  ℕ, zero, suc, ◌+◌, ◌-◌, ◌/◌, ◌≤◌, ◌<◌, ◌≡◌, refl, Bool, true, false, ◌&&◌, ◌||◌, List, [], ◌∷◌, ℤ,
  pos, arith, length, get_or, ltb, eq_ℤ, Bool-eq_of_iff, Bool-cases, inl, inr,
}
use server_ilist.Config.{search_codes, all_messages_codes, find_msg_code}

-- Whether the integer stands in the array, by a scan.
unfoldable pub scan_codes : ℤ → List ℕ → Bool
scan_codes code [] = false
scan_codes code (x ∷ xs) = eq_ℤ code (pos x) || scan_codes code xs

-- Each element is below the next.
is_ascending : List ℕ → Bool
is_ascending [] = true
is_ascending (x ∷ []) = true
is_ascending (x ∷ y ∷ xs) = ltb x y && is_ascending (y ∷ xs)

lt_first :
    (x : ℕ) (xs : List ℕ) (i : ℕ) → is_ascending (x ∷ xs) ≡ true → i < length xs → x < get_or xs i 0
unfolding is_ascending
lt_first x [] i h p = absurd (omega arith)
lt_first x (y ∷ xs) zero h p = ground arith
lt_first x (y ∷ xs) (suc i) h p = ground (arith, lt_first y xs i)

ascending_lt :
    (xs : List ℕ) (i j : ℕ)
    → is_ascending xs ≡ true
    → i < j
    → j < length xs
    → get_or xs i 0 < get_or xs j 0
unfolding is_ascending
ascending_lt [] i j h lt p = absurd (omega arith)
ascending_lt (x ∷ xs) zero zero h lt p = absurd (omega arith)
ascending_lt (x ∷ xs) zero (suc j) h lt p = lt_first x xs j h (omega arith)
ascending_lt (x ∷ []) (suc i) j h lt p = absurd (omega arith)
ascending_lt (x ∷ y ∷ xs) (suc i) zero h lt p = absurd (omega arith)
ascending_lt (x ∷ y ∷ xs) (suc i) (suc j) h lt p =
    ascending_lt (y ∷ xs) i j (ground arith) (omega arith) (omega arith)

scan_of_get : (xs : List ℕ) (k : ℕ) → k < length xs → scan_codes (pos (get_or xs k 0)) xs ≡ true
unfolding scan_codes
scan_of_get [] k p = absurd (omega arith)
scan_of_get (x ∷ xs) zero p = ground arith
scan_of_get (x ∷ xs) (suc k) p = ground (arith, scan_of_get xs k)

get_of_scan :
    (code : ℤ) (xs : List ℕ)
    → scan_codes code xs ≡ true
    → (k : ℕ) × (k < length xs) × (code ≡ pos (get_or xs k 0))
unfolding scan_codes
get_of_scan code [] h = ground arith
get_of_scan code (x ∷ xs) h = elim (Bool-cases (eq_ℤ code (pos x))) [
  | inl here ↦ (0, omega arith, ground arith)
  | inr there ↦ let (k, p, e) = get_of_scan code xs (ground arith) in (suc k, omega arith, e)
]

search_finds :
    (xs : List ℕ) (k fuel left hi : ℕ)
    → is_ascending xs ≡ true
    → hi ≤ length xs
    → left ≤ k
    → k < hi
    → hi - left < fuel
    → search_codes xs (pos (get_or xs k 0)) fuel left hi ≡ true
unfolding search_codes
search_finds xs k zero left hi asc le lo up f = absurd (omega arith)
search_finds xs k (suc fuel) left hi asc le lo up f =
    let middle = (left + hi - 1) / 2 in
    ground (
      arith,
      ascending_lt xs k middle asc,
      ascending_lt xs middle k asc,
      search_finds xs k fuel left middle asc,
      search_finds xs k fuel (middle + 1) hi asc,
    )

search_sound :
    (xs : List ℕ) (code : ℤ) (fuel left hi : ℕ)
    → hi ≤ length xs
    → search_codes xs code fuel left hi ≡ true
    → scan_codes code xs ≡ true
unfolding search_codes
search_sound xs code zero left hi le h = ground arith
search_sound xs code (suc fuel) left hi le h = ground (
  arith,
  search_sound xs code fuel left ((left + hi - 1) / 2),
  search_sound xs code fuel ((left + hi - 1) / 2 + 1) hi,
  scan_of_get xs ((left + hi - 1) / 2),
)

all_messages_codes-is_ascending : is_ascending all_messages_codes ≡ true
unfolding is_ascending all_messages_codes
all_messages_codes-is_ascending = refl

search_complete :
    (xs : List ℕ) (code : ℤ)
    → is_ascending xs ≡ true
    → scan_codes code xs ≡ true
    → search_codes xs code (length xs + 1) 0 (length xs) ≡ true
search_complete xs code asc h =
    let (k, p, e) = get_of_scan code xs h in
    rw e (
      search_finds xs k (length xs + 1) 0 (length xs) asc (omega arith) (omega arith) p
        (omega arith))

-- FIND_MSG_CODE answers true for exactly the integers that stand in ALL_MESSAGES_CODES: the binary
-- search agrees with a scan of the whole array, for every integer, negative ones too.
pub find_msg_code-eq-scan : (code : ℤ) → find_msg_code code ≡ scan_codes code all_messages_codes
unfolding find_msg_code
find_msg_code-eq-scan code =
    Bool-eq_of_iff _ _
      (search_sound all_messages_codes code (length all_messages_codes + 1) 0
        (length all_messages_codes) (omega arith))
      (search_complete all_messages_codes code all_messages_codes-is_ascending)
