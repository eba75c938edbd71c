-- ===== src/Text/Number.antt =====
-- `std::to_string` and `std::stoi` of the C++ standard library.
pub mod RoundTrip
use server_ilist.Prelude.{
  ℕ, zero, suc, ◌+◌, ◌-◌, ◌*◌, ◌/◌, ◌%◌, ◌^◌, ◌≡◌, refl, Bool, false, ◌&&◌, ◌||◌, List, [], ◌∷◌,
  Option, none, some, ℤ, pos, negsuc, ltb, leb, ◌==◌, if◌then◌else◌,
}

abbrev pub is_digit : ℕ → Bool
is_digit c = leb 48 c && leb c 57

-- `isspace` in the C locale
abbrev is_space : ℕ → Bool
is_space c = c == 32 || (leb 9 c && leb c 13)

-- The decimal digits of `n` before `acc`; a fuel of `n + 1` is enough, since each round divides.
show_digits : ℕ → ℕ → List ℕ → List ℕ
show_digits zero n acc = acc
show_digits (suc f) n acc =
    let rest = show_digits f (n / 10) ((48 + n % 10) ∷ acc) in
    if ltb n 10 then (48 + n) ∷ acc else rest

unfoldable pub nat_to_string : ℕ → List ℕ
unfolding show_digits
nat_to_string n = show_digits (suc n) n []

-- `std::to_string(int)`
unfoldable pub to_string : ℤ → List ℕ
unfolding nat_to_string
to_string (pos n) = nat_to_string n
to_string (negsuc n) = 45 ∷ nat_to_string (suc n)

-- The value of the leading digits, added to what `acc` holds.
unfoldable pub digits_value : ℕ → List ℕ → ℕ
digits_value acc [] = acc
digits_value acc (c ∷ cs) =
    let rest = digits_value (acc * 10 + (c - 48)) cs in if is_digit c then rest else acc

skip_space : List ℕ → List ℕ
skip_space [] = []
skip_space (c ∷ cs) = let rest = skip_space cs in if is_space c then rest else c ∷ cs

starts_digit : List ℕ → Bool
starts_digit [] = false
starts_digit (c ∷ cs) = is_digit c

abbrev pub int_max : ℕ
int_max = 2147483647

-- `invalid_argument` and `out_of_range` are both `none`.
unsigned_value : List ℕ → Option ℤ
unfolding digits_value starts_digit
unsigned_value cs =
    if starts_digit cs
    then if leb (digits_value 0 cs) int_max then some (pos (digits_value 0 cs)) else none
    else none

negative_value : List ℕ → Option ℤ
unfolding digits_value starts_digit
negative_value cs =
    if starts_digit cs
    then if digits_value 0 cs == 0
      then some (pos 0)
      else if leb (digits_value 0 cs) (int_max + 1)
      then some (negsuc (digits_value 0 cs - 1))
      else none
    else none

signed_value : List ℕ → Option ℤ
unfolding unsigned_value negative_value
signed_value [] = none
signed_value (c ∷ cs) =
    if c == 45
    then negative_value cs
    else if c == 43
    then unsigned_value cs
    else unsigned_value (c ∷ cs)

-- `std::stoi` in base 10; `none` is a standard exception.
unfoldable pub stoi : List ℕ → Option ℤ
unfolding skip_space signed_value
stoi cs = signed_value (skip_space cs)

-- The int that holds a value: 32 bits, in two's complement.
unfoldable pub wrap_int : ℤ → ℤ
wrap_int (pos n) = let r = n % 2 ^ 32 in if ltb r (2 ^ 31) then pos r else negsuc (2 ^ 32 - r - 1)
wrap_int (negsuc n) =
    let r = n % 2 ^ 32 in if ltb r (2 ^ 31) then negsuc r else pos (2 ^ 32 - r - 1)

stoi_tests :
    (stoi (48 ∷ 52 ∷ 50 ∷ 120 ∷ []) ≡ some (pos 42))
    × (stoi (32 ∷ 45 ∷ 55 ∷ []) ≡ some (negsuc 6))
    × (stoi (45 ∷ []) ≡ none)
unfolding stoi
stoi_tests = (refl, refl, refl)

to_string_tests : (to_string (pos 0) ≡ 48 ∷ []) × (to_string (negsuc 119) ≡ 45 ∷ 49 ∷ 50 ∷ 48 ∷ [])
unfolding to_string
to_string_tests = (refl, refl)
