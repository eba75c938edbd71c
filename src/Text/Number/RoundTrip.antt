-- ===== src/Text/Number/RoundTrip.antt =====
-- `stoi` reads back what `to_string` prints.
use server_ilist.Prelude.{
  length, ◌-◌, ◌≤◌, subst, sym, sym, ap, all, ℕ, zero, suc, ◌+◌, ◌/◌, ◌%◌, ◌^◌, ◌≤◌, ◌<◌, ◌≡◌, refl,
  true, false, List, [], ◌∷◌, some, ℤ, pos, negsuc, arith, ltb, Bool-cases, inl, inr, ◌∙◌,
}
use server_ilist.Text.{has_char}
use server_ilist.Text.Number.{
  show_digits, nat_to_string, to_string, digits_value, is_digit, starts_digit, skip_space,
  unsigned_value, negative_value, signed_value, stoi, int_max, wrap_int,
}

digits_value-show :
    (f n : ℕ) (rest : List ℕ) → n < f → digits_value 0 (show_digits f n rest) ≡ digits_value n rest
unfolding show_digits digits_value
digits_value-show zero n rest h = absurd (omega arith)
digits_value-show (suc f) n rest h = elim (Bool-cases (ltb n 10)) [
  | inl small ↦ rw small (ground arith)
  | inr big ↦
      rw big (digits_value-show f (n / 10) ((48 + n % 10) ∷ rest) (ground arith) ∙ ground arith)
]

starts_digit-show : (f n : ℕ) (rest : List ℕ) → n < f → starts_digit (show_digits f n rest) ≡ true
unfolding show_digits starts_digit
starts_digit-show zero n rest h = absurd (omega arith)
starts_digit-show (suc f) n rest h = elim (Bool-cases (ltb n 10)) [
  | inl small ↦ rw small (ground arith)
  | inr big ↦ rw big (starts_digit-show f (n / 10) ((48 + n % 10) ∷ rest) (ground arith))
]

has_char-show :
    (c f n : ℕ) (rest : List ℕ)
    → is_digit c ≡ false
    → has_char c rest ≡ false
    → has_char c (show_digits f n rest) ≡ false
unfolding show_digits has_char
has_char-show c zero n rest d h = h
has_char-show c (suc f) n rest d h = elim (Bool-cases (ltb n 10)) [
  | inl small ↦ rw small (ground arith)
  | inr big ↦ rw big (has_char-show c f (n / 10) ((48 + n % 10) ∷ rest) d (ground arith))
]

length-show :
    (f n : ℕ) → 1000 ≤ n → n ≤ 9999 → length (show_digits (suc (suc (suc (suc f)))) n []) ≡ 4
unfolding show_digits
length-show f n low high = ground arith

-- A number from 1000 to 9999 has four digits.
pub length-nat_to_string : (n : ℕ) → 1000 ≤ n → n ≤ 9999 → length (nat_to_string n) ≡ 4
unfolding nat_to_string
length-nat_to_string n low high =
    let fuel : suc n ≡ suc (suc (suc (suc (n - 3)))) = omega arith in
    subst (λ f. length (show_digits f n []) ≡ 4) (sym fuel) (length-show (n - 3) n low high)

starts_digit-nat_to_string : (n : ℕ) → starts_digit (nat_to_string n) ≡ true
unfolding nat_to_string
starts_digit-nat_to_string n = starts_digit-show (suc n) n [] (omega arith)

-- A printed number has nothing but digits.
pub has_char-nat_to_string : (c n : ℕ) → is_digit c ≡ false → has_char c (nat_to_string n) ≡ false
unfolding nat_to_string has_char
has_char-nat_to_string c n d = has_char-show c (suc n) n [] d refl

digits_value-nat_to_string : (n : ℕ) → digits_value 0 (nat_to_string n) ≡ n
unfolding nat_to_string digits_value
digits_value-nat_to_string n = digits_value-show (suc n) n [] (omega arith)

stoi_of_digits : (cs : List ℕ) → starts_digit cs ≡ true → stoi cs ≡ unsigned_value cs
unfolding stoi skip_space signed_value starts_digit
stoi_of_digits [] h = ground arith
stoi_of_digits (c ∷ cs) h = ground arith

pub nat_to_string-injective : (m n : ℕ) → nat_to_string m ≡ nat_to_string n → m ≡ n
nat_to_string-injective m n e =
    sym (digits_value-nat_to_string m) ∙ (ap (digits_value 0) e ∙ digits_value-nat_to_string n)

pub stoi-nat_to_string : (n : ℕ) → n ≤ int_max → stoi (nat_to_string n) ≡ some (pos n)
stoi-nat_to_string n h = rw (stoi_of_digits _ (starts_digit-nat_to_string n)) (
    unfold unsigned_value in
    rw (starts_digit-nat_to_string n, digits_value-nat_to_string n) (ground arith))

-- The range of a 32-bit int.
abbrev pub IsInt : ℤ → Type 0
IsInt (pos n) = n ≤ int_max
IsInt (negsuc n) = n ≤ int_max

-- What is stored in an int is in its range.
pub wrap_int-IsInt : (i : ℤ) → IsInt (wrap_int i)
unfolding wrap_int
wrap_int-IsInt (pos n) = elim (Bool-cases (ltb (n % 2 ^ 32) (2 ^ 31))) [
  | inl low ↦ rw low (ground arith)
  | inr high ↦ rw high (ground arith)
]
wrap_int-IsInt (negsuc n) = elim (Bool-cases (ltb (n % 2 ^ 32) (2 ^ 31))) [
  | inl low ↦ rw low (ground arith)
  | inr high ↦ rw high (ground arith)
]

-- A value in range is stored as it is.
pub wrap_int_of_IsInt : (i : ℤ) → IsInt i → wrap_int i ≡ i
unfolding wrap_int
wrap_int_of_IsInt (pos n) h = ground arith
wrap_int_of_IsInt (negsuc n) h = ground arith

stoi_of_minus : (cs : List ℕ) → stoi (45 ∷ cs) ≡ negative_value cs
unfolding stoi skip_space signed_value
stoi_of_minus cs = refl

-- `stoi(to_string(i))` is `i`, for every 32-bit int, negative ones too.
pub stoi-to_string : (i : ℤ) → IsInt i → stoi (to_string i) ≡ some i
unfolding to_string
stoi-to_string (pos n) h = stoi-nat_to_string n h
stoi-to_string (negsuc n) h = rw (stoi_of_minus (nat_to_string (suc n))) (
    unfold negative_value in
    rw (starts_digit-nat_to_string (suc n), digits_value-nat_to_string (suc n)) (ground arith))

pub nat_to_string-ne_nil : (n : ℕ) → nat_to_string n ≡ [] → ⊥
nat_to_string-ne_nil n e =
    let h : starts_digit [] ≡ true = rw e at (starts_digit-nat_to_string n) in
    unfold starts_digit in cc h

all_digits-show :
    (f n : ℕ) (rest : List ℕ)
    → all is_digit rest ≡ true
    → all is_digit (show_digits f n rest) ≡ true
unfolding show_digits
all_digits-show zero n rest h = h
all_digits-show (suc f) n rest h = elim (Bool-cases (ltb n 10)) [
  | inl small ↦ rw small (ground arith)
  | inr big ↦ rw big (all_digits-show f (n / 10) ((48 + n % 10) ∷ rest) (ground arith))
]

pub all_digits-nat_to_string : (n : ℕ) → all is_digit (nat_to_string n) ≡ true
unfolding nat_to_string
all_digits-nat_to_string n = all_digits-show (suc n) n [] refl
