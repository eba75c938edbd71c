-- ===== src/Text.antt =====
-- Texts as the program holds them in `std::string`: sequences of bytes.
pub mod Number
pub mod Split
use Prim.Native.Char.{code}
use server_ilist.Prelude.{
  ℕ, String, ◌≡◌, refl, ◌↔◌, ap, Bool, true, false, ◌&&◌, ◌||◌, List, [], ◌∷◌, ◌++◌, arith, ◌==◌,
}

abbrev pub Text : Type 0
Text = List ℕ

-- The bytes of a literal of the source.
abbrev codes : String → Text
codes String.[] = []
codes (String.◌∷◌ c s) = code c ∷ codes s

-- Shut, so that a proof does not spell literals out.
unfoldable pub lit : String → Text
lit t = codes t

-- `operator==` of two strings.
unfoldable pub text_eq : Text → Text → Bool
text_eq [] [] = true
text_eq [] (y ∷ ys) = false
text_eq (x ∷ xs) [] = false
text_eq (x ∷ xs) (y ∷ ys) = x == y && text_eq xs ys

pub eq_of_text_eq : (a b : Text) → text_eq a b ≡ true → a ≡ b
unfolding text_eq
eq_of_text_eq [] [] h = refl
eq_of_text_eq [] (y ∷ ys) h = ground arith
eq_of_text_eq (x ∷ xs) [] h = ground arith
eq_of_text_eq (x ∷ xs) (y ∷ ys) h = ground (arith, eq_of_text_eq xs ys)

pub text_eq_refl : (a : Text) → text_eq a a ≡ true
unfolding text_eq
text_eq_refl [] = refl
text_eq_refl (x ∷ xs) = ground (arith, text_eq_refl xs)

pub text_eq_iff : (a b : Text) → (text_eq a b ≡ true) ↔ (a ≡ b)
text_eq_iff a b = (eq_of_text_eq a b, λ e. ground (arith, text_eq_refl a))

-- `find(c) != npos` for one character.
unfoldable pub has_char : ℕ → Text → Bool
has_char c [] = false
has_char c (x ∷ xs) = x == c || has_char c xs

-- A character twice in a row somewhere: `find` of a two-character text, and the loop of
-- `same_char_in_a_row`.
unfoldable pub has_double : ℕ → Text → Bool
has_double c [] = false
has_double c (x ∷ []) = false
has_double c (x ∷ y ∷ xs) = (x == c && y == c) || has_double c (y ∷ xs)
