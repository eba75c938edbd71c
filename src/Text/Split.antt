-- ===== src/Text/Split.antt =====
-- `std::getline` with a delimiter over a string stream.
pub mod Laws
use server_ilist.Prelude.{ℕ, List, [], ◌∷◌, ◌==◌, if◌then◌else◌}

abbrev pub attach : ℕ → List (List ℕ) → List (List ℕ)
attach x [] = (x ∷ []) ∷ []
attach x (t ∷ ts) = (x ∷ t) ∷ ts

-- The items that repeated `getline` reads: a delimiter ends an item, and what is left after the
-- last delimiter is an item only if it is not empty.
unfoldable pub split : ℕ → List ℕ → List (List ℕ)
split ch [] = []
split ch (x ∷ xs) = let rest = split ch xs in if x == ch then [] ∷ rest else attach x rest
