-- ===== src/Sqlite/Schema/Find.antt =====
-- The first row of a selection.
use server_ilist.Prelude.{
  ◌≡◌, refl, Bool, List, [], ◌∷◌, none, some, arith, select, Bool-cases, inl, inr,
}
use server_ilist.Sqlite.Schema.{find}

module _ {ℓ} {A : Type ℓ} (p : A → Bool) where
  pub select-eq_nil_of_find : (xs : List A) → find p xs ≡ none → select p xs ≡ []
  unfolding find
  select-eq_nil_of_find [] h = refl
  select-eq_nil_of_find (x ∷ xs) h = ground (arith, select-eq_nil_of_find xs)

  pub select-eq_cons_of_find :
      (xs : List A) (x : A) → find p xs ≡ some x → (rest : List A) × (select p xs ≡ x ∷ rest)
  unfolding find
  select-eq_cons_of_find [] x h = ground arith
  select-eq_cons_of_find (y ∷ xs) x h = elim (Bool-cases (p y)) [
    | inl e ↦ (select p xs, ground arith)
    | inr e ↦ let (rest, f) = select-eq_cons_of_find xs x (ground arith) in (rest, ground arith)
  ]
