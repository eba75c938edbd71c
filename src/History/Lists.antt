-- ===== src/History/Lists.antt =====
-- Rows that a test does not select come and go without a change of what it selects.
use server_ilist.Prelude.{
  ◌≡◌, refl, Bool, true, false, not, none, List, [], ◌∷◌, ◌++◌, select, length, arith,
}
use server_ilist.Sqlite.Schema.{find, update}

module _ {A : Type 0} (p : A → Bool) where
  pub select-append_out :
      (xs : List A) (x : A) → p x ≡ false → select p (xs ++ x ∷ []) ≡ select p xs
  select-append_out [] x h = ground arith
  select-append_out (y ∷ xs) x h = ground (arith, select-append_out xs x h)

  pub find-append_out : (xs : List A) (x : A) → p x ≡ false → find p (xs ++ x ∷ []) ≡ find p xs
  unfolding find
  find-append_out [] x h = ground arith
  find-append_out (y ∷ xs) x h = ground (arith, find-append_out xs x h)

  module _ (q : A → Bool) (apart : (x : A) → p x ≡ true → q x ≡ false) where
    pub select_unrelated : (xs : List A) → select p (select (λ x. not (q x)) xs) ≡ select p xs
    select_unrelated [] = refl
    select_unrelated (x ∷ xs) = ground (arith, select_unrelated xs, apart x)

    pub find-select_unrelated : (xs : List A) → find p (select (λ x. not (q x)) xs) ≡ find p xs
    unfolding find
    find-select_unrelated [] = refl
    find-select_unrelated (x ∷ xs) = ground (arith, find-select_unrelated xs, apart x)

  pub length-select-update :
      (q : A → Bool) (f : A → A)
      → ((x : A) → p (f x) ≡ p x)
      → (xs : List A) → length (select p (update q f xs)) ≡ length (select p xs)
  unfolding update
  length-select-update q f same [] = refl
  length-select-update q f same (x ∷ xs) = ground (arith, length-select-update q f same xs, same x)

  pub find-select_out : (xs : List A) → find p (select (λ x. not (p x)) xs) ≡ none
  unfolding find
  find-select_out [] = refl
  find-select_out (x ∷ xs) = ground (arith, find-select_out xs)
