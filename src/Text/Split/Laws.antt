-- ===== src/Text/Split/Laws.antt =====
-- What the items of a split text hold, and the split of a text put together from items.
use server_ilist.Prelude.{
  ℕ, ◌≡◌, refl, false, ◌&&◌, List, [], ◌∷◌, ◌++◌, arith, ◌==◌, All, drop, drop_last, inl, inr,
  Bool-cases,
}
use server_ilist.Text.{has_char, has_double}
use server_ilist.Text.Split.{split, attach}

-- A character that is not in the text is in no item.
pub split-lacks :
    (ch c : ℕ) (xs : List ℕ) → has_char c xs ≡ false → All (λ t. has_char c t ≡ false) (split ch xs)
unfolding split has_char
split-lacks ch c [] h = tt
split-lacks ch c (x ∷ xs) h = elim (Bool-cases (x == ch)) [
  | inl e ↦ rw e (refl, split-lacks ch c xs (ground arith))
  | inr e ↦ rw e (join (split ch xs) (split-lacks ch c xs (ground arith)))
]
  where
    join :
        (rest : List (List ℕ))
        → All (λ t. has_char c t ≡ false) rest
        → All (λ t. has_char c t ≡ false) (attach x rest)
    join [] a = (ground arith, tt)
    join (t ∷ ts) a = (ground arith, a.1)

-- The delimiter is in no item.
pub split-lacks_self : (ch : ℕ) (xs : List ℕ) → All (λ t. has_char ch t ≡ false) (split ch xs)
unfolding split has_char
split-lacks_self ch [] = tt
split-lacks_self ch (x ∷ xs) = elim (Bool-cases (x == ch)) [
  | inl e ↦ rw e (refl, split-lacks_self ch xs)
  | inr e ↦ rw e (join e (split ch xs) (split-lacks_self ch xs))
]
  where
    join :
        (x == ch) ≡ false
        → (rest : List (List ℕ)) → All (λ t. has_char ch t ≡ false) rest
        → All (λ t. has_char ch t ≡ false) (attach x rest)
    join e [] a = (ground arith, tt)
    join e (t ∷ ts) a = (ground arith, a.1)

attach-double :
    (c x y : ℕ) (rest : List (List ℕ))
    → (x == c && y == c) ≡ false
    → All (λ t. has_double c t ≡ false) (attach y rest)
    → All (λ t. has_double c t ≡ false) (attach x (attach y rest))
unfolding has_double
attach-double c x y [] h a = (ground arith, tt)
attach-double c x y (t ∷ ts) h a = (ground arith, a.1)

cons-double :
    (ch c x y : ℕ) (ys : List ℕ)
    → (x == c && y == c) ≡ false
    → All (λ t. has_double c t ≡ false) (split ch (y ∷ ys))
    → All (λ t. has_double c t ≡ false) (split ch (x ∷ y ∷ ys))
unfolding split has_double
cons-double ch c x y ys h = elim (Bool-cases (x == ch)) [
  | inl e ↦ rw e (λ a. (refl, a))
  | inr e ↦ rw e (elim (Bool-cases (y == ch)) [
    | inl f ↦ rw f (λ a. (refl, a.1))
    | inr f ↦ rw f (attach-double c x y (split ch ys) h)
  ])
]

-- A character that never stands twice in a row in the text never does in an item.
pub split-no_double :
    (ch c : ℕ) (xs : List ℕ)
    → has_double c xs ≡ false
    → All (λ t. has_double c t ≡ false) (split ch xs)
unfolding has_double
split-no_double ch c [] h = unfold split in tt
split-no_double ch c (x ∷ []) h = elim (Bool-cases (x == ch)) [
  | inl e ↦ unfold split in rw e (refl, tt)
  | inr e ↦ unfold split in rw e (refl, tt)
]
split-no_double ch c (x ∷ y ∷ ys) h =
    cons-double ch c x y ys (ground arith) (split-no_double ch c (y ∷ ys) (ground arith))

-- An item without the delimiter, then the delimiter.
pub split-item :
    (ch : ℕ) (t xs : List ℕ) → has_char ch t ≡ false → split ch (t ++ ch ∷ xs) ≡ t ∷ split ch xs
unfolding split has_char
split-item ch [] xs h = ground arith
split-item ch (x ∷ t) xs h = rw (split-item ch t xs (ground arith)) (ground arith)

module _ {ℓ κ} {A : Type ℓ} (P : A → Type κ) where
  pub All-drop_last : (xs : List A) → All P xs → All P (drop_last xs)
  All-drop_last [] a = tt
  All-drop_last (x ∷ []) a = tt
  All-drop_last (x ∷ y ∷ xs) a = (a.0, All-drop_last (y ∷ xs) a.1)

  pub All-drop_one : (xs : List A) → All P xs → All P (drop 1 xs)
  All-drop_one [] a = tt
  All-drop_one (x ∷ xs) a = a.1

module _ {ℓ κ} {A : Type ℓ} (P Q R : A → Type κ) where
  pub All-triple : (xs : List A) → All P xs → All Q xs → All R xs → All (λ x. P x × Q x × R x) xs
  All-triple [] p q r = tt
  All-triple (x ∷ xs) p q r = ((p.0, q.0, r.0), All-triple xs p.1 q.1 r.1)
