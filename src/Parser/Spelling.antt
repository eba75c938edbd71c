-- ===== src/Parser/Spelling.antt =====
-- Bars, quotes and dashes in the arguments of a message that `makeReceiveMessgae` builds.
use mathlib.Core.List.{append_assoc}
use server_ilist.Prelude.{
  ℕ, ◌-◌, ◌≤◌, ◌≡◌, refl, ◌≢◌, false, ◌||◌, List, [], ◌∷◌, ◌++◌, arith, All, drop, length,
  length-append, ap, ◌==◌,
}
use server_ilist.Text.{Text, lit, has_char, has_double}
use server_ilist.Text.Split.{split}
use server_ilist.Text.Split.Laws.{split-item}
use server_ilist.Parser.Safety.{IsHarmless}
use server_ilist.Manager.{join_args}

-- An argument that a message can carry: not empty, and with no quote, bar or double dash.
abbrev pub IsArgument : Text → Type 0
IsArgument t = (t ≢ []) × IsHarmless t

pub has_char-append :
    (c : ℕ) (xs ys : Text) → has_char c (xs ++ ys) ≡ (has_char c xs || has_char c ys)
unfolding has_char
has_char-append c [] ys = refl
has_char-append c (x ∷ xs) ys = ground (arith, has_char-append c xs ys)

-- A bar keeps two texts apart.
pub has_double-append_bar :
    (c : ℕ) (xs ys : Text)
    → (124 == c) ≡ false
    → has_double c (xs ++ 124 ∷ ys) ≡ (has_double c xs || has_double c ys)
unfolding has_double
has_double-append_bar c [] [] h = refl
has_double-append_bar c [] (y ∷ ys) h = ground arith
has_double-append_bar c (x ∷ []) [] h = ground arith
has_double-append_bar c (x ∷ []) (y ∷ ys) h = ground arith
has_double-append_bar c (x ∷ z ∷ xs) ys h = ground (arith, has_double-append_bar c (z ∷ xs) ys h)

-- A text with no bar, between bars.
pub has_double-skip :
    (xs ys : Text)
    → has_char 124 xs ≡ false
    → has_double 124 (xs ++ 124 ∷ ys) ≡ has_double 124 (124 ∷ ys)
unfolding has_double has_char
has_double-skip [] ys h = refl
has_double-skip (x ∷ []) ys h = ground arith
has_double-skip (x ∷ z ∷ xs) ys h = ground (arith, has_double-skip (z ∷ xs) ys)

pub join_args-cons :
    (a : Text) (args : List Text) → join_args (a ∷ args) ≡ a ++ 124 ∷ join_args args
unfolding join_args lit
join_args-cons a args = append_assoc a (124 ∷ []) (join_args args)

module _ (c : ℕ) (bar : (124 == c) ≡ false) where
  pub has_char-join_args :
      (args : List Text)
      → All (λ t. has_char c t ≡ false) args
      → has_char c (join_args args ++ 124 ∷ []) ≡ false
  unfolding has_char
  has_char-join_args [] h = unfold join_args in ground arith
  has_char-join_args (a ∷ args) h =
      rw
        (
          join_args-cons a args,
          append_assoc a (124 ∷ join_args args) (124 ∷ []),
          has_char-append c a,
        )
        (ground (arith, has_char-join_args args h.1))

  pub has_double-join_args :
      (args : List Text)
      → All (λ t. has_double c t ≡ false) args
      → has_double c (join_args args ++ 124 ∷ []) ≡ false
  has_double-join_args [] h = unfold join_args has_double in refl
  has_double-join_args (a ∷ args) h =
      rw
        (
          join_args-cons a args,
          append_assoc a (124 ∷ join_args args) (124 ∷ []),
          has_double-append_bar c a _ bar,
        )
        (ground (arith, has_double-join_args args h.1))

pub no_bar_step :
    (x : ℕ) (t rest : Text)
    → has_char 124 (x ∷ t) ≡ false
    → has_double 124 (124 ∷ rest) ≡ false
    → has_double 124 (124 ∷ ((x ∷ t) ++ 124 ∷ rest)) ≡ false
unfolding has_double has_char
no_bar_step x t rest h d = ground (arith, has_double-skip (x ∷ t) rest h)

pub no_bars_together :
    (args : List Text) → All IsArgument args → has_double 124 (124 ∷ join_args args) ≡ false
no_bars_together [] h = unfold join_args has_double in refl
no_bars_together ([] ∷ args) h = absurd (h.0.0 refl)
no_bars_together ((x ∷ t) ∷ args) h =
    rw (join_args-cons (x ∷ t) args)
      (no_bar_step x t (join_args args) h.0.1.2 (no_bars_together args h.1))

pub split-join_args :
    (args : List Text)
    → All IsArgument args
    → split 124 (join_args args ++ 124 ∷ []) ≡ args ++ [] ∷ []
split-join_args [] h = unfold join_args split in refl
split-join_args (a ∷ args) h =
    rw
      (
        join_args-cons a args,
        append_assoc a (124 ∷ join_args args) (124 ∷ []),
        split-item 124 a _ h.0.1.2,
      )
      (ap (λ t. a ∷ t) (split-join_args args h.1))

pub ends_with_bar : (args : List Text) → (ys : Text) × (124 ∷ join_args args ≡ ys ++ 124 ∷ [])
ends_with_bar [] = ([], unfold join_args in refl)
ends_with_bar (a ∷ args) =
    let (ys, e) = ends_with_bar args in
    (124 ∷ (a ++ ys), rw (join_args-cons a args, e, append_assoc a ys (124 ∷ [])) refl)

pub drop-length_append : (xs ys : Text) → drop (length xs) (xs ++ ys) ≡ ys
drop-length_append [] ys = refl
drop-length_append (x ∷ xs) ys = drop-length_append xs ys

pub map_quotes : (args : List Text) → All IsArgument args → All (λ t. has_char 39 t ≡ false) args
map_quotes [] h = tt
map_quotes (a ∷ args) h = (h.0.1.0, map_quotes args h.1)

pub map_dashes : (args : List Text) → All IsArgument args → All (λ t. has_double 45 t ≡ false) args
map_dashes [] h = tt
map_dashes (a ∷ args) h = (h.0.1.1, map_dashes args h.1)

pub double_of_char : (c : ℕ) (xs : Text) → has_char c xs ≡ false → has_double c xs ≡ false
unfolding has_double has_char
double_of_char c [] h = refl
double_of_char c (x ∷ []) h = refl
double_of_char c (x ∷ y ∷ xs) h = ground (arith, double_of_char c (y ∷ xs))

pub length_pos : (xs : Text) → xs ≢ [] → 1 ≤ length xs
length_pos [] h = absurd (h refl)
length_pos (x ∷ xs) h = omega arith

pub drop_two :
    (zs : Text) → drop (length (zs ++ 124 ∷ 124 ∷ []) - 2) (zs ++ 124 ∷ 124 ∷ []) ≡ 124 ∷ 124 ∷ []
drop_two zs =
    let e : length (zs ++ 124 ∷ 124 ∷ []) - 2 ≡ length zs =
      omega (arith, length-append zs (124 ∷ 124 ∷ [])) in
    rw e (drop-length_append zs (124 ∷ 124 ∷ []))
