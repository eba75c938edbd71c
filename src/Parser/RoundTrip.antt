-- ===== src/Parser/RoundTrip.antt =====
-- A message that is built by `makeReceiveMessgae` is read back by the parser.
use mathlib.Core.List.{append_assoc}
use mathlib.Core.Path.{subst}
use server_ilist.Prelude.{
  ℕ, ◌-◌, ◌≤◌, ◌≡◌, refl, true, false, List, [], ◌∷◌, ◌++◌, arith, All, drop, drop_last, length,
  length-append, drop_last-append, ap, ◌∙◌, sym, some, ℤ, pos, ltb,
}
use server_ilist.Text.{Text, lit, text_eq, has_char, has_double}
use server_ilist.Text.Number.{nat_to_string, to_string, int_max, stoi, is_digit}
use server_ilist.Text.Number.RoundTrip.{
  has_char-nat_to_string, stoi-nat_to_string, nat_to_string-ne_nil,
}
use server_ilist.Text.Split.{split}
use server_ilist.Text.Split.Laws.{split-item}
use server_ilist.Exception.{ok}
use server_ilist.Config.{find_msg_code}
use server_ilist.Parser.{parse, parse_code}
use server_ilist.Manager.{make_receive, join_args}
use server_ilist.Parser.Spelling.{
  IsArgument, has_char-append, has_double-append_bar, has_double-skip, has_char-join_args,
  has_double-join_args, no_bars_together, split-join_args, ends_with_bar, map_quotes, map_dashes,
  double_of_char, length_pos, drop_two,
}

module _ (code : ℕ) (args : List Text) (good : All IsArgument args) where
  -- The message, with the separators written out.
  abbrev spelled : Text
  spelled = (64 ∷ nat_to_string code) ++ 124 ∷ (join_args args ++ 124 ∷ [])

  make_receive-eq-spelled : make_receive code args ≡ spelled
  unfolding make_receive lit to_string
  make_receive-eq-spelled =
      ap (λ t. 64 ∷ t) (append_assoc (nat_to_string code) (124 ∷ []) (join_args args ++ 124 ∷ []))

  no_digit_twice : (c : ℕ) → is_digit c ≡ false → has_char c (nat_to_string code) ≡ false
  no_digit_twice c d = has_char-nat_to_string c code d

  spelled_no_quote : has_char 39 spelled ≡ false
  spelled_no_quote = rw (has_char-append 39 (64 ∷ nat_to_string code)) (
      unfold has_char in
      rw (no_digit_twice 39 refl, has_char-join_args 39 refl args (map_quotes args good)) refl)

  spelled_no_dashes : has_double 45 spelled ≡ false
  spelled_no_dashes =
      rw (has_double-append_bar 45 (64 ∷ nat_to_string code) (join_args args ++ 124 ∷ []) refl) (
        rw (double_of_char 45 (64 ∷ nat_to_string code) (unfold has_char in no_digit_twice 45 refl))
          (has_double-join_args 45 refl args (map_dashes args good)))

  spelled-length : ltb (length spelled) 4 ≡ false
  spelled-length =
      let e = length-append (nat_to_string code) (124 ∷ (join_args args ++ 124 ∷ [])) in
      let f = length-append (join_args args) (124 ∷ []) in
      let g = length_pos (nat_to_string code) (nat_to_string-ne_nil code) in ground arith

  spelled_end : drop (length spelled - 2) spelled ≡ 124 ∷ 124 ∷ []
  spelled_end =
      let (ys, e) = ends_with_bar args in
      let zs = (64 ∷ nat_to_string code) ++ ys in
      let s : spelled ≡ zs ++ 124 ∷ 124 ∷ [] =
        ap (λ t. (64 ∷ nat_to_string code) ++ (t ++ 124 ∷ [])) e
        ∙ (ap (λ t. (64 ∷ nat_to_string code) ++ t) (append_assoc ys (124 ∷ []) (124 ∷ []))
            ∙ sym (append_assoc (64 ∷ nat_to_string code) ys (124 ∷ 124 ∷ []))) in
      subst (λ t. drop (length t - 2) t ≡ 124 ∷ 124 ∷ []) (sym s) (drop_two zs)

  spelled_no_bars : has_double 124 (drop_last spelled) ≡ false
  spelled_no_bars =
      let zs = (64 ∷ nat_to_string code) ++ 124 ∷ join_args args in
      let s : spelled ≡ zs ++ 124 ∷ [] =
        sym (append_assoc (64 ∷ nat_to_string code) (124 ∷ join_args args) (124 ∷ [])) in
      rw
        (
          s,
          drop_last-append zs 124,
          has_double-skip (64 ∷ nat_to_string code) (join_args args)
              (unfold has_char in no_digit_twice 124 refl),
        )
        (no_bars_together args good)

  spelled-split : split 124 spelled ≡ (64 ∷ nat_to_string code) ∷ (args ++ [] ∷ [])
  spelled-split =
      rw (split-item 124 (64 ∷ nat_to_string code) _ (unfold has_char in no_digit_twice 124 refl))
        (rw (split-join_args args good) refl)

module _ (digits : Text) {code : ℤ} (known : find_msg_code code ≡ true) where
  parse_code-known : stoi digits ≡ some code → parse_code digits ≡ some code
  unfolding parse_code
  parse_code-known e = ground arith

-- A message that makeReceiveMessgae builds from a known code and arguments that are not empty and
-- have no quote, bar or double dash is accepted by the parser, which finds the same code and the
-- same arguments.
pub parse-make_receive :
    (code : ℕ) (args : List Text)
    → find_msg_code (pos code) ≡ true
    → code ≤ int_max
    → All IsArgument args
    → parse (make_receive code args)
      ≡ ok (record { message = make_receive code args; args = args; msg_code = pos code })
unfolding parse
parse-make_receive code args known small good = rw (make_receive-eq-spelled code args good) (
    rw
      (
        spelled-length code args good,
        spelled_no_quote code args good,
        spelled_no_dashes code args good,
        spelled_end code args good,
        spelled_no_bars code args good,
        spelled-split code args good,
      )
      (unfold text_eq lit in
        rw (parse_code-known (nat_to_string code) known (stoi-nat_to_string code small))
          (rw (drop_last-append args []) refl)))
