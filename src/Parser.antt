-- ===== src/Parser.antt =====
-- The message parser, ServerIList/Parser.cpp.
pub mod Safety
pub mod RoundTrip
pub mod Spelling
use server_ilist.Prelude.{
  ℕ, ◌-◌, ◌≡◌, refl, Bool, true, false, not, ◌||◌, Option, none, some, List, [], ◌∷◌, ℤ, pos,
  length, drop, drop_last, get_or, ltb, ◌==◌, if◌then◌else◌,
}
use server_ilist.Text.{Text, lit, text_eq, has_char, has_double}
use server_ilist.Text.Number.{stoi}
use server_ilist.Text.Split.{split}
use server_ilist.Exception.{
  Exception, syntax_error, sql_injection, invalid_code_number, Failure, thrown, Outcome, ok, fails,
}
use server_ilist.Config.{find_msg_code}

-- `class Parser`
pub record Parser : Type 0 where
  pub message : Text
  pub args : List Text
  pub msg_code : ℤ

-- The `try` block round `stoi`: every exception in it becomes InvalidCodeNumberException.
parse_code : Text → Option ℤ
parse_code str_code = elim (stoi str_code) [
  | none ↦ none
  | some code ↦ if find_msg_code code then some code else none
]

-- The arguments after the code: the first and the last item are erased.
finish : Text → List Text → Option ℤ → Outcome Parser
finish msg args none = fails (thrown invalid_code_number)
finish msg args (some code) =
    ok (record { message = msg; args = drop_last (drop 1 args); msg_code = code })

-- The constructor `Parser::Parser`: the quote is 39, the dash 45, `@` 64 and the bar 124.
unfoldable pub parse : Text → Outcome Parser
unfolding parse_code finish
parse msg =
    if ltb (length msg) 4
    then fails (thrown syntax_error)
    else if has_char b'\'' msg || has_double b'-' msg
    then fails (thrown (sql_injection (lit "Parser C'tor")))
    else if not (get_or msg 0 0 == b'@') || not (text_eq (drop (length msg - 2) msg) (lit "||"))
    then fails (thrown syntax_error)
    else if has_double b'|' (drop_last msg)
    then fails (thrown syntax_error)
    else finish msg (split b'|' msg) (parse_code (drop 1 (get_or (split b'|' msg) 0 [])))

parse_tests :
    (parse (lit "@13|7|dana||")
      ≡ ok (record {
        message = lit "@13|7|dana||";
        args = lit "7" ∷ lit "dana" ∷ [];
        msg_code = pos 13;
      }))
    × (parse (lit "@3||") ≡ ok (record { message = lit "@3||"; args = []; msg_code = pos 3 }))
    × (parse (lit "@9|a||") ≡ fails (thrown invalid_code_number))
    × (parse (lit "@1|||") ≡ fails (thrown syntax_error))
unfolding parse stoi find_msg_code text_eq has_char has_double split lit
parse_tests = (refl, refl, refl, refl)
