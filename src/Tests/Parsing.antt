-- ===== src/Tests/Parsing.antt =====
-- The parser's theorems at messages.
use server_ilist.Prelude.{◌≡◌, refl, ◌∷◌, [], pos, true, All, arith}
use server_ilist.Text.{Text, lit, has_char, has_double, text_eq}
use server_ilist.Text.Split.{split}
use server_ilist.Text.Number.{stoi, to_string}
use server_ilist.Text.Number.RoundTrip.{stoi-to_string}
use server_ilist.Prelude.{negsuc, some}
use server_ilist.Exception.{ok}
use server_ilist.Config.{find_msg_code, all_messages_codes}
use server_ilist.Config.Search.{scan_codes, find_msg_code-eq-scan}
use server_ilist.Parser.{Parser, parse}
use server_ilist.Parser.Safety.{parse-IsHarmless, IsHarmless}
use server_ilist.Parser.RoundTrip.{parse-make_receive}
use server_ilist.Manager.{make_receive}

-- `@13|7||`
abbrev message : Text
message = 64 ∷ 49 ∷ 51 ∷ 124 ∷ 55 ∷ 124 ∷ 124 ∷ []

abbrev parsed : Parser
parsed = record { message = message; args = (55 ∷ []) ∷ []; msg_code = pos 13 }

parse_message : parse message ≡ ok parsed
unfolding parse stoi find_msg_code text_eq has_char has_double split lit
parse_message = refl

parse-IsHarmless_example : (find_msg_code (pos 13) ≡ true) × All IsHarmless ((55 ∷ []) ∷ [])
parse-IsHarmless_example = parse-IsHarmless message parsed parse_message

parse-make_receive_example :
    parse (make_receive 13 ((55 ∷ []) ∷ []))
    ≡ ok (record {
      message = make_receive 13 ((55 ∷ []) ∷ []);
      args = (55 ∷ []) ∷ [];
      msg_code = pos 13;
    })
unfolding find_msg_code has_char has_double
parse-make_receive_example =
    parse-make_receive 13 ((55 ∷ []) ∷ []) refl (omega arith)
      (((λ e. cc e), (refl, refl, refl)), tt)

stoi-to_string_example : stoi (to_string (negsuc 41)) ≡ some (negsuc 41)
stoi-to_string_example = stoi-to_string (negsuc 41) (omega arith)

find_msg_code-eq-scan_example : find_msg_code (pos 310) ≡ scan_codes (pos 310) all_messages_codes
find_msg_code-eq-scan_example = find_msg_code-eq-scan (pos 310)
