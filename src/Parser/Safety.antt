-- ===== src/Parser/Safety.antt =====
-- What the parser guarantees of the messages that it accepts (ServerIList/Parser.cpp).
use server_ilist.Prelude.{◌≡◌, true, false, List, arith, All, drop, drop_last, some, Option, ℤ}
use server_ilist.Text.{Text, has_char, has_double}
use server_ilist.Text.Split.{split}
use server_ilist.Text.Split.Laws.{
  split-lacks, split-lacks_self, split-no_double, All-drop_last, All-drop_one, All-triple,
}
use server_ilist.Exception.{ok}
use server_ilist.Config.{find_msg_code}
use server_ilist.Parser.{Parser, parse, parse_code, finish}

parse_code-known : (t : Text) (code : ℤ) → parse_code t ≡ some code → find_msg_code code ≡ true
unfolding parse_code
parse_code-known t code h = ground arith

finish-eq_ok :
    (msg : Text) (items : List Text) (o : Option ℤ) (p : Parser)
    → finish msg items o ≡ ok p
    → (p.args ≡ drop_last (drop 1 items)) × (o ≡ some p.msg_code)
unfolding finish
finish-eq_ok msg items o p h = ground arith

-- The tests that an accepted message has passed.
pub parse-eq_ok :
    (msg : Text) (p : Parser)
    → parse msg ≡ ok p
    → (has_char b'\'' msg ≡ false)
      × (has_double b'-' msg ≡ false)
      × (p.args ≡ drop_last (drop 1 (split b'|' msg)))
      × (find_msg_code p.msg_code ≡ true)
unfolding parse
parse-eq_ok msg p h = ground arith

-- No argument has a quote, a bar or two dashes in a row.
abbrev pub IsHarmless : Text → Type 0
IsHarmless t = (has_char b'\'' t ≡ false) × (has_double b'-' t ≡ false) × (has_char b'|' t ≡ false)

-- An accepted message has a known code, and no argument of it has a quote, a bar or two dashes in a
-- row.
pub parse-IsHarmless :
    (msg : Text) (p : Parser)
    → parse msg ≡ ok p
    → (find_msg_code p.msg_code ≡ true) × All IsHarmless p.args
parse-IsHarmless msg p h =
    let (quotes, dashes, args, known) = parse-eq_ok msg p h in
    (
      known,
      rw args (
          All-drop_last IsHarmless _ (
            All-drop_one IsHarmless _ (
              All-triple _ _ _ (split b'|' msg) (split-lacks b'|' b'\'' msg quotes)
                (split-no_double b'|' b'-' msg dashes) (split-lacks_self b'|' msg)))),
    )
