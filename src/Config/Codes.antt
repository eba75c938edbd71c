-- ===== src/Config/Codes.antt =====
-- The codes that ServerIList/Config.h defines, against its table of them.
use server_ilist.Prelude.{ℕ, Bool, ◌≡◌, refl, not, ◌==◌, any, List, [], ◌∷◌, pos, select}
use server_ilist.Config.{all_messages_codes, find_msg_code}

-- The codes that are defined by name, from EN_REGISTER to ERR_GENERAL.
unfoldable defined_codes : List ℕ
defined_codes =
    1 ∷ 2 ∷ 3 ∷ 10 ∷ 11 ∷ 12 ∷ 13 ∷ 14 ∷ 15 ∷ 16 ∷ 20 ∷ 21 ∷ 22 ∷ 30 ∷ 40 ∷ 100 ∷ 101 ∷ 102 ∷ 103
    ∷ 104 ∷ 105 ∷ 106 ∷ 110 ∷ 111 ∷ 112 ∷ 113 ∷ 114 ∷ 120 ∷ 121 ∷ 122 ∷ 123 ∷ 124 ∷ 125 ∷ 130 ∷ 131
    ∷ 200 ∷ 201 ∷ 202 ∷ 203 ∷ 220 ∷ 221 ∷ 300 ∷ 310 ∷ 400 ∷ 500 ∷ []

abbrev in_table : ℕ → List ℕ → Bool
in_table code codes = any (λ c. c == code) codes

-- PGM_SCC_LOGIN, PGM_GET_GROUPS_LIST and CHA_ERR are not in the table, which has three codes
-- without a name.
codes_tests :
    (select (λ c. not (find_msg_code (pos c))) defined_codes ≡ 100 ∷ 106 ∷ 310 ∷ [])
    × (select (λ c. not (in_table c defined_codes)) all_messages_codes ≡ 23 ∷ 24 ∷ 301 ∷ [])
unfolding defined_codes find_msg_code all_messages_codes
codes_tests = (refl, refl)
