-- ===== src/Config.antt =====
-- The message codes of ServerIList/Config.h and the binary search over them.
pub mod Search
pub mod Codes
use server_ilist.Prelude.{
  ℕ, zero, suc, ◌+◌, ◌-◌, ◌/◌, ◌≡◌, refl, Bool, true, false, List, [], ◌∷◌, ℤ, pos, negsuc, length,
  get_or, ltb, ltb_ℤ, if◌then◌else◌,
}

abbrev pub en_register : ℕ
en_register = 1

abbrev pub en_login : ℕ
en_login = 2

abbrev pub en_logout : ℕ
en_logout = 3

abbrev pub gr_group_list : ℕ
gr_group_list = 10

abbrev pub gr_create_group : ℕ
gr_create_group = 11

abbrev pub gr_join_group : ℕ
gr_join_group = 12

abbrev pub gr_remove_user : ℕ
gr_remove_user = 13

abbrev pub gr_close_group : ℕ
gr_close_group = 14

abbrev pub gr_set_status : ℕ
gr_set_status = 15

abbrev pub gr_invite_user : ℕ
gr_invite_user = 16

abbrev pub lst_add_item : ℕ
lst_add_item = 20

abbrev pub lst_remove_item : ℕ
lst_remove_item = 21

abbrev pub lst_set_item : ℕ
lst_set_item = 22

abbrev pub re_restore : ℕ
re_restore = 40

abbrev pub pgm_scc_login : ℕ
pgm_scc_login = 100

abbrev pub pgm_scc_register : ℕ
pgm_scc_register = 101

abbrev pub pgm_scc_acte_created : ℕ
pgm_scc_acte_created = 102

abbrev pub pgm_get_groups_list : ℕ
pgm_get_groups_list = 106

abbrev pub pgm_ctr_new_user : ℕ
pgm_ctr_new_user = 110

abbrev pub pgm_ctr_status_changed : ℕ
pgm_ctr_status_changed = 112

abbrev pub pgm_ctr_group_closed : ℕ
pgm_ctr_group_closed = 113

abbrev pub pgm_ctr_user_leave : ℕ
pgm_ctr_user_leave = 114

abbrev pub lst_scc_add_item : ℕ
lst_scc_add_item = 200

abbrev pub lst_scc_remove_item : ℕ
lst_scc_remove_item = 201

abbrev pub lst_scc_set_item : ℕ
lst_scc_set_item = 202

-- `ALL_MESSAGES_CODES`
unfoldable pub all_messages_codes : List ℕ
all_messages_codes =
    1 ∷ 2 ∷ 3 ∷ 10 ∷ 11 ∷ 12 ∷ 13 ∷ 14 ∷ 15 ∷ 16 ∷ 20 ∷ 21 ∷ 22 ∷ 23 ∷ 24 ∷ 30 ∷ 40 ∷ 101 ∷ 102
    ∷ 103 ∷ 104 ∷ 105 ∷ 110 ∷ 111 ∷ 112 ∷ 113 ∷ 114 ∷ 120 ∷ 121 ∷ 122 ∷ 123 ∷ 124 ∷ 125 ∷ 130 ∷ 131
    ∷ 200 ∷ 201 ∷ 202 ∷ 203 ∷ 220 ∷ 221 ∷ 300 ∷ 301 ∷ 400 ∷ 500 ∷ []

-- The loop of FIND_MSG_CODE over `codes`. `right` is an int that may become -1, so the loop holds
-- `hi`, which is `right + 1`: `left <= right` is `left < hi`, `middle` is `(left + hi - 1) / 2`,
-- and `right = middle - 1` is `hi = middle`. Each round shrinks the range, so that a fuel above
-- `hi - left` is enough.
search_codes : List ℕ → ℤ → ℕ → ℕ → ℕ → Bool
search_codes codes code zero left hi = false
search_codes codes code (suc fuel) left hi =
    let middle = (left + hi - 1) / 2 in
    let lower = search_codes codes code fuel left middle in
    let upper = search_codes codes code fuel (middle + 1) hi in
    if ltb left hi
    then if ltb_ℤ code (pos (get_or codes middle 0))
      then lower
      else if ltb_ℤ (pos (get_or codes middle 0)) code
      then upper
      else true
    else false

-- `FIND_MSG_CODE`
unfoldable pub find_msg_code : ℤ → Bool
unfolding search_codes all_messages_codes
find_msg_code code =
    search_codes all_messages_codes code (length all_messages_codes + 1) 0
      (length all_messages_codes)

find_msg_code_tests :
    (find_msg_code (pos 1) ≡ true)
    × (find_msg_code (pos 500) ≡ true)
    × (find_msg_code (pos 310) ≡ false)
    × (find_msg_code (negsuc 0) ≡ false)
unfolding find_msg_code
find_msg_code_tests = (refl, refl, refl, refl)
