-- ===== src/Sqlite/Spelled.antt =====
-- Arguments of statements that are the literals that they seem to be.
use server_ilist.Prelude.{ℕ, ◌<◌, ◌^◌, ◌≡◌, ℤ, false, ℤ}
use server_ilist.Text.{Text, has_char}
use server_ilist.Text.Number.{nat_to_string, to_string}
use server_ilist.Text.Number.RoundTrip.{IsInt}
use server_ilist.Sqlite.Language.{
  Statement, select_login, select_register, select_exists, insert_account, insert_group,
  select_newest, insert_admin, delete_group, delete_members, delete_items, insert_member,
  update_number, delete_member, update_status, select_members, select_memberships, select_member,
  select_member_by_code, select_number, select_name, insert_item, select_item_key, select_item,
  select_quantity, delete_item, update_quantity, update_item, select_items, insert_packet,
  select_packets, delete_packets, select_codes, select_statuses, select_wares, select_code_name,
}

-- A text between quotes is the literal that it seems to be: it has no quote and no null byte.
abbrev pub IsQuotable : Text → Type 0
IsQuotable t = (has_char b'\'' t ≡ false) × (has_char 0 t ≡ false)

-- A text that is a decimal numeral, as the program and SQLite print it, of at most 63 bits.
abbrev pub IsNumeral : Text → Type 0
IsNumeral t = (n : ℕ) × (t ≡ nat_to_string n) × (n < 2 ^ 63)

-- A text that `to_string` prints from an int.
abbrev pub IsPrinted : Text → Type 0
IsPrinted t = (i : ℤ) × (t ≡ to_string i) × IsInt i

-- A statement whose arguments are clean, and which does not list several rows.
abbrev pub IsClean : Statement → Type 0
IsClean (select_login u p) = IsQuotable u × IsQuotable p
IsClean (select_register u) = IsQuotable u
IsClean (select_exists u) = IsQuotable u
IsClean (insert_account u p) = IsQuotable u × IsQuotable p
IsClean (insert_group n a d) = IsQuotable n × IsQuotable a × IsQuotable d
IsClean select_newest = Unit
IsClean (insert_admin c u) = IsNumeral c × IsQuotable u
IsClean (delete_group c) = IsNumeral c
IsClean (delete_members c) = IsNumeral c
IsClean (delete_items c) = IsNumeral c
IsClean (insert_member c u s) = IsNumeral c × IsQuotable u × IsQuotable s
IsClean (update_number n c) = IsPrinted n × IsNumeral c
IsClean (delete_member c u) = IsNumeral c × IsQuotable u
IsClean (update_status s c u) = IsQuotable s × IsNumeral c × IsQuotable u
IsClean (select_member u c) = IsQuotable u × IsNumeral c
IsClean (select_member_by_code c u) = IsNumeral c × IsQuotable u
IsClean (select_number c) = IsNumeral c
IsClean (select_name c) = IsNumeral c
IsClean (insert_item c i q r) = IsNumeral c × IsQuotable i × IsNumeral q × IsQuotable r
IsClean (select_item_key c i) = IsNumeral c × IsQuotable i
IsClean (select_item c i) = IsNumeral c × IsQuotable i
IsClean (select_quantity c i) = IsNumeral c × IsQuotable i
IsClean (delete_item c i) = IsNumeral c × IsQuotable i
IsClean (update_quantity q c i) = IsPrinted q × IsNumeral c × IsQuotable i
IsClean (update_item n q r c k) =
    IsQuotable n × IsNumeral q × IsQuotable r × IsNumeral c × IsQuotable k
IsClean (insert_packet u m) = IsQuotable u × IsQuotable m
IsClean (delete_packets u) = IsQuotable u
IsClean (select_code_name c) = IsNumeral c
IsClean _ = ⊥

-- A SELECT that may give several rows, in no order that is asked for, with clean arguments.
abbrev pub IsListing : Statement → Type 0
IsListing (select_members c) = IsNumeral c
IsListing (select_memberships u) = IsQuotable u
IsListing (select_items c) = IsNumeral c
IsListing (select_packets u) = IsQuotable u
IsListing (select_codes u) = IsQuotable u
IsListing (select_statuses c) = IsNumeral c
IsListing (select_wares c) = IsNumeral c
IsListing _ = ⊥
