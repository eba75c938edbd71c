-- ===== src/Sqlite/Toy/Reading.antt =====
-- The small SQLite reads each statement of the program as what it is, and so does what is assumed
-- of the library.
use mathlib.Core.List.{append-nil}
use mathlib.Core.Path.{ap₂}
use server_ilist.Prelude.{
  sym, pos, negsuc, suc, ℕ, ◌≡◌, refl, Bool, true, false, not, List, [], ◌∷◌, ◌++◌, Option, none,
  some, map, arith, all, ◌==◌, ◌||◌, length, ap, ◌∙◌,
}
use server_ilist.Text.{Text, lit, text_eq, has_char}
use server_ilist.Text.Number.{is_digit, nat_to_string, to_string}
use server_ilist.Text.Number.RoundTrip.{all_digits-nat_to_string, nat_to_string-ne_nil}
use server_ilist.World.{Row}
use server_ilist.Database.{results, read_rows, read_columns}
use server_ilist.Sqlite.{Implements}
use server_ilist.Sqlite.Schema.{Tables, Group, newest}
use server_ilist.Sqlite.Language.{
  Statement, sql, answer, code_rows, select_login, select_register, select_exists, insert_account,
  insert_group, select_newest, insert_admin, delete_group, delete_members, delete_items,
  insert_member, update_number, delete_member, update_status, select_members, select_memberships,
  select_member, select_member_by_code, select_number, select_name, insert_item, select_item_key,
  select_item, select_quantity, delete_item, update_quantity, update_item, select_items,
  insert_packet, select_packets, delete_packets, select_codes, select_statuses, select_wares,
  select_code_name,
}
use server_ilist.Sqlite.Arranged.{same-IsRearranged}
use server_ilist.Sqlite.Effect.{effect}
use server_ilist.Sqlite.Spelled.{IsClean, IsListing, IsNumeral, IsPrinted}
use server_ilist.Sqlite.Toy.{plain, quoted, number, lex, read_statement, run_statement, widths, toy}

lex_quoted :
    (u rest : Text)
    → has_char 39 u ≡ false
    → lex quoted (u ++ 39 ∷ rest) ≡ record {
      current = u;
      skeleton = (lex plain rest).skeleton;
      literals = (lex plain rest).literals;
    }
unfolding lex has_char
lex_quoted [] rest h = refl
lex_quoted (c ∷ u) rest h = ground (arith, lex_quoted u rest)

-- The next character ends a number.
abbrev ends_number : Text → Bool
ends_number [] = true
ends_number (c ∷ cs) = not (is_digit c)

lex_number :
    (d rest : Text)
    → all is_digit d ≡ true
    → ends_number rest ≡ true
    → lex number (d ++ rest) ≡ record {
      current = d;
      skeleton = (lex plain rest).skeleton;
      literals = (lex plain rest).literals;
    }
unfolding lex
lex_number [] [] h e = refl
lex_number [] (c ∷ rest) h e = ground arith
lex_number (c ∷ d) rest h e = ground (arith, lex_number d rest)

lex_digits :
    (c : ℕ) (d rest : Text)
    → (is_digit c || c == 45) ≡ true
    → all is_digit d ≡ true
    → ends_number rest ≡ true
    → lex plain ((c ∷ d) ++ rest) ≡ record {
      current = [];
      skeleton = 35 ∷ (lex plain rest).skeleton;
      literals = (c ∷ d) ∷ (lex plain rest).literals;
    }
unfolding lex
lex_digits c d rest first h e = ground (arith, lex_number d rest h e)

lex_nat :
    (t rest : Text)
    → (t ≡ [] → ⊥)
    → all is_digit t ≡ true
    → ends_number rest ≡ true
    → lex plain (t ++ rest) ≡ record {
      current = [];
      skeleton = 35 ∷ (lex plain rest).skeleton;
      literals = t ∷ (lex plain rest).literals;
    }
lex_nat [] rest ne h e = absurd (ne refl)
lex_nat (c ∷ d) rest ne h e = lex_digits c d rest (ground arith) (ground arith) e

lex_numeral :
    (t rest : Text)
    → IsNumeral t
    → ends_number rest ≡ true
    → lex plain (t ++ rest) ≡ record {
      current = [];
      skeleton = 35 ∷ (lex plain rest).skeleton;
      literals = t ∷ (lex plain rest).literals;
    }
lex_numeral t rest (n, is, small) e =
    rw is (lex_nat (nat_to_string n) rest (nat_to_string-ne_nil n) (all_digits-nat_to_string n) e)

lex_printed :
    (t rest : Text)
    → IsPrinted t
    → ends_number rest ≡ true
    → lex plain (t ++ rest) ≡ record {
      current = [];
      skeleton = 35 ∷ (lex plain rest).skeleton;
      literals = t ∷ (lex plain rest).literals;
    }
lex_printed t rest (pos n, is, r) e = rw is (
    unfold to_string in
    lex_nat (nat_to_string n) rest (nat_to_string-ne_nil n) (all_digits-nat_to_string n) e)
lex_printed t rest (negsuc n, is, r) e = rw is (
    unfold to_string in
    lex_digits 45 (nat_to_string (suc n)) rest refl (all_digits-nat_to_string (suc n)) e)

lex_code :
    (t : Text)
    → IsNumeral t
    → lex plain t ≡ record { current = []; skeleton = 35 ∷ []; literals = t ∷ [] }
unfolding lex
lex_code t h = ap (lex plain) (sym (append-nil t)) ∙ lex_numeral t [] h refl

-- Each statement is read back from its text.
read_sql : (st : Statement) → IsClean st → read_statement (sql st) ≡ some st
unfolding read_statement sql lit text_eq
read_sql (select_login u p) h = rw (lex_quoted u _ h.0.0, lex_quoted p _ h.1.0) refl
read_sql (select_register u) h = rw (lex_quoted u _ h.0) refl
read_sql (select_exists u) h = rw (lex_quoted u _ h.0) refl
read_sql (insert_account u p) h = rw (lex_quoted u _ h.0.0, lex_quoted p _ h.1.0) refl
read_sql (insert_group n a d) h =
    rw (lex_quoted n _ h.0.0, lex_quoted a _ h.1.0, lex_quoted d _ h.2.0) refl
read_sql select_newest h = refl
read_sql (insert_admin c u) h = rw (lex_numeral c _ h.0 refl, lex_quoted u _ h.1.0) refl
read_sql (delete_group c) h = rw (lex_numeral c _ h refl) refl
read_sql (delete_members c) h = rw (lex_numeral c _ h refl) refl
read_sql (delete_items c) h = rw (lex_numeral c _ h refl) refl
read_sql (insert_member c u s) h =
    rw (lex_numeral c _ h.0 refl, lex_quoted u _ h.1.0, lex_quoted s _ h.2.0) refl
read_sql (update_number n c) h = rw (lex_printed n _ h.0 refl, lex_numeral c _ h.1 refl) refl
read_sql (delete_member c u) h = rw (lex_numeral c _ h.0 refl, lex_quoted u _ h.1.0) refl
read_sql (update_status s c u) h =
    rw (lex_quoted s _ h.0.0, lex_numeral c _ h.1 refl, lex_quoted u _ h.2.0) refl
read_sql (select_member u c) h = rw (lex_quoted u _ h.0.0, lex_numeral c _ h.1 refl) refl
read_sql (select_member_by_code c u) h = rw (lex_numeral c _ h.0 refl, lex_quoted u _ h.1.0) refl
read_sql (select_number c) h = rw (lex_numeral c _ h refl) refl
read_sql (select_name c) h = rw (lex_code c h) refl
read_sql (insert_item c i q r) h =
    rw
      (
        lex_numeral c _ h.0 refl,
        lex_quoted i _ h.1.0,
        lex_numeral q _ h.2 refl,
        lex_quoted r _ h.3.0,
      )
      refl
read_sql (select_item_key c i) h = rw (lex_numeral c _ h.0 refl, lex_quoted i _ h.1.0) refl
read_sql (select_item c i) h = rw (lex_numeral c _ h.0 refl, lex_quoted i _ h.1.0) refl
read_sql (select_quantity c i) h = rw (lex_numeral c _ h.0 refl, lex_quoted i _ h.1.0) refl
read_sql (delete_item c i) h = rw (lex_numeral c _ h.0 refl, lex_quoted i _ h.1.0) refl
read_sql (update_quantity q c i) h =
    rw (lex_printed q _ h.0 refl, lex_numeral c _ h.1 refl, lex_quoted i _ h.2.0) refl
read_sql (update_item n q r c k) h =
    rw
      (
        lex_quoted n _ h.0.0,
        lex_numeral q _ h.1 refl,
        lex_quoted r _ h.2.0,
        lex_numeral c _ h.3 refl,
        lex_quoted k _ h.4.0,
      )
      refl
read_sql (insert_packet u m) h = rw (lex_quoted u _ h.0.0, lex_quoted m _ h.1.0) refl
read_sql (delete_packets u) h = rw (lex_quoted u _ h.0) refl
read_sql (select_code_name c) h = rw (lex_numeral c _ h refl) refl
read_sql _ h = absurd h

read_listing : (st : Statement) → IsListing st → read_statement (sql st) ≡ some st
unfolding read_statement sql lit text_eq
read_listing (select_members c) h = rw (lex_numeral c _ h refl) refl
read_listing (select_memberships u) h = rw (lex_quoted u _ h.0) refl
read_listing (select_items c) h = rw (lex_numeral c _ h refl) refl
read_listing (select_packets u) h = rw (lex_quoted u _ h.0) refl
read_listing (select_codes u) h = rw (lex_quoted u _ h.0) refl
read_listing (select_statuses c) h = rw (lex_numeral c _ h refl) refl
read_listing (select_wares c) h = rw (lex_numeral c _ h refl) refl
read_listing _ h = absurd h

-- Rows of one width come through the reader of the answers.
module _ {ℓ} {A : Type ℓ} (f : A → Row) (n : ℕ) where
  read_rows-map :
      ((x : A) → read_columns n 0 (map some (f x)) ≡ f x)
      → (xs : List A) → read_rows n (map (map some) (map f xs)) ≡ map f xs
  unfolding read_rows
  read_rows-map h [] = refl
  read_rows-map h (x ∷ xs) = ap₂ ◌∷◌ (h x) (read_rows-map h xs)

  results-map :
      ((x : A) → read_columns n 0 (map some (f x)) ≡ f x)
      → ((x : A) → length (f x) ≡ n)
      → (xs : List A)
      → results (some (record { cols = widths (map f xs); rows = map (map some) (map f xs) }))
        ≡ map f xs
  unfolding results widths
  results-map h l [] = refl
  results-map h l (x ∷ xs) =
      ap (λ k. read_rows k (map (map some) (map f (x ∷ xs)))) (l x) ∙ read_rows-map h (x ∷ xs)

read_answer : (st : Statement) (t : Tables) → results (run_statement (some st) t).0 ≡ answer st t
unfolding run_statement answer read_columns
read_answer (select_login u p) t = results-map _ 2 (λ x. refl) (λ x. refl) _
read_answer (select_register u) t = results-map _ 2 (λ x. refl) (λ x. refl) _
read_answer (select_exists u) t = results-map _ 2 (λ x. refl) (λ x. refl) _
read_answer (select_members c) t = results-map _ 3 (λ x. refl) (λ x. refl) _
read_answer (select_memberships u) t = results-map _ 3 (λ x. refl) (λ x. refl) _
read_answer (select_member u c) t = results-map _ 3 (λ x. refl) (λ x. refl) _
read_answer (select_member_by_code c u) t = results-map _ 3 (λ x. refl) (λ x. refl) _
read_answer (select_number c) t = results-map _ 1 (λ x. refl) (λ x. refl) _
read_answer (select_name c) t = results-map _ 1 (λ x. refl) (λ x. refl) _
read_answer (select_item_key c i) t = results-map _ 4 (λ x. refl) (λ x. refl) _
read_answer (select_item c i) t = results-map _ 4 (λ x. refl) (λ x. refl) _
read_answer (select_quantity c i) t = results-map _ 1 (λ x. refl) (λ x. refl) _
read_answer (select_items c) t = results-map _ 4 (λ x. refl) (λ x. refl) _
read_answer (select_packets u) t = results-map _ 1 (λ x. refl) (λ x. refl) _
read_answer (select_codes u) t = results-map _ 1 (λ x. refl) (λ x. refl) _
read_answer (select_statuses c) t = results-map _ 2 (λ x. refl) (λ x. refl) _
read_answer (select_wares c) t = results-map _ 3 (λ x. refl) (λ x. refl) _
read_answer (select_code_name c) t = results-map _ 2 (λ x. refl) (λ x. refl) _
read_answer select_newest t = newest_answer (newest t.groups)
  where
    newest_answer :
        (o : Option Group)
        → results
            (some (record { cols = widths (code_rows o); rows = map (map some) (code_rows o) }))
          ≡ code_rows o
    newest_answer none = unfold results in refl
    newest_answer (some g) = unfold results widths in refl
read_answer _ t = unfold results in refl

listing_only : (st : Statement) (t : Tables) → IsListing st → effect st t ≡ t
unfolding effect
listing_only (select_members c) t h = refl
listing_only (select_memberships u) t h = refl
listing_only (select_items c) t h = refl
listing_only (select_packets u) t h = refl
listing_only (select_codes u) t h = refl
listing_only (select_statuses c) t h = refl
listing_only (select_wares c) t h = refl
listing_only _ t h = absurd h

-- The small SQLite behaves as the program assumes. It lists rows in the order of their insertion.
pub toy-Implements : Implements toy (λ t. t)
unfolding toy run_statement
toy-Implements = record {
  answers = λ st t clean. rw (read_sql st clean) (read_answer st t);
  effects = λ st t clean. rw (read_sql st clean) refl;
  arranged = λ st t. t;
  rearranged = λ st t. same-IsRearranged t;
  lists = λ st t clean. rw (read_listing st clean) (read_answer st t);
  lists_only = λ st t clean. rw (read_listing st clean) (listing_only st t clean);
}
