-- ===== src/Groups/Fresh.antt =====
-- A code that no row speaks of, and the lists with one more row.
use server_ilist.Prelude.{◌≡◌, ◌<◌, ◌≤◌, ◌^◌, refl, none, some, List, [], ◌∷◌, ◌++◌, arith, All}
use server_ilist.Text.{Text, text_eq_iff}
use server_ilist.Text.Number.{nat_to_string}
use server_ilist.Text.Number.RoundTrip.{nat_to_string-injective}
use server_ilist.Sqlite.Schema.{Tables, Member, Group, is_member, has_code, find, newest}
use server_ilist.Groups.Counting.{count_of, rows_of}

-- The next code is above all that were given, is an SQLite integer, and no row speaks of it.
pub record IsFresh (t : Tables) : Type 0 where
  pub above : All (λ (g : Group). g.code < t.next_code) t.groups
  pub room : t.next_code < 2 ^ 63
  pub unused : count_of (nat_to_string t.next_code) t.members ≡ 0

module _ (new : Group) where
  pub newest-append :
      (gs : List Group)
      → All (λ (g : Group). g.code < new.code) gs
      → newest (gs ++ new ∷ []) ≡ some new
  unfolding newest
  newest-append [] h = refl
  newest-append (g ∷ gs) (h, hs) = rw (newest-append gs hs) (ground arith)

  pub find-append :
      (gs : List Group)
      → All (λ (g : Group). g.code < new.code) gs
      → find (has_code (nat_to_string new.code)) (gs ++ new ∷ []) ≡ some new
  unfolding find
  find-append [] h = ground (arith, text_eq_iff (nat_to_string new.code) (nat_to_string new.code))
  find-append (g ∷ gs) (h, hs) = ground (
    arith,
    find-append gs hs,
    text_eq_iff (nat_to_string g.code) (nat_to_string new.code),
    nat_to_string-injective g.code new.code,
  )

module _ (code : Text) where
  pub rows_of-le_count_of :
      (username : Text) (ms : List Member) → rows_of code username ms ≤ count_of code ms
  rows_of-le_count_of username [] = omega arith
  rows_of-le_count_of username (m ∷ ms) = ground (arith, rows_of-le_count_of username ms)

  pub find-unused :
      (username : Text) (ms : List Member)
      → count_of code ms ≡ 0
      → find (is_member code username) ms ≡ none
  unfolding find
  find-unused username [] h = refl
  find-unused username (m ∷ ms) h = ground (arith, find-unused username ms)

  pub count_of-first :
      (m : Member) (ms : List Member)
      → m.group_code ≡ code
      → count_of code ms ≡ 0
      → count_of code (ms ++ m ∷ []) ≡ 1
  count_of-first m [] e h = ground (arith, text_eq_iff m.group_code code)
  count_of-first m (x ∷ ms) e h = ground (arith, count_of-first m ms e)

  pub find-first :
      (m : Member) (ms : List Member)
      → m.group_code ≡ code
      → count_of code ms ≡ 0
      → find (is_member code m.username) (ms ++ m ∷ []) ≡ some m
  unfolding find
  find-first m [] e h =
      ground (arith, text_eq_iff m.group_code code, text_eq_iff m.username m.username)
  find-first m (x ∷ ms) e h = ground (arith, find-first m ms e)
