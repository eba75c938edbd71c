-- ===== src/Database/Clock.antt =====
-- The date of a group (`DataBase::get_current_time` of ServerIList/Database.cpp). What localtime_s
-- fills in is given.
use server_ilist.Prelude.{ℕ, ◌+◌, ◌/◌, ◌%◌, ◌≡◌, ◌≤◌, refl, [], ◌∷◌, ◌++◌, length, arith}
use server_ilist.Text.{Text, lit, has_char}
use server_ilist.Text.Number.{nat_to_string}
use server_ilist.Text.Number.RoundTrip.{length-nat_to_string, has_char-nat_to_string}
use server_ilist.Sqlite.Spelled.{IsQuotable}

-- `struct tm`: the day of the month from 1, the months since January and the years since 1900.
pub record Tm : Type 0 where
  pub tm_mday : ℕ
  pub tm_mon : ℕ
  pub tm_year : ℕ

-- The buffer of `strftime`.
abbrev pub maxlen : ℕ
maxlen = 80

-- `%d` and `%m`: two digits.
abbrev two_digits : ℕ → Text
two_digits n = (48 + n / 10 % 10) ∷ (48 + n % 10) ∷ []

-- `get_current_time`, with "%d/%m/%Y"
unfoldable pub get_current_time : Tm → Text
get_current_time t =
    two_digits t.tm_mday
    ++ (lit "/" ++ (two_digits (t.tm_mon + 1) ++ (lit "/" ++ nat_to_string (t.tm_year + 1900))))

-- For a day, a month and a year in the range that localtime_s fills in, the date has ten
-- characters, so that it fits into the buffer with the null byte behind it, and it is spelled as a
-- literal.
pub get_current_time-IsQuotable :
    (t : Tm)
    → t.tm_mday ≤ 31
    → t.tm_mon ≤ 11
    → t.tm_year ≤ 1100
    → (length (get_current_time t) ≡ 10)
      × (length (get_current_time t) + 1 ≤ maxlen)
      × IsQuotable (get_current_time t)
unfolding get_current_time lit has_char
get_current_time-IsQuotable t day month year =
    let n = t.tm_year + 1900 in
    let four = length-nat_to_string n (omega arith) (omega arith) in
    (
      omega (arith, four),
      omega (arith, four),
      (
        ground (arith, has_char-nat_to_string b'\'' n refl),
        ground (arith, has_char-nat_to_string 0 n refl),
      ),
    )
