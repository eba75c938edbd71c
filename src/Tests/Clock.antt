-- ===== src/Tests/Clock.antt =====
-- The theorem on the date of a group, at the last of December 2016.
use server_ilist.Prelude.{◌+◌, ◌≡◌, ◌≤◌, length, arith}
use server_ilist.Database.Clock.{Tm, maxlen, get_current_time, get_current_time-IsQuotable}
use server_ilist.Sqlite.Spelled.{IsQuotable}

abbrev new_years_eve : Tm
new_years_eve = record { tm_mday = 31; tm_mon = 11; tm_year = 116 }

get_current_time-IsQuotable_example :
    (length (get_current_time new_years_eve) ≡ 10)
    × (length (get_current_time new_years_eve) + 1 ≤ maxlen)
    × IsQuotable (get_current_time new_years_eve)
get_current_time-IsQuotable_example =
    get_current_time-IsQuotable new_years_eve (omega arith) (omega arith) (omega arith)
