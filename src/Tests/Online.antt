-- ===== src/Tests/Online.antt =====
-- The theorems on who is online, with one user online.
use server_ilist.Prelude.{◌≡◌, refl, false, arith}
use server_ilist.Text.{text_eq_iff}
use server_ilist.Map
use server_ilist.Users.{logout, is_login, is_login_name}
use server_ilist.Users.Online.{IsPaired, logout-IsPaired}
use server_ilist.Tests.Data.{dana, world}

world-IsPaired : IsPaired world
unfolding Map.lookup
world-IsPaired = record {
  by_socket = λ sock name e. ground (arith, text_eq_iff dana name);
  by_name = λ name sock e. ground (arith, text_eq_iff dana name);
}

logout-IsPaired_example :
    IsPaired (logout 7 world).1
    × (is_login 7 (logout 7 world).1 ≡ false)
    × (is_login_name dana (logout 7 world).1 ≡ false)
unfolding Map.lookup
logout-IsPaired_example = logout-IsPaired 7 dana world world-IsPaired refl
