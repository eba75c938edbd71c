-- ===== src/Console.antt =====
-- ServerIList/Program.cpp: the commands of the console.
use server_ilist.Prelude.{
  ◌≡◌, refl, true, false, Option, none, some, List, [], ◌∷◌, ◌++◌, pos, if◌then◌else◌,
}
use server_ilist.Text.{Text, lit, text_eq}
use server_ilist.Text.Number.{to_string}
use server_ilist.World.{Server}
use server_ilist.Server.{set_print_flag, get_clients}

-- `class Commands`
unfoldable clients_command : Text
clients_command = lit "clients"

unfoldable last_packets_command : Text
last_packets_command = lit "packets"

unfoldable show_command : Text
show_command = lit "show"

unfoldable hide_command : Text
hide_command = lit "hide"

unfoldable stop_command : Text
stop_command = lit "stop"

unfoldable clear_command : Text
clear_command = lit "clear"

-- What a round prints; `cls` clears the console.
data Output : Type 0 where
  text : Text → Output
  cls : Output

-- A round of the loop in `shell`: the server, or `none` for the `break`, and the output. The
-- command `a` only computes a free slot.
unfoldable shell_round : Text → Server → Option Server × List Output
unfolding clients_command last_packets_command show_command hide_command stop_command clear_command
    set_print_flag get_clients
shell_round cmd s =
    if text_eq cmd clients_command
    then (some s, text (lit "clients size: " ++ (to_string (pos (get_clients s)) ++ lit "\n")) ∷ [])
    else if text_eq cmd last_packets_command
    then (some s, [])
    else if text_eq cmd show_command
    then (some (set_print_flag true s), [])
    else if text_eq cmd hide_command
    then (some (set_print_flag false s), [])
    else if text_eq cmd stop_command
    then (none, [])
    else if text_eq cmd clear_command
    then (some s, cls ∷ [])
    else (some s, [])

abbrev and_then : Option Server → (Server → Server × List Output) → Server → Server × List Output
and_then none rest s = (s, [])
and_then (some s') rest s = rest s'

-- `shell` on the commands that are typed, up to the first `stop` or the last of them.
unfoldable shell : List Text → Server → Server × List Output
unfolding shell_round
shell [] s = (s, [])
shell (cmd ∷ cmds) s =
    let (next, out) = shell_round cmd s in
    let (s', more) = and_then next (shell cmds) s in (s', out ++ more)

shell_tests :
    (s : Server)
    → ((shell (lit "hide" ∷ lit "clients" ∷ []) s).0.print_flag ≡ false)
      × ((shell (lit "show" ∷ lit "stop" ∷ lit "hide" ∷ []) s).0.print_flag ≡ true)
      × ((shell (lit "clear" ∷ lit "clients" ∷ []) (record s { clients = 7 ∷ 8 ∷ [] })).1
          ≡ cls ∷ text (lit "clients size: 2\n") ∷ [])
unfolding shell text_eq lit to_string
shell_tests s = (refl, refl, refl)
