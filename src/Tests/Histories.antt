-- ===== src/Tests/Histories.antt =====
-- The theorems on requests about groups, from the first one on.
use server_ilist.Prelude.{ap, ◌∙◌, false, ◌≡◌, refl, [], ◌∷◌, List, All, some, arith}
use server_ilist.Text.{Text, has_char, lit, text_eq}
use server_ilist.Text.Number.{nat_to_string, to_string, stoi, digits_value, wrap_int}
use server_ilist.Action.{◌>>=◌}
use server_ilist.Database.Mutex.{lock_groups, unlock_groups}
use server_ilist.Database.Permissions.{permission_of}
use server_ilist.Users.{is_valid_username, is_valid_password}
use server_ilist.Users.Accounts.{register_on_tables}
use server_ilist.Groups.Spec.{
  create_group_on_tables, add_user_on_tables, remove_group_on_tables, has_member, permission_in,
  number_of,
}
use server_ilist.Sqlite.Language.{answer}
use server_ilist.Sqlite.Effect.{effect}
use server_ilist.World.{World}
use server_ilist.Sqlite.Schema.{Tables, Group, find, newest, update}
use server_ilist.Sqlite.Refines.{lift_abs, run}
use server_ilist.Sqlite.Toy.{toy}
use server_ilist.Sqlite.Toy.Reading.{toy-Implements}
use server_ilist.Groups.Lookups.{group_of}
use server_ilist.Groups.Count.{IsCounted}
use server_ilist.Session.{attempt, session, register, add_user, remove_group, remove_user}
use server_ilist.History.{Event, create, call, enact}
use server_ilist.History.Books.{IsConsistent}
use server_ilist.History.Room.{enact_on_tables, IsSpelledEvent}
use server_ilist.History.Invariant.{history-same, history-IsConsistent}
use server_ilist.History.Answers.{Answers, history-Answers}
use server_ilist.Manager.Start.{new_server, new_manager}
use server_ilist.Tests.Data.{code, code-IsNumeral, dana, noam, secret, milk, read_status, world}

abbrev same : Tables → Tables
same t = t

-- A database that was just made.
abbrev nothing : Tables
nothing = record { users = []; groups = []; members = []; items = []; packets = []; next_code = 1 }

abbrev start : World Tables
start = new_manager nothing (new_server [] (λ sock message. false)) world.restore world.today

no_group : (c : Text) (g : Group) → group_of c nothing ≡ some g → IsCounted c nothing
unfolding find
no_group c g h = absurd (cc h)

nothing-IsConsistent : IsConsistent nothing
nothing-IsConsistent = record {
  rooted = (refl, refl);
  below = tt;
  tallied = record { at = no_group };
}

-- Dana registers, creates a group and adds a member who may only read, and who closes it; a stranger
-- is refused, and there is another group.
abbrev events : List Event
events =
    call (register dana secret)
    ∷ create milk dana
    ∷ call (add_user dana code noam read_status)
    ∷ call (remove_group noam code)
    ∷ call (remove_user dana code noam)
    ∷ create milk noam
    ∷ []

events-IsSpelled : All IsSpelledEvent events
unfolding has_char nat_to_string
events-IsSpelled = (
  ((refl, refl), (refl, refl)),
  (
    ((refl, refl), (refl, refl)),
    (
      ((refl, refl), code-IsNumeral, (refl, refl), (refl, refl)),
      (
        ((refl, refl), code-IsNumeral),
        (((refl, refl), code-IsNumeral, (refl, refl)), (((refl, refl), (refl, refl)), tt)),
      ),
    ),
  ),
)

history-IsConsistent_example : IsConsistent (session (enact toy) events start).1.db
unfolding has_char
history-IsConsistent_example =
    history-IsConsistent toy-Implements events start events-IsSpelled nothing-IsConsistent
      (omega arith) (refl, refl)

-- Dana's group gets a member and is closed by her; then a stranger tries to close it.
abbrev proper : List Event
proper =
    call (register dana secret)
    ∷ create milk dana
    ∷ call (add_user dana code noam read_status)
    ∷ call (remove_group dana code)
    ∷ call (remove_group noam code)
    ∷ []

proper-IsSpelled : All IsSpelledEvent proper
unfolding has_char nat_to_string
proper-IsSpelled = (
  ((refl, refl), (refl, refl)),
  (
    ((refl, refl), (refl, refl)),
    (
      ((refl, refl), code-IsNumeral, (refl, refl), (refl, refl)),
      (((refl, refl), code-IsNumeral), (((refl, refl), code-IsNumeral), tt)),
    ),
  ),
)

-- No unlock of a free mutex in the run.
proper-unmisused : (session enact_on_tables proper start).1.groups_mtx.misused ≡ false
unfolding ◌>>=◌ attempt register_on_tables create_group_on_tables add_user_on_tables
    remove_group_on_tables has_member permission_in number_of run answer effect lock_groups
    unlock_groups text_eq nat_to_string has_char stoi lit find newest update permission_of to_string
    digits_value wrap_int is_valid_username is_valid_password
proper-unmisused = refl

history-Answers_example : Answers 5 (lift_abs same (session (enact toy) proper start))
unfolding has_char
history-Answers_example =
    history-Answers toy-Implements proper start proper-IsSpelled refl nothing-IsConsistent
      (omega arith) (refl, refl) refl
      (ap (λ p. p.1.groups_mtx.misused)
          (history-same toy-Implements proper start proper-IsSpelled nothing-IsConsistent
            (omega arith) (refl, refl))
        ∙ proper-unmisused)
