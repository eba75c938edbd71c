-- ===== src/Tests/Orders.antt =====
-- The theorem on messages about a group, for one that invites a user.
use server_ilist.Prelude.{◌≡◌, refl, subst, Bool-cases, inl, inr, some, none, arith}
use server_ilist.Text.{text_eq, text_eq_iff, has_char, has_double}
use server_ilist.Text.Number.{nat_to_string}
use server_ilist.Map
use server_ilist.Sqlite.Schema.{Tables, find}
use server_ilist.Sqlite.Refines.{abs, lift_abs}
use server_ilist.Sqlite.Toy.{toy}
use server_ilist.Sqlite.Toy.Reading.{toy-Implements}
use server_ilist.Groups.Count.{IsCounted}
use server_ilist.History.Books.{IsConsistent, IsTallied}
use server_ilist.Manager.Handlers.{code_handler}
use server_ilist.Manager.Literals.{AreLiterals}
use server_ilist.Manager.Obeying.{IsSound}
use server_ilist.Manager.Orders.{Order, inviting, order, IsObeyed}
use server_ilist.Manager.GroupRequests.{code_handler-IsObeyed}
use server_ilist.Tests.Data.{dana, omer, code, code-IsNumeral, read_status, tables, world}
use server_ilist.Tests.Members.{tables-IsCounted}

abbrev same : Tables → Tables
same t = t

tables-IsTallied : IsTallied tables
unfolding find nat_to_string
tables-IsTallied = record {
  at = λ c g e. elim (Bool-cases (text_eq code c)) [
    | inl t ↦ subst (λ x. IsCounted x tables) ((text_eq_iff code c).0 t) tables-IsCounted
    | inr f ↦ absurd (let lost : none ≡ some g = rw f at e in cc lost)
  ];
}

pub tables-IsConsistent : IsConsistent tables
unfolding nat_to_string text_eq
tables-IsConsistent = record {
  rooted = (refl, refl);
  below = (omega arith, tt);
  tallied = tables-IsTallied;
}

tables-AreLiterals : AreLiterals tables
unfolding has_char
tables-AreLiterals = record {
  names = ((refl, refl), tt);
  members = (
    ((refl, refl), ((refl, refl), ((refl, refl), tt))),
    (((refl, refl), ((refl, refl), ((refl, refl), tt))), tt),
  );
  items = (
    ((refl, refl), ((refl, refl), ((refl, refl), ((refl, refl), tt)))),
    (((refl, refl), ((refl, refl), ((refl, refl), ((refl, refl), tt)))), tt),
  );
}

world-IsSound : IsSound world
unfolding has_char
world-IsSound = record {
  ready = record { consistent = tables-IsConsistent; room = omega arith; dated = (refl, refl) };
  literals = tables-AreLiterals;
  unlocked = refl;
}

-- A third member, who may read.
abbrev with_omer : Order
with_omer = inviting code omer read_status

code_handler-IsObeyed_example :
    IsObeyed 7 dana with_omer
      (abs same world)
      (lift_abs same (code_handler toy (order 7 with_omer) world))
unfolding has_char has_double text_eq Map.lookup nat_to_string
code_handler-IsObeyed_example =
    code_handler-IsObeyed toy-Implements 7 dana with_omer world
      (
        ((λ e. cc e), (refl, refl, refl)),
        (((λ e. cc e), (refl, refl, refl)), (((λ e. cc e), (refl, refl, refl)), tt)),
      )
      ((refl, refl), ((refl, refl), ((refl, refl), tt))) code-IsNumeral (refl, refl) refl
      world-IsSound
