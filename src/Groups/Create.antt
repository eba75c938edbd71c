-- ===== src/Groups/Create.antt =====
-- Creating a group (`createGroup` of ServerIList/PublicGroup.cpp).
use server_ilist.Prelude.{false, ◌||◌, ℕ, suc, ◌≡◌, refl, [], ◌∷◌, ◌++◌, ap, ◌∙◌, arith}
use server_ilist.Text.{Text, lit}
use server_ilist.Text.Number.{stoi, nat_to_string}
use server_ilist.Exception.{ok}
use server_ilist.Action.{◌>>=◌}
use server_ilist.World.{World, Mutex}
use server_ilist.Database.{Engine, query}
use server_ilist.Database.Mutex.{free, lock_groups, unlock_groups}
use server_ilist.Sqlite.{Implements}
use server_ilist.Sqlite.Schema.{Tables, Member, Group}
use server_ilist.Sqlite.Refines.{abs, lift_abs}
use server_ilist.Sqlite.Language.{answer, sql, select_newest, insert_group, insert_admin}
use server_ilist.Sqlite.Effect.{effect}
use server_ilist.Sqlite.Spelled.{IsQuotable}
use server_ilist.Groups.{create_group}
use server_ilist.Groups.Count.{IsCounted}
use server_ilist.Groups.Fresh.{
  IsFresh, newest-append, find-append, rows_of-le_count_of, find-unused, count_of-first,
}

abbrev new_group : Text → Text → Text → ℕ → Group
new_group name admin today code = record {
  code = code;
  name = name;
  admin = admin;
  creation_date = today;
  number_of_users = lit "1";
}

abbrev founder : Text → ℕ → Member
founder admin code = record {
  group_code = nat_to_string code;
  username = admin;
  status = lit "admin";
}

-- The tables with a new group, whose one member is its admin.
unfoldable pub with_group : Text → Text → Text → Tables → Tables
with_group name admin today t = record t {
  groups = t.groups ++ new_group name admin today t.next_code ∷ [];
  members = t.members ++ founder admin t.next_code ∷ [];
  next_code = suc t.next_code;
}

pub effect-newest : (t : Tables) → effect select_newest t ≡ t
unfolding effect
effect-newest t = refl

module _ (name admin today : Text) (t : Tables) (fresh : IsFresh t) where
  pub answer-newest :
      answer select_newest (effect (insert_group name admin today) t)
      ≡ (nat_to_string t.next_code ∷ []) ∷ []
  unfolding answer effect
  answer-newest =
      rw (newest-append (new_group name admin today t.next_code) t.groups fresh.above) refl

  pub with_group-eq :
      effect
        (insert_admin (nat_to_string t.next_code) admin)
        (effect (insert_group name admin today) t)
      ≡ with_group name admin today t
  unfolding effect with_group
  with_group-eq = rw (find-unused (nat_to_string t.next_code) admin t.members fresh.unused) refl

  pub IsCounted-with_group : IsCounted (nat_to_string t.next_code) (with_group name admin today t)
  unfolding with_group stoi lit
  IsCounted-with_group =
      let one =
        count_of-first (nat_to_string t.next_code) (founder admin t.next_code) t.members refl
          fresh.unused in
      record {
        group = new_group name admin today t.next_code;
        here = find-append (new_group name admin today t.next_code) t.groups fresh.above;
        counted = rw one refl;
        bounded = omega (arith, one);
        single = λ username. omega (
          arith,
          one,
          rows_of-le_count_of (nat_to_string t.next_code) username
              (t.members ++ founder admin t.next_code ∷ []),
        );
      }

-- The world after the call.
abbrev pub created : Text → Text → World Tables → World Tables
created name admin w = record w {
  db = with_group name admin w.today w.db;
  groups_mtx = record { held = false; misused = w.groups_mtx.misused || false };
}

module _ {H : Type 0} {exec : Engine H} {view : H → Tables} (law : Implements exec view) where
  pub created_on_database :
      (name admin : Text) (w : World H)
      → IsQuotable name
      → IsQuotable admin
      → IsQuotable w.today
      → w.groups_mtx.held ≡ false
      → IsFresh (view w.db)
      → lift_abs view (create_group exec name admin w)
        ≡ (ok (nat_to_string (view w.db).next_code), created name admin (abs view w))
  unfolding create_group ◌>>=◌ lock_groups unlock_groups query sql
  created_on_database name admin w named clean dated unlocked fresh =
      let h1 = (exec (sql (insert_group name admin w.today)) w.db).1 in
      let h2 = (exec (sql select_newest) h1).1 in
      let inserted = law.effects (insert_group name admin w.today) w.db (named, clean, dated) in
      let asked = law.effects select_newest h1 tt in
      let rows =
        law.answers select_newest h1 tt
        ∙ (ap (answer select_newest) inserted
            ∙ answer-newest name admin w.today (view w.db) fresh) in
      let code = nat_to_string (view w.db).next_code in
      let last = law.effects (insert_admin code admin) h2 ((_, refl, fresh.room), clean) in
      let tables =
        last
        ∙ (ap (effect (insert_admin code admin)) (asked ∙ (effect-newest (view h1) ∙ inserted))
            ∙ with_group-eq name admin w.today (view w.db) fresh) in
      rw unlocked (
        rw rows (λ i. (
          ok code,
          record (abs view w) {
            db = tables i;
            groups_mtx = record { held = false; misused = w.groups_mtx.misused || false };
          },
        )))

  -- Creating a group: with the mutex free, arguments and a date that are spelled as literals and a
  -- next code that no row speaks of, the call answers that code, and the tables have the group,
  -- with the one who asked as its admin and only member. The mutex is free again.
  pub create_group_outcome :
      (name admin : Text) (w : World H)
      → IsQuotable name
      → IsQuotable admin
      → IsQuotable w.today
      → w.groups_mtx ≡ free
      → IsFresh (view w.db)
      → ((create_group exec name admin w).0 ≡ ok (nat_to_string (view w.db).next_code))
        × (view (create_group exec name admin w).1.db ≡ with_group name admin w.today (view w.db))
        × ((create_group exec name admin w).1.groups_mtx ≡ free)
  create_group_outcome name admin w named clean dated unlocked fresh =
      let e =
        created_on_database name admin w named clean dated (ap (λ m. m.held) unlocked) fresh in
      (
        ap (λ p. p.0) e,
        ap (λ p. p.1.db) e,
        ap (λ p. p.1.groups_mtx) e
            ∙ ap (λ (m : Mutex). record { held = false; misused = m.misused || false }) unlocked,
      )

  -- A group that was created has a column that counts its members, of whom there is one; with the
  -- mutex free, arguments and a date that are spelled as literals and a next code that no row
  -- speaks of.
  pub create_group-IsCounted :
      (name admin : Text) (w : World H)
      → IsQuotable name
      → IsQuotable admin
      → IsQuotable w.today
      → w.groups_mtx ≡ free
      → IsFresh (view w.db)
      → IsCounted (nat_to_string (view w.db).next_code) (view (create_group exec name admin w).1.db)
  create_group-IsCounted name admin w named clean dated unlocked fresh =
      let (res, tables, mtx) = create_group_outcome name admin w named clean dated unlocked fresh in
      rw tables (IsCounted-with_group name admin w.today (view w.db) fresh)
