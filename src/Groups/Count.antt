-- ===== src/Groups/Count.antt =====
-- The column `number_of_users` of a group, and the members that it counts (`addUser` and
-- `removeUser` of ServerIList/PublicGroup.cpp).
use server_ilist.Prelude.{
  ℕ, ◌≡◌, ◌≤◌, refl, Bool, false, Bool-cases, Option-cases, inl, inr, none, some, ap, ℤ, pos,
  negsuc, ◌+ℤ◌, eq_ℤ, arith,
}
use server_ilist.Text.{Text, text_eq, text_eq_iff}
use server_ilist.Text.Number.{stoi, to_string, wrap_int}
use server_ilist.Text.Number.RoundTrip.{stoi-to_string, wrap_int_of_IsInt}
use server_ilist.World.{World}
use server_ilist.Database.{Engine}
use server_ilist.Database.Mutex.{free}
use server_ilist.Sqlite.{Implements}
use server_ilist.Sqlite.Schema.{Tables, Member, Group}
use server_ilist.Sqlite.Spelled.{IsQuotable, IsNumeral}
use server_ilist.Sqlite.Refines.{abs}
use server_ilist.Groups.{add_user, remove_user}
use server_ilist.Groups.Lookups.{member_of, group_of}
use server_ilist.Groups.Members.{
  refusal, may_act, unless_refused, without_member, remove_user_outcome,
}
use server_ilist.Groups.Invite.{answer_to, invited, grants_nothing, with_member, add_user_outcome}
use server_ilist.Groups.Counting.{
  count_of, rows_of, find-update, count_of-remove, rows_of-remove, rows_of-found, rows_of-missing,
  count_of-append, rows_of-append_other, rows_of-append,
}

-- A group of at most four members, each with one row, whose column counts them.
pub record IsCounted (code : Text) (t : Tables) : Type 0 where
  pub group : Group
  pub here : group_of code t ≡ some group
  pub counted : stoi group.number_of_users ≡ some (pos (count_of code t.members))
  pub bounded : count_of code t.members ≤ 4
  pub single : (username : Text) → rows_of code username t.members ≤ 1

printed_count : (i : ℤ) (n : ℕ) → i ≡ pos n → n ≤ 4 → stoi (to_string (wrap_int i)) ≡ some (pos n)
printed_count i n e h =
    rw (e, wrap_int_of_IsInt (pos n) (omega arith)) (stoi-to_string (pos n) (omega arith))

module _ (code username : Text) (t : Tables) (c : IsCounted code t) where
  IsCounted-add :
      (status : Text)
      → member_of code username t ≡ none
      → eq_ℤ (pos (count_of code t.members)) (pos 4) ≡ false
      → IsCounted code
          (with_member code username status (wrap_int (pos (count_of code t.members) +ℤ pos 1)) t)
  unfolding with_member
  IsCounted-add status absent room =
      let m : Member = record { group_code = code; username = username; status = status } in
      let grown = count_of-append code m t.members refl in
      record {
        group = record c.group {
          number_of_users = to_string (wrap_int (pos (count_of code t.members) +ℤ pos 1));
        };
        here =
            find-update code (to_string (wrap_int (pos (count_of code t.members) +ℤ pos 1)))
              t.groups c.group c.here;
        counted = printed_count _ _ (rw grown (ground arith)) (ground arith);
        bounded = ground arith;
        single = λ other. elim (Bool-cases (text_eq username other)) [
          | inl same ↦ rw⁻¹ ((text_eq_iff username other).0 same) (
              omega (
                arith,
                rows_of-append code m username t.members,
                rows_of-missing code username t.members absent,
              ))
          | inr apart ↦ rw (rows_of-append_other code m other t.members apart) (c.single other)
        ];
      }

  IsCounted-remove :
      (m : Member)
      → member_of code username t ≡ some m
      → IsCounted code
          (without_member code username (wrap_int (pos (count_of code t.members) +ℤ negsuc 0)) t)
  unfolding without_member
  IsCounted-remove m present =
      let shrunk = count_of-remove code username t.members in
      let one = c.single username in
      let found = rows_of-found code username t.members m present in
      record {
        group = record c.group {
          number_of_users = to_string (wrap_int (pos (count_of code t.members) +ℤ negsuc 0));
        };
        here =
            find-update code (to_string (wrap_int (pos (count_of code t.members) +ℤ negsuc 0)))
              t.groups c.group c.here;
        counted = printed_count _ _ (ground arith) (omega (arith, c.bounded));
        bounded = omega (arith, c.bounded);
        single =
            λ other. omega (arith, c.single other, rows_of-remove code username other t.members);
      }

module _ (effector code username : Text) (w : World Tables) (c : IsCounted code w.db) where
  pub IsCounted-invited :
      (status : Text) (misused : Bool)
      → IsCounted code
          (invited
            (answer_to
              (member_of code effector w.db)
              (pos (count_of code w.db.members))
              (member_of code username w.db)
              (grants_nothing status))
            misused
            (with_member code username status
              (wrap_int (pos (count_of code w.db.members) +ℤ pos 1)))
            w).1.db
  IsCounted-invited status misused = elim (Option-cases (member_of code effector w.db)) [
    | inl stranger ↦ rw stranger c
    | inr (a, ha) ↦ elim (Bool-cases (eq_ℤ (pos (count_of code w.db.members)) (pos 4))) [
      | inl full ↦ rw (ha, full) c
      | inr room ↦ elim (Option-cases (member_of code username w.db)) [
        | inr (m, hm) ↦ rw (ha, room, hm) c
        | inl absent ↦ elim (Bool-cases (grants_nothing status)) [
          | inl p ↦ rw (ha, room, absent, p) c
          | inr p ↦ rw (ha, room, absent, p) (IsCounted-add code username w.db c status absent room)
        ]
      ]
    ]
  ]

  pub IsCounted-unless_refused :
      IsCounted code
        (unless_refused
          (refusal effector code username w.db)
          (without_member code username (wrap_int (pos (count_of code w.db.members) +ℤ negsuc 0)))
          w).1.db
  unfolding refusal
  IsCounted-unless_refused = elim (Option-cases (member_of code effector w.db)) [
    | inl stranger ↦ rw stranger c
    | inr (a, ha) ↦ elim (Option-cases (member_of code username w.db)) [
      | inl absent ↦ rw (ha, absent) c
      | inr (m, hm) ↦ elim (Bool-cases (may_act a m)) [
        | inl allowed ↦ rw (ha, hm, allowed) (IsCounted-remove code username w.db c m hm)
        | inr denied ↦ rw (ha, hm, denied) c
      ]
    ]
  ]

module _ {H : Type 0} {exec : Engine H} {view : H → Tables} (law : Implements exec view) where
  -- Whatever the outcome of adding a member, the column still counts the members of the group, who
  -- are at most four and have one row each; with the mutex free and arguments that are spelled as
  -- literals.
  pub add_user-IsCounted :
      (effector code username status : Text) (w : World H)
      → IsQuotable effector
      → IsNumeral code
      → IsQuotable username
      → IsQuotable status
      → w.groups_mtx ≡ free
      → IsCounted code (view w.db)
      → IsCounted code (view (add_user exec effector code username status w).1.db)
  add_user-IsCounted effector code username status w clean numeral user rights unlocked c =
      let e =
        add_user_outcome law effector code username status w c.group _ clean numeral user rights
          unlocked c.here c.counted in
      rw (ap (λ p. p.1.db) e) (IsCounted-invited effector code username (abs view w) c status _)

  -- The same for removing a member.
  pub remove_user-IsCounted :
      (effector code username : Text) (w : World H)
      → IsQuotable effector
      → IsNumeral code
      → IsQuotable username
      → w.groups_mtx ≡ free
      → IsCounted code (view w.db)
      → IsCounted code (view (remove_user exec effector code username w).1.db)
  remove_user-IsCounted effector code username w clean numeral user unlocked c =
      let e =
        remove_user_outcome law effector code username w c.group _ clean numeral user unlocked
          c.here c.counted in
      rw (ap (λ p. p.1.db) e) (IsCounted-unless_refused effector code username (abs view w) c)
