-- ===== src/History/Alike.antt =====
-- Changes of the tables that leave another group's row and members as they were.
use server_ilist.Prelude.{◌≡◌, refl, ap, false, true, List, [], ◌∷◌, length, ℤ, arith}
use server_ilist.Text.{Text, text_eq, text_eq_iff}
use server_ilist.Text.Number.{nat_to_string, to_string}
use server_ilist.Sqlite.Schema.{Tables, Member, Group, has_code, in_group, is_member, find, update}
use server_ilist.Groups.Lookups.{group_of}
use server_ilist.Groups.Counting.{count_of, rows_of}
use server_ilist.Groups.Count.{IsCounted}
use server_ilist.Groups.Close.{without_group}
use server_ilist.Groups.Members.{without_member, with_status}
use server_ilist.Groups.Invite.{with_member}
use server_ilist.Groups.Create.{with_group}
use server_ilist.History.Lists.{
  select-append_out, find-append_out, select_unrelated, find-select_unrelated, length-select-update,
}

-- The group has the same row and as many members, of each name too.
pub record Alike (code : Text) (t t' : Tables) : Type 0 where
  pub groups : group_of code t' ≡ group_of code t
  pub counts : count_of code t'.members ≡ count_of code t.members
  pub rows : (username : Text) → rows_of code username t'.members ≡ rows_of code username t.members

module _ (code : Text) where
  pub IsCounted-Alike : (t t' : Tables) → Alike code t t' → IsCounted code t → IsCounted code t'
  IsCounted-Alike t t' a c = record {
    group = c.group;
    here = rw a.groups c.here;
    counted = rw a.counts c.counted;
    bounded = rw a.counts c.bounded;
    single = λ username. rw (a.rows username) (c.single username);
  }

module _ (code other : Text) (apart : text_eq other code ≡ false) where
  pub find-update_other :
      (n : Text) (gs : List Group)
      → find (has_code other) (update (has_code code) (λ g. record g { number_of_users = n }) gs)
        ≡ find (has_code other) gs
  unfolding find update
  find-update_other n [] = refl
  find-update_other n (g ∷ gs) = grind (
    arith,
    find-update_other n gs,
    text_eq_iff (nat_to_string g.code) code,
    text_eq_iff (nat_to_string g.code) other,
    text_eq_iff other code,
  )

  other-member : (m : Member) → in_group other m ≡ true → in_group code m ≡ false
  other-member m h =
      ground (
        arith,
        text_eq_iff m.group_code other,
        text_eq_iff m.group_code code,
        text_eq_iff other code,
      )

  other-row :
      (u username : Text) (m : Member)
      → is_member other u m ≡ true
      → is_member code username m ≡ false
  other-row u username m h = ground (arith, other-member m)

  other-group : (g : Group) → has_code other g ≡ true → has_code code g ≡ false
  other-group g h = ground (
    arith,
    text_eq_iff (nat_to_string g.code) other,
    text_eq_iff (nat_to_string g.code) code,
    text_eq_iff other code,
  )

  turned : text_eq code other ≡ false
  turned = ground (arith, text_eq_iff code other, text_eq_iff other code)

  pub Alike-with_member :
      (username status : Text) (n : ℤ) (t : Tables)
      → Alike other t (with_member code username status n t)
  unfolding with_member
  Alike-with_member username status n t = record {
    groups = find-update_other (to_string n) t.groups;
    counts = ap length (select-append_out (in_group other) t.members _ turned);
    rows = λ u. ap length (select-append_out (is_member other u) t.members _ (rw turned refl));
  }

  pub Alike-without_member :
      (username : Text) (n : ℤ) (t : Tables) → Alike other t (without_member code username n t)
  unfolding without_member
  Alike-without_member username n t = record {
    groups = find-update_other (to_string n) t.groups;
    counts = ap length (
        select_unrelated (in_group other) (is_member code username)
          (λ m h. rw (other-member m h) refl) t.members);
    rows = λ u. ap length (
        select_unrelated (is_member other u) (is_member code username) (other-row u username)
          t.members);
  }

  pub Alike-without_group : (t : Tables) → Alike other t (without_group code t)
  unfolding without_group
  Alike-without_group t = record {
    groups = find-select_unrelated (has_code other) (has_code code) other-group t.groups;
    counts = ap length (select_unrelated (in_group other) (in_group code) other-member t.members);
    rows = λ u. ap length (
        select_unrelated (is_member other u) (in_group code) (λ m h. ground (arith, other-member m))
          t.members);
  }

pub Alike-with_status :
    (other code username status : Text) (t : Tables)
    → Alike other t (with_status code username status t)
unfolding with_status
Alike-with_status other code username status t = record {
  groups = refl;
  counts = length-select-update (in_group other) (is_member code username) _ (λ m. refl) t.members;
  rows = λ u.
      length-select-update (is_member other u) (is_member code username) _ (λ m. refl) t.members;
}

pub Alike-with_group :
    (other name admin today : Text) (t : Tables)
    → text_eq other (nat_to_string t.next_code) ≡ false
    → Alike other t (with_group name admin today t)
unfolding with_group
Alike-with_group other name admin today t apart =
    let away = turned (nat_to_string t.next_code) other apart in
    record {
      groups = find-append_out (has_code other) t.groups _ away;
      counts = ap length (select-append_out (in_group other) t.members _ away);
      rows = λ u. ap length (select-append_out (is_member other u) t.members _ (rw away refl));
    }
