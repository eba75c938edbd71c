-- ===== src/History/Books.antt =====
-- What every call keeps of the tables: no member and no item is without its group, each group has a
-- code below the next one, and each group's column counts its members.
use server_ilist.Prelude.{
  ◌≡◌, ◌<◌, ◌^◌, refl, sym, ◌∙◌, Bool, false, true, Bool-cases, inl, inr, none, some, List, [], ◌∷◌,
  ◌++◌, select, suc, ℕ, ℤ, All, arith,
}
use server_ilist.Text.{Text, text_eq, text_eq_iff}
use server_ilist.Text.Number.{nat_to_string}
use server_ilist.Text.Number.RoundTrip.{nat_to_string-injective}
use server_ilist.Sqlite.Schema.{Tables, Member, Group, has_code, is_member, find, update}
use server_ilist.Groups.Lookups.{group_of, member_of}
use server_ilist.Groups.Counting.{count_of}
use server_ilist.Groups.Count.{IsCounted}
use server_ilist.Groups.Close.{without_group}
use server_ilist.Groups.Members.{without_member, with_status}
use server_ilist.Groups.Invite.{with_member}
use server_ilist.Groups.Create.{with_group, IsCounted-with_group}
use server_ilist.Groups.Fresh.{IsFresh}
use server_ilist.Session.Foreign.{has_group, members_of, IsRooted}
use server_ilist.History.Lists.{find-select_out}
use server_ilist.History.Alike.{
  Alike, IsCounted-Alike, Alike-with_member, Alike-without_member, Alike-without_group,
  Alike-with_status, Alike-with_group,
}

-- AUTOINCREMENT gives a code above every other.
abbrev pub IsBelow : Tables → Type 0
IsBelow t = All (λ (g : Group). g.code < t.next_code) t.groups

-- Each group has at most four members, with one row each, and its column counts them.
pub record IsTallied (t : Tables) : Type 0 where
  pub at : (code : Text) (g : Group) → group_of code t ≡ some g → IsCounted code t

pub record IsConsistent (t : Tables) : Type 0 where
  pub rooted : IsRooted t
  pub below : IsBelow t
  pub tallied : IsTallied t

-- When all other groups are as before, the one changed is the one to look at.
IsTallied-changed :
    (code : Text) (t t' : Tables)
    → ((other : Text) → text_eq other code ≡ false → Alike other t t')
    → ((g : Group) → group_of code t' ≡ some g → IsCounted code t')
    → IsTallied t
    → IsTallied t'
IsTallied-changed code t t' alike here h = record {
  at = λ other g found. elim (Bool-cases (text_eq other code)) [
    | inl same ↦ let e = (text_eq_iff other code).0 same in rw e (here g (rw e at found))
    | inr apart ↦
        let a = alike other apart in
        IsCounted-Alike other t t' a (h.at other g (sym a.groups ∙ found))
  ];
}

module _ (code : Text) (t : Tables) (h : IsTallied t) where
  pub IsTallied-with_member :
      (username status : Text) (n : ℤ)
      → IsCounted code (with_member code username status n t)
      → IsTallied (with_member code username status n t)
  IsTallied-with_member username status n c =
      IsTallied-changed code t _
        (λ other apart. Alike-with_member code other apart username status n t) (λ g e. c) h

  pub IsTallied-without_member :
      (username : Text) (n : ℤ)
      → IsCounted code (without_member code username n t)
      → IsTallied (without_member code username n t)
  IsTallied-without_member username n c =
      IsTallied-changed code t _ (λ other apart. Alike-without_member code other apart username n t)
        (λ g e. c) h

  pub IsTallied-without_group : IsTallied (without_group code t)
  unfolding without_group
  IsTallied-without_group =
      IsTallied-changed code t (without_group code t)
        (λ other apart. Alike-without_group code other apart t)
        (λ g e. absurd (none_some (sym (find-select_out (has_code code) t.groups) ∙ e))) h
    where
      none_some : {g : Group} → none ≡ some g → ⊥
      none_some e = cc e

  pub IsTallied-with_status :
      (username status : Text) → IsTallied (with_status code username status t)
  IsTallied-with_status username status = record {
    at = λ other g found.
        let a = Alike-with_status other code username status t in
        IsCounted-Alike other t _ a (h.at other g (sym a.groups ∙ found));
  }

pub IsTallied-with_group :
    (name admin today : Text) (t : Tables)
    → IsFresh t
    → IsTallied t
    → IsTallied (with_group name admin today t)
IsTallied-with_group name admin today t fresh h =
    IsTallied-changed (nat_to_string t.next_code) t _
      (λ other apart. Alike-with_group other name admin today t apart)
      (λ g e. IsCounted-with_group name admin today t fresh) h

-- A code that no group has is no member's code either.
module _ (code : Text) where
  has_group-none : (gs : List Group) → find (has_code code) gs ≡ none → has_group code gs ≡ false
  unfolding find
  has_group-none [] h = refl
  has_group-none (g ∷ gs) h = ground (arith, has_group-none gs)

  find-stranger :
      (username : Text) (gs : List Group) (ms : List Member)
      → has_group code gs ≡ false
      → members_of gs ms ≡ true
      → find (is_member code username) ms ≡ none
  unfolding find
  find-stranger username gs [] lost h = refl
  find-stranger username gs (m ∷ ms) lost h =
      ground (arith, find-stranger username gs ms, text_eq_iff m.group_code code)

  count_of-lost :
      (gs : List Group) (ms : List Member)
      → has_group code gs ≡ false
      → members_of gs ms ≡ true
      → count_of code ms ≡ 0
  count_of-lost gs [] lost h = refl
  count_of-lost gs (m ∷ ms) lost h =
      ground (arith, count_of-lost gs ms, text_eq_iff m.group_code code)

  pub member_of-absent :
      (username : Text) (t : Tables)
      → group_of code t ≡ none
      → IsRooted t
      → member_of code username t ≡ none
  member_of-absent username t absent (ms, js) =
      find-stranger username t.groups t.members (has_group-none t.groups absent) ms

has_group-next :
    (n : ℕ) (gs : List Group)
    → All (λ (g : Group). g.code < n) gs
    → has_group (nat_to_string n) gs ≡ false
has_group-next n [] h = refl
has_group-next n (g ∷ gs) (below, h) = ground (
  arith,
  has_group-next n gs h,
  text_eq_iff (nat_to_string g.code) (nat_to_string n),
  nat_to_string-injective g.code n,
)

-- The next code is fresh while SQLite has integers left.
pub IsConsistent-IsFresh : (t : Tables) → IsConsistent t → t.next_code < 2 ^ 63 → IsFresh t
IsConsistent-IsFresh t h room = record {
  above = h.below;
  room = room;
  unused =
      count_of-lost (nat_to_string t.next_code) t.groups t.members
        (has_group-next t.next_code t.groups h.below) h.rooted.0;
}

module _ (n : ℕ) where
  pub below-select :
      (p : Group → Bool) (gs : List Group)
      → All (λ (g : Group). g.code < n) gs
      → All (λ (g : Group). g.code < n) (select p gs)
  below-select p [] h = tt
  below-select p (g ∷ gs) (b, h) = elim (Bool-cases (p g)) [
    | inl e ↦ rw e (b, below-select p gs h)
    | inr e ↦ rw e (below-select p gs h)
  ]

  pub below-update :
      (code number : Text) (gs : List Group)
      → All (λ (g : Group). g.code < n) gs
      → All
          (λ (g : Group). g.code < n)
          (update (has_code code) (λ g. record g { number_of_users = number }) gs)
  unfolding update
  below-update code number [] h = tt
  below-update code number (g ∷ gs) (b, h) = (ground (arith), below-update code number gs h)

  pub below-append :
      (new : Group) (gs : List Group)
      → new.code ≡ n
      → All (λ (g : Group). g.code < n) gs
      → All (λ (g : Group). g.code < suc n) (gs ++ new ∷ [])
  below-append new [] e h = (omega (arith, e), tt)
  below-append new (g ∷ gs) e (b, h) = (omega (arith, b), below-append new gs e h)
