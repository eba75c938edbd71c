-- ===== src/Session/Foreign.antt =====
-- Every member and every item belongs to a group that is there (the FOREIGN KEY clauses of
-- ServerIList/Database.h, which SQLite does not enforce unless it is told to).
use server_ilist.Prelude.{
  ◌≡◌, refl, Bool, true, false, not, any, all, List, [], ◌∷◌, ◌++◌, map, select, Bool-cases, inl,
  inr, arith,
}
use server_ilist.Text.{Text, text_eq, text_eq_iff}
use server_ilist.Text.Number.{nat_to_string}
use server_ilist.Database.{is_empty}
use server_ilist.Sqlite.Schema.{Tables, Group, Member, Item, has_code, is_member, update}
use server_ilist.Sqlite.Language.{member_row}

abbrev pub has_group : Text → List Group → Bool
has_group code gs = any (has_code code) gs

abbrev pub members_of : List Group → List Member → Bool
members_of gs ms = all (λ m. has_group m.group_code gs) ms

abbrev pub items_of : List Group → List Item → Bool
items_of gs js = all (λ j. has_group j.group_code gs) js

abbrev pub IsRooted : Tables → Type 0
IsRooted t = (members_of t.groups t.members ≡ true) × (items_of t.groups t.items ≡ true)

-- The same, and a group with this code is there.
abbrev pub IsRootedAt : Text → Tables → Type 0
IsRootedAt code t = IsRooted t × (has_group code t.groups ≡ true)

-- The groups with a changed row, when the codes are as before.
pub has_group-update :
    (code other n : Text) (gs : List Group)
    → has_group other (update (has_code code) (λ g. record g { number_of_users = n }) gs)
      ≡ has_group other gs
unfolding update
has_group-update code other n [] = refl
has_group-update code other n (g ∷ gs) = ground (arith, has_group-update code other n gs)

-- Taking a group away keeps the other codes.
pub has_group-remove :
    (code other : Text) (gs : List Group)
    → text_eq other code ≡ false
    → has_group other (select (λ g. not (has_code code g)) gs) ≡ has_group other gs
has_group-remove code other [] apart = refl
has_group-remove code other (g ∷ gs) apart = grind (
  arith,
  has_group-remove code other gs apart,
  text_eq_iff (nat_to_string g.code) code,
  text_eq_iff (nat_to_string g.code) other,
  text_eq_iff other code,
)

module _ (gs : List Group) where
  pub members_of-select :
      (p : Member → Bool) (ms : List Member)
      → members_of gs ms ≡ true
      → members_of gs (select p ms) ≡ true
  members_of-select p [] h = refl
  members_of-select p (m ∷ ms) h = ground (arith, members_of-select p ms)

  pub items_of-select :
      (p : Item → Bool) (js : List Item) → items_of gs js ≡ true → items_of gs (select p js) ≡ true
  items_of-select p [] h = refl
  items_of-select p (j ∷ js) h = ground (arith, items_of-select p js)

  pub members_of-append :
      (m : Member) (ms : List Member)
      → members_of gs ms ≡ true
      → has_group m.group_code gs ≡ true
      → members_of gs (ms ++ m ∷ []) ≡ true
  members_of-append m [] h e = ground arith
  members_of-append m (x ∷ ms) h e = ground (arith, members_of-append m ms)

  pub items_of-append :
      (j : Item) (js : List Item)
      → items_of gs js ≡ true
      → has_group j.group_code gs ≡ true
      → items_of gs (js ++ j ∷ []) ≡ true
  items_of-append j [] h e = ground arith
  items_of-append j (x ∷ js) h e = ground (arith, items_of-append j js)

  pub members_of-update :
      (p : Member → Bool) (s : Text) (ms : List Member)
      → members_of gs ms ≡ true
      → members_of gs (update p (λ m. record m { status = s }) ms) ≡ true
  unfolding update
  members_of-update p s [] h = refl
  members_of-update p s (m ∷ ms) h = ground (arith, members_of-update p s ms)

  -- A change of items that keeps their codes.
  pub items_of-update :
      (p : Item → Bool) (f : Item → Item)
      → ((j : Item) → (f j).group_code ≡ j.group_code)
      → (js : List Item) → items_of gs js ≡ true
      → items_of gs (update p f js) ≡ true
  unfolding update
  items_of-update p f same [] h = refl
  items_of-update p f same (j ∷ js) h = elim (Bool-cases (p j)) [
    | inl e ↦ rw e (rw (same j) (ground (arith, items_of-update p f same js)))
    | inr e ↦ rw e (ground (arith, items_of-update p f same js))
  ]

  -- The group of a member that was found is there.
  pub has_group-found :
      (code name : Text) (ms : List Member)
      → members_of gs ms ≡ true
      → not (is_empty (map member_row (select (is_member code name) ms))) ≡ true
      → has_group code gs ≡ true
  has_group-found code name [] h e = ground arith
  has_group-found code name (m ∷ ms) h e = elim (Bool-cases (text_eq m.group_code code)) [
    | inl f ↦
        let same : m.group_code ≡ code = (text_eq_iff m.group_code code).0 f in
        rw⁻¹ same (ground arith)
    | inr f ↦ ground (arith, has_group-found code name ms)
  ]
