-- ===== src/Session/Rooted.antt =====
-- What each statement keeps: every member and every item belongs to a group that is there.
use server_ilist.Prelude.{
  ◌≡◌, refl, Bool, true, false, not, List, [], ◌∷◌, Option, none, some, select, inl, inr,
  Option-cases, arith, ◌∙◌, if◌then◌else◌,
}
use server_ilist.Text.{Text, text_eq}
use server_ilist.Sqlite.Schema.{
  Tables, Group, Member, Item, has_code, in_group, is_member, listed_in, is_item, find, update,
}
use server_ilist.Sqlite.Language.{
  insert_member, insert_item, update_number, delete_member, delete_item, delete_items, delete_group,
  delete_members, update_status, update_quantity, update_item,
}
use server_ilist.Sqlite.Effect.{effect}
use server_ilist.Session.Foreign.{
  members_of, items_of, IsRooted, IsRootedAt, has_group-update, has_group-remove, members_of-select,
  items_of-select, members_of-append, items_of-append, members_of-update, items_of-update,
}

-- The two ends of an UPDATE of a key.
changed-IsRooted :
    (taken here : Option Item) (same : Bool) (changed t : Tables)
    → IsRooted changed
    → IsRooted t
    → IsRooted (elim taken [
      | none ↦ changed
      | some i ↦ if same then changed else elim here [ none ↦ changed | some j ↦ t ]
    ])
changed-IsRooted none here same changed t c h = c
changed-IsRooted (some i) here true changed t c h = c
changed-IsRooted (some i) none false changed t c h = c
changed-IsRooted (some i) (some j) false changed t c h = h

module _ (code : Text) where
  pub effect-insert_member :
      (name status : Text) (t : Tables)
      → IsRootedAt code t
      → IsRootedAt code (effect (insert_member code name status) t)
  unfolding effect
  effect-insert_member name status t ((ms, js), here) =
      elim (Option-cases (find (is_member code name) t.members)) [
        | inl e ↦ rw e (
          (
            members_of-append t.groups
                (record { group_code = code; username = name; status = status }) t.members ms here,
            js,
          ),
          here,
        )
        | inr (m, e) ↦ rw e ((ms, js), here)
      ]

  pub effect-insert_item :
      (name quantity remarks : Text) (t : Tables)
      → IsRootedAt code t
      → IsRootedAt code (effect (insert_item code name quantity remarks) t)
  unfolding effect
  effect-insert_item name quantity remarks t ((ms, js), here) =
      elim (Option-cases (find (is_item code name) t.items)) [
        | inl e ↦ rw e (
          (
            ms,
            items_of-append t.groups
                (record {
                  group_code = code;
                  item_name = name;
                  quantity = quantity;
                  remarks = remarks;
                })
                t.items js here,
          ),
          here,
        )
        | inr (j, e) ↦ rw e ((ms, js), here)
      ]

  members_of-groups :
      (n : Text) (gs : List Group) (ms : List Member)
      → members_of gs ms ≡ true
      → members_of (update (has_code code) (λ g. record g { number_of_users = n }) gs) ms ≡ true
  members_of-groups n gs [] h = refl
  members_of-groups n gs (m ∷ ms) h =
      ground (arith, has_group-update code m.group_code n gs, members_of-groups n gs ms)

  items_of-groups :
      (n : Text) (gs : List Group) (js : List Item)
      → items_of gs js ≡ true
      → items_of (update (has_code code) (λ g. record g { number_of_users = n }) gs) js ≡ true
  items_of-groups n gs [] h = refl
  items_of-groups n gs (j ∷ js) h =
      ground (arith, has_group-update code j.group_code n gs, items_of-groups n gs js)

  pub effect-update_number :
      (n : Text) (t : Tables) → IsRooted t → IsRooted (effect (update_number n code) t)
  unfolding effect
  effect-update_number n t (ms, js) =
      (members_of-groups n t.groups t.members ms, items_of-groups n t.groups t.items js)

  pub effect-update_number_at :
      (n : Text) (t : Tables)
      → IsRootedAt code t
      → IsRootedAt code (effect (update_number n code) t)
  unfolding effect
  effect-update_number_at n t (h, here) =
      (effect-update_number n t h, has_group-update code code n t.groups ∙ here)

  pub effect-delete_member :
      (name : Text) (t : Tables) → IsRooted t → IsRooted (effect (delete_member code name) t)
  unfolding effect
  effect-delete_member name t (ms, js) = (members_of-select t.groups _ t.members ms, js)

  pub effect-delete_item :
      (name : Text) (t : Tables) → IsRooted t → IsRooted (effect (delete_item code name) t)
  unfolding effect
  effect-delete_item name t (ms, js) = (ms, items_of-select t.groups _ t.items js)

  pub effect-update_status :
      (status name : Text) (t : Tables)
      → IsRooted t
      → IsRooted (effect (update_status status code name) t)
  unfolding effect
  effect-update_status status name t (ms, js) =
      (members_of-update t.groups (is_member code name) status t.members ms, js)

  pub effect-update_quantity :
      (quantity name : Text) (t : Tables)
      → IsRooted t
      → IsRooted (effect (update_quantity quantity code name) t)
  unfolding effect
  effect-update_quantity quantity name t (ms, js) =
      (ms, items_of-update t.groups (is_item code name) _ (λ j. refl) t.items js)

  pub effect-update_item :
      (name quantity remarks key : Text) (t : Tables)
      → IsRooted t
      → IsRooted (effect (update_item name quantity remarks code key) t)
  unfolding effect
  effect-update_item name quantity remarks key t (ms, js) =
      changed-IsRooted (find (is_item code name) t.items) (find (is_item code key) t.items)
        (text_eq key name) _ t
        (ms, items_of-update t.groups (is_item code key) _ (λ j. refl) t.items js) (ms, js)

  members_of-close :
      (gs : List Group) (ms : List Member)
      → members_of gs ms ≡ true
      → members_of (select (λ g. not (has_code code g)) gs) (select (λ m. not (in_group code m)) ms)
        ≡ true
  members_of-close gs [] h = refl
  members_of-close gs (m ∷ ms) h =
      ground (arith, has_group-remove code m.group_code gs, members_of-close gs ms)

  items_of-close :
      (gs : List Group) (js : List Item)
      → items_of gs js ≡ true
      → items_of (select (λ g. not (has_code code g)) gs) (select (λ j. not (listed_in code j)) js)
        ≡ true
  items_of-close gs [] h = refl
  items_of-close gs (j ∷ js) h =
      ground (arith, has_group-remove code j.group_code gs, items_of-close gs js)

  -- The three statements of a closing leave what was rooted rooted, though the first alone does
  -- not.
  pub effect-close :
      (t : Tables)
      → IsRooted t
      → IsRooted
          (effect (delete_items code) (effect (delete_members code) (effect (delete_group code) t)))
  unfolding effect
  effect-close t (ms, js) =
      (members_of-close t.groups t.members ms, items_of-close t.groups t.items js)
