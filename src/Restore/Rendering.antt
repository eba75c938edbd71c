-- ===== src/Restore/Rendering.antt =====
-- The text that `buildRestoreMessage` (ServerIList/Restore.cpp) is to give, from the tables.
use mathlib.Core.List.{Permᴰ}
use server_ilist.Prelude.{
  All, Option, ◌≡◌, none, some, List, [], ◌∷◌, ◌++◌, map, select, drop_last, drop_last-append,
  append_assoc, append-nil,
}
use server_ilist.Text.{Text, lit}
use server_ilist.Sqlite.Schema.{
  Tables, Group, Member, Item, has_code, in_group, listed_in, of_user, find,
}
use server_ilist.Restore.Loops.{render_members, render_items}

-- The texts with a hyphen between each two.
abbrev hyphened : List Text → Text
hyphened [] = []
hyphened (t ∷ []) = t
hyphened (t ∷ u ∷ ts) = t ++ (lit "-" ++ hyphened (u ∷ ts))

abbrev member_word : Member → Text
member_word m = m.username ++ (lit ":" ++ m.status)

abbrev item_word : Item → Text
item_word j = j.item_name ++ (lit ":" ++ (j.quantity ++ (lit ":" ++ j.remarks)))

-- The items after a comma; with no items there is no comma.
abbrev pub items_part : List Item → Text
items_part [] = []
items_part (j ∷ js) = lit "," ++ hyphened (map item_word (j ∷ js))

-- `code,name,user:status-user:status,item:quantity:remarks-item:quantity:remarks|`
abbrev pub group_text : Text → Text → List Member → List Item → Text
group_text code name ms js =
    (code ++ (lit "," ++ (name ++ lit ",")))
    ++ (hyphened (map member_word ms) ++ (items_part js ++ lit "|"))

-- A membership with the members and the items of its group, in the orders in which they are shown.
pub record Entry : Type 0 where
  pub seat : Member
  pub members : List Member
  pub items : List Item

-- The text of a membership, when its group was found.
abbrev pub entry_of : Entry → Option Group → Text
entry_of e none = []
entry_of e (some g) = group_text e.seat.group_code g.name e.members e.items

abbrev pub group_entry : Tables → Entry → Text
group_entry t e = entry_of e (find (has_code e.seat.group_code) t.groups)

abbrev pub group_entries : Tables → List Entry → Text
group_entries t [] = []
group_entries t (e ∷ es) = group_entry t e ++ group_entries t es

-- The whole message for these memberships.
abbrev pub restore_text : Tables → List Entry → Text
restore_text t es = (lit "@400|" ++ group_entries t es) ++ lit "|"

-- All the members of the group and all its items, each row once.
abbrev pub IsWhole : Tables → Entry → Type 0
IsWhole t e =
    Permᴰ e.members (select (in_group e.seat.group_code) t.members)
    × Permᴰ e.items (select (listed_in e.seat.group_code) t.items)

-- All the user's memberships, each row once, with the members and the items of each.
pub record IsComplete (t : Tables) (username : Text) (es : List Entry) : Type 0 where
  pub seats : Permᴰ (map (λ (e : Entry). e.seat) es) (select (of_user username) t.members)
  pub whole : All (IsWhole t) es

remove_hyphen : (xs ys : Text) → drop_last (xs ++ (ys ++ lit "-")) ≡ xs ++ ys
unfolding lit
remove_hyphen xs ys = rw⁻¹ (append_assoc xs ys (b'-' ∷ [])) (drop_last-append (xs ++ ys) b'-')

remove_comma : (xs : Text) → drop_last (xs ++ lit ",") ≡ xs
unfolding lit
remove_comma xs = drop_last-append xs b','

render_members-hyphened :
    (m : Member) (ms : List Member)
    → render_members (m ∷ ms) ≡ hyphened (map member_word (m ∷ ms)) ++ lit "-"
render_members-hyphened m [] = simp (append_assoc, append-nil)
render_members-hyphened m (n ∷ ms) = rw (render_members-hyphened n ms) (simp append_assoc)

render_items-hyphened :
    (j : Item) (js : List Item)
    → render_items (j ∷ js) ≡ hyphened (map item_word (j ∷ js)) ++ lit "-"
render_items-hyphened j [] = simp (append_assoc, append-nil)
render_items-hyphened j (k ∷ js) = rw (render_items-hyphened k js) (simp append_assoc)

-- What the code makes of the text before it, the members and the items of a group.
abbrev pub add_group : Text → Text → Text → List Member → List Item → Text
add_group ret code name ms js =
    let with_users =
      drop_last ((ret ++ (code ++ (lit "," ++ (name ++ lit ",")))) ++ render_members ms) in
    drop_last ((with_users ++ lit ",") ++ render_items js) ++ lit "|"

remove_bare_comma : (xs : Text) → drop_last ((xs ++ lit ",") ++ []) ≡ xs
remove_bare_comma xs = rw (append-nil (xs ++ lit ",")) (remove_comma xs)

module _ (ret code name : Text) (m : Member) (ms : List Member) where
  abbrev head : Text
  head = ret ++ (code ++ (lit "," ++ (name ++ lit ",")))

  abbrev words : Text
  words = hyphened (map member_word (m ∷ ms))

  with_items :
      (js : List Item)
      → drop_last (((head ++ words) ++ lit ",") ++ render_items js) ++ lit "|"
        ≡ ret ++ group_text code name (m ∷ ms) js
  with_items [] = rw (remove_bare_comma (head ++ words)) (simp append_assoc)
  with_items (j ∷ js) =
      rw
        (
          render_items-hyphened j js,
          remove_hyphen ((head ++ words) ++ lit ",") (hyphened (map item_word (j ∷ js))),
        )
        (simp append_assoc)

  pub add_group-eq :
      (js : List Item)
      → add_group ret code name (m ∷ ms) js ≡ ret ++ group_text code name (m ∷ ms) js
  add_group-eq js = rw (render_members-hyphened m ms, remove_hyphen head words) (with_items js)
