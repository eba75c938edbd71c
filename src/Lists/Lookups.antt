-- ===== src/Lists/Lookups.antt =====
-- What the queries of ServerIList/PublicLists.cpp that change nothing answer from the tables.
use server_ilist.Prelude.{◌≡◌, refl, true, false, Option, none, some}
use server_ilist.Text.{Text}
use server_ilist.Exception.{ok}
use server_ilist.Action.{◌>>=◌}
use server_ilist.World.{World}
use server_ilist.Sqlite.Schema.{Tables, Member, Item, is_member, is_item, find}
use server_ilist.Sqlite.Schema.Find.{select-eq_nil_of_find, select-eq_cons_of_find}
use server_ilist.Sqlite.Language.{answer}
use server_ilist.Sqlite.Effect.{effect}
use server_ilist.Sqlite.Refines.{run}
use server_ilist.Groups.Lookups.{member_of}
use server_ilist.Lists.Spec.{has_user, has_item, quantity_of}

-- The row of an item.
abbrev pub item_of : Text → Text → Tables → Option Item
item_of code item_name t = find (is_item code item_name) t.items

module _ (code name : Text) (w : World Tables) where
  pub has_user-none : member_of code name w.db ≡ none → has_user code name w ≡ (ok false, w)
  unfolding has_user ◌>>=◌ run answer effect
  has_user-none h = rw (select-eq_nil_of_find (is_member code name) w.db.members h) refl

  pub has_user-some :
      (m : Member) → member_of code name w.db ≡ some m → has_user code name w ≡ (ok true, w)
  unfolding has_user ◌>>=◌ run answer effect
  has_user-some m h =
      let (rest, e) = select-eq_cons_of_find (is_member code name) w.db.members m h in rw e refl

  pub has_item-none : item_of code name w.db ≡ none → has_item code name w ≡ (ok false, w)
  unfolding has_item ◌>>=◌ run answer effect
  has_item-none h = rw (select-eq_nil_of_find (is_item code name) w.db.items h) refl

  module _ (j : Item) (h : item_of code name w.db ≡ some j) where
    pub has_item-some : has_item code name w ≡ (ok true, w)
    unfolding has_item ◌>>=◌ run answer effect
    has_item-some =
        let (rest, e) = select-eq_cons_of_find (is_item code name) w.db.items j h in rw e refl

    pub quantity_of-some : quantity_of code name w ≡ (ok j.quantity, w)
    unfolding quantity_of ◌>>=◌ run answer effect
    quantity_of-some =
        let (rest, e) = select-eq_cons_of_find (is_item code name) w.db.items j h in rw e refl
