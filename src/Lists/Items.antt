-- ===== src/Lists/Items.antt =====
-- Adding and removing an item (`addItem` and `removeItem` of ServerIList/PublicLists.cpp).
use server_ilist.Prelude.{
  ◌≡◌, refl, not, Option-cases, inl, inr, Option, none, some, select, [], ◌∷◌, ◌++◌, ap, ◌∙◌, ℤ,
  ◌+ℤ◌, if◌then◌else◌,
}
use server_ilist.Text.{Text}
use server_ilist.Text.Number.{stoi, to_string, wrap_int}
use server_ilist.Exception.{Outcome, ok, fails, thrown, standard, system}
use server_ilist.Action.{◌>>=◌, ◌>>◌, pure, throw, when}
use server_ilist.Lists.Guard.{list_refusal, unless_locked_out, stuck, guarded-eq}
use server_ilist.World.{World}
use server_ilist.Database.{Engine}
use server_ilist.Database.Mutex.{free, unlock_lists}
use server_ilist.Sqlite.{Implements}
use server_ilist.Sqlite.Schema.{Tables, Item, is_item, update}
use server_ilist.Sqlite.Language.{insert_item, delete_item}
use server_ilist.Sqlite.Effect.{effect}
use server_ilist.Sqlite.Spelled.{IsQuotable, IsNumeral}
use server_ilist.Sqlite.Refines.{run, abs, lift_abs}
use server_ilist.Lists.{add_item, remove_item}
use server_ilist.Lists.Spec.{add_item_on_tables, remove_item_on_tables, inc_on_tables, has_item}
use server_ilist.Lists.Lookups.{item_of, has_item-none, has_item-some, quantity_of-some}
use server_ilist.Lists.Refinement.{add_item-Refines, remove_item-Refines}

abbrev pub with_item : Text → Text → Text → Text → Tables → Tables
with_item code name quantity remarks t = record t {
  items =
      t.items
      ++ record { group_code = code; item_name = name; quantity = quantity; remarks = remarks }
        ∷ [];
}

abbrev pub with_quantity : Text → Text → ℤ → Tables → Tables
with_quantity code name n t = record t {
  items = update (is_item code name) (λ j. record j { quantity = to_string n }) t.items;
}

abbrev pub without_item : Text → Text → Tables → Tables
without_item code name t = record t { items = select (λ j. not (is_item code name j)) t.items }

abbrev increased_by : Option ℤ → ℤ → Text → Text → World Tables → Outcome Unit × World Tables
increased_by none old code name w = (fails standard, stuck w)
increased_by (some more) old code name w =
    (ok tt, record w { db = with_quantity code name (wrap_int (old +ℤ more)) w.db })

-- An item's quantity with another added; a text that `stoi` refuses leaves the mutex locked.
abbrev pub increased :
    Option ℤ → Option ℤ → Text → Text → World Tables → Outcome Unit × World Tables
increased none inc code name w = (fails standard, stuck w)
increased (some old) inc code name w = increased_by inc old code name w

-- A new item is added as it is; one that is there has its quantity increased.
abbrev pub item_added :
    Option Item → Text → Text → Text → Text → World Tables → Outcome Unit × World Tables
item_added none code name quantity remarks w =
    (ok tt, record w { db = with_item code name quantity remarks w.db })
item_added (some j) code name quantity remarks w =
    increased (stoi j.quantity) (stoi quantity) code name w

abbrev pub item_removed : Option Item → Text → Text → World Tables → Outcome Unit × World Tables
item_removed none code name w = (fails (thrown system), w)
item_removed (some j) code name w = (ok tt, record w { db = without_item code name w.db })

module _ (code name : Text) (w : World Tables) (unlocked : w.lists_mtx ≡ free) where
  inc_increased :
      (j : Item) (inc : Text)
      → item_of code name w.db ≡ some j
      → (inc_on_tables code name inc >>= λ _. unlock_lists) (stuck w)
        ≡ increased (stoi j.quantity) (stoi inc) code name w
  unfolding inc_on_tables ◌>>=◌ run effect unlock_lists
  inc_increased j inc h = rw unlocked (
      rw (quantity_of-some code name (stuck w) j h) (elim (Option-cases (stoi j.quantity)) [
        | inl bad ↦ rw bad refl
        | inr (old, e) ↦ elim (Option-cases (stoi inc)) [
          | inl bad ↦ rw (e, bad) refl
          | inr (more, f) ↦ rw (e, f) refl
        ]
      ]))

  added_or_increased :
      (quantity remarks : Text)
      → (do
        known ← has_item code name
        if known
            then inc_on_tables code name quantity
            else (do run (insert_item code name quantity remarks); pure tt)
        unlock_lists)
          (stuck w)
        ≡ item_added (item_of code name w.db) code name quantity remarks w
  unfolding ◌>>=◌ unlock_lists run effect
  added_or_increased quantity remarks = elim (Option-cases (item_of code name w.db)) [
    | inl new ↦ rw (new, unlocked) (rw (has_item-none code name (stuck w) new) (rw new refl))
    | inr (j, hj) ↦
        rw hj (rw (has_item-some code name (stuck w) j hj) (inc_increased j quantity hj))
  ]

  removed_or_missing :
      (do
        known ← has_item code name
        when (not known) (do unlock_lists; throw system)
        run (delete_item code name)
        unlock_lists)
        (stuck w)
      ≡ item_removed (item_of code name w.db) code name w
  unfolding ◌>>=◌ unlock_lists run effect
  removed_or_missing = elim (Option-cases (item_of code name w.db)) [
    | inl new ↦ rw (new, unlocked) (rw (has_item-none code name (stuck w) new) refl)
    | inr (j, hj) ↦ rw (hj, unlocked) (rw (has_item-some code name (stuck w) j hj) refl)
  ]

module _ (effector code name : Text) (w : World Tables) (unlocked : w.lists_mtx ≡ free) where
  add_item_tables :
      (quantity remarks : Text)
      → add_item_on_tables effector code name quantity remarks w
        ≡ unless_locked_out
            (list_refusal effector code w.db)
            (item_added (item_of code name w.db) code name quantity remarks w)
            w
  unfolding add_item_on_tables
  add_item_tables quantity remarks =
      guarded-eq effector code _ w unlocked
      ∙ ap (λ d. unless_locked_out (list_refusal effector code w.db) d w)
          (added_or_increased code name w unlocked quantity remarks)

  remove_item_tables :
      remove_item_on_tables effector code name w
      ≡ unless_locked_out
          (list_refusal effector code w.db)
          (item_removed (item_of code name w.db) code name w)
          w
  unfolding remove_item_on_tables
  remove_item_tables =
      guarded-eq effector code _ w unlocked
      ∙ ap (λ d. unless_locked_out (list_refusal effector code w.db) d w)
          (removed_or_missing code name w unlocked)

module _ {H : Type 0} {exec : Engine H} {view : H → Tables} (law : Implements exec view) where
  -- Adding an item: with the mutex free and arguments that are spelled as literals, the call throws
  -- and changes nothing when the effector is no member or may only read. Otherwise an item that is
  -- not on the list is added as it is, and one that is there has its quantity increased. If `stoi`
  -- refuses one of the two quantities then, nothing changes but that the mutex stays locked.
  pub add_item_outcome :
      (effector code name quantity remarks : Text) (w : World H)
      → IsQuotable effector
      → IsNumeral code
      → IsQuotable name
      → IsNumeral quantity
      → IsQuotable remarks
      → w.lists_mtx ≡ free
      → lift_abs view (add_item exec effector code name quantity remarks w)
        ≡ unless_locked_out
            (list_refusal effector code (view w.db))
            (item_added (item_of code name (view w.db)) code name quantity remarks (abs view w))
            (abs view w)
  add_item_outcome effector code name quantity remarks w user numeral clean number notes unlocked =
      (add_item-Refines law effector code name user numeral clean quantity remarks number notes).at
        w
      ∙ add_item_tables effector code name (abs view w) unlocked quantity remarks

  -- Removing an item: with the mutex free and arguments that are spelled as literals, the call
  -- throws and changes nothing when the effector is no member or may only read, or when the item is
  -- not on the list; otherwise the item is gone. In each case the mutex is free again.
  pub remove_item_outcome :
      (effector code name : Text) (w : World H)
      → IsQuotable effector
      → IsNumeral code
      → IsQuotable name
      → w.lists_mtx ≡ free
      → lift_abs view (remove_item exec effector code name w)
        ≡ unless_locked_out
            (list_refusal effector code (view w.db))
            (item_removed (item_of code name (view w.db)) code name (abs view w))
            (abs view w)
  remove_item_outcome effector code name w user numeral clean unlocked =
      (remove_item-Refines law effector code name user numeral clean).at w
      ∙ remove_item_tables effector code name (abs view w) unlocked
