-- ===== src/Lists/Change.antt =====
-- Changing an item (`updateItem` of ServerIList/PublicLists.cpp).
use server_ilist.Prelude.{
  ◌≡◌, refl, Bool, true, not, ◌&&◌, Bool-cases, Option-cases, inl, inr, Option, none, some, ap, ◌∙◌,
  ℤ, pos, ltb_ℤ, if◌then◌else◌,
}
use server_ilist.Text.{Text, text_eq}
use server_ilist.Text.Number.{stoi}
use server_ilist.Exception.{Outcome, ok, fails, thrown, standard, system}
use server_ilist.Action.{Action, ◌>>=◌, ◌>>◌, throw, when, subscript, or_fail}
use server_ilist.World.{World}
use server_ilist.Database.{Engine}
use server_ilist.Database.Mutex.{free, unlock_lists}
use server_ilist.Sqlite.{Implements}
use server_ilist.Sqlite.Schema.{Tables, Item, is_item}
use server_ilist.Sqlite.Schema.Find.{select-eq_cons_of_find}
use server_ilist.Sqlite.Language.{answer, select_item, update_item}
use server_ilist.Sqlite.Effect.{effect, change_item}
use server_ilist.Sqlite.Spelled.{IsQuotable, IsNumeral}
use server_ilist.Sqlite.Refines.{run, abs, lift_abs}
use server_ilist.Lists
use server_ilist.Lists.{is_number}
use server_ilist.Lists.Spec.{update_item_on_tables, has_item}
use server_ilist.Lists.Lookups.{item_of, has_item-none, has_item-some}
use server_ilist.Lists.Guard.{list_refusal, unless_locked_out, stuck, guarded-eq}
use server_ilist.Lists.Refinement.{update_item-Refines}

-- Is the row the one that it is to become?
abbrev is_same : Item → Text → Text → Text → Bool
is_same j name quantity remarks =
    text_eq j.item_name name && (text_eq j.quantity quantity && text_eq j.remarks remarks)

-- A quantity that is all digits and yet refused by `stoi` leaves the mutex locked.
abbrev amount_changed : Option ℤ → (Tables → Tables) → World Tables → Outcome Unit × World Tables
amount_changed none change w = (fails standard, stuck w)
amount_changed (some n) change w =
    if ltb_ℤ (pos 0) n then (ok tt, record w { db = change w.db }) else (fails (thrown system), w)

abbrev pub item_changed :
    Option Item
    → Text
    → Text
    → Text
    → (Tables → Tables)
    → World Tables
    → Outcome Unit × World Tables
item_changed none name quantity remarks change w = (fails (thrown system), w)
item_changed (some j) name quantity remarks change w =
    if is_same j name quantity remarks
    then (fails (thrown system), w)
    else if is_number quantity
    then amount_changed (stoi quantity) change w
    else (fails (thrown system), w)

module _ (code key name quantity remarks : Text) (w : World Tables)
    (unlocked : w.lists_mtx ≡ free) where
  abbrev rewritten : Tables → Tables
  rewritten = change_item name quantity remarks code key

  -- The call from the question for the item on.
  abbrev rest : Action (World Tables) Unit
  rest = do
    known ← has_item code key
    when (not known) (do unlock_lists; throw system)
    data_ ← run (select_item code key)
    row ← subscript data_ 0
    last_name ← subscript row 1
    last_quantity ← subscript row 2
    last_remarks ← subscript row 3
    when
        (text_eq last_name name && (text_eq last_quantity quantity && text_eq last_remarks remarks))
        (do unlock_lists; throw system)
    when (not (is_number quantity)) (do unlock_lists; throw system)
    amount ← or_fail standard (stoi quantity)
    when (not (ltb_ℤ (pos 0) amount)) (do unlock_lists; throw system)
    run (update_item name quantity remarks code key)
    unlock_lists

  rest-some :
      (j : Item)
      → item_of code key w.db ≡ some j
      → rest (stuck w) ≡ item_changed (some j) name quantity remarks rewritten w
  unfolding ◌>>=◌ unlock_lists run effect answer
  rest-some j h =
      let (others, e) = select-eq_cons_of_find (is_item code key) w.db.items j h in
      rw (has_item-some code key (stuck w) j h) (
        rw e (
          rw unlocked (elim (Bool-cases (is_same j name quantity remarks)) [
            | inl same ↦ rw same refl
            | inr apart ↦ rw apart (elim (Bool-cases (is_number quantity)) [
              | inr letters ↦ rw letters refl
              | inl digits ↦ rw digits (elim (Option-cases (stoi quantity)) [
                | inl bad ↦ rw bad refl
                | inr (n, f) ↦ rw f (elim (Bool-cases (ltb_ℤ (pos 0) n)) [
                  | inl more ↦ rw more refl
                  | inr less ↦ rw less refl
                ])
              ])
            ])
          ])))

  rest-eq : rest (stuck w) ≡ item_changed (item_of code key w.db) name quantity remarks rewritten w
  unfolding ◌>>=◌ unlock_lists
  rest-eq = elim (Option-cases (item_of code key w.db)) [
    | inl missing ↦ rw (missing, unlocked) (rw (has_item-none code key (stuck w) missing) refl)
    | inr (j, h) ↦ rw h (rest-some j h)
  ]

  update_item_tables :
      (effector : Text)
      → update_item_on_tables effector code key name quantity remarks w
        ≡ unless_locked_out
            (list_refusal effector code w.db)
            (item_changed (item_of code key w.db) name quantity remarks rewritten w)
            w
  unfolding update_item_on_tables
  update_item_tables effector =
      guarded-eq effector code rest w unlocked
      ∙ ap (λ d. unless_locked_out (list_refusal effector code w.db) d w) rest-eq

module _ {H : Type 0} {exec : Engine H} {view : H → Tables} (law : Implements exec view) where
  -- Changing an item: with the mutex free, arguments that are spelled as literals and a quantity
  -- that has no leading zeros when it is all digits, the call throws and changes nothing when the
  -- effector is no member or may only read, when the item is not on the list, when nothing would
  -- change, and when the quantity is not all digits or is zero. A quantity too large for an int
  -- changes nothing but leaves the mutex locked. Otherwise the call succeeds: the row has the new
  -- name, quantity and remarks, unless the new name differs from the old one and is that of another
  -- row of the list, when nothing changes all the same.
  pub update_item_outcome :
      (effector code key name quantity remarks : Text) (w : World H)
      → IsQuotable effector
      → IsNumeral code
      → IsQuotable key
      → IsQuotable name
      → (is_number quantity ≡ true → IsNumeral quantity)
      → IsQuotable remarks
      → w.lists_mtx ≡ free
      → lift_abs view (Lists.update_item exec effector code key name quantity remarks w)
        ≡ unless_locked_out
            (list_refusal effector code (view w.db))
            (item_changed
              (item_of code key (view w.db))
              name
              quantity
              remarks
              (change_item name quantity remarks code key)
              (abs view w))
            (abs view w)
  update_item_outcome effector code key name quantity remarks w user numeral clean named number
        notes unlocked =
      (update_item-Refines law effector code key user numeral clean name quantity remarks named
          number notes).at
        w
      ∙ update_item_tables code key name quantity remarks (abs view w) unlocked effector
