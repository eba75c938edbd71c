-- ===== src/Lists/Jam.antt =====
-- A list call that throws with `mtx` locked (ServerIList/PublicLists.cpp), and the calls after it.
use server_ilist.Prelude.{◌≡◌, refl, true, none, some, Option-cases, inl, inr, ap, ◌∙◌}
use server_ilist.Text.{Text}
use server_ilist.Text.Number.{stoi}
use server_ilist.Exception.{fails, standard, deadlock}
use server_ilist.Action.{◌>>=◌}
use server_ilist.World.{World}
use server_ilist.Database.{Engine}
use server_ilist.Database.Mutex.{free, lock_lists}
use server_ilist.Sqlite.{Implements}
use server_ilist.Sqlite.Schema.{Tables, Item}
use server_ilist.Sqlite.Spelled.{IsQuotable, IsNumeral}
use server_ilist.Sqlite.Refines.{abs}
use server_ilist.Lists.{add_item, remove_item, update_item}
use server_ilist.Lists.Lookups.{item_of}
use server_ilist.Lists.Guard.{list_refusal, unless_locked_out, stuck}
use server_ilist.Lists.Items.{item_added, add_item_outcome}

module _ {H : Type 0} (exec : Engine H) (w : World H) (h : w.lists_mtx.held ≡ true) where
  add_item-held : (e c n q r : Text) → add_item exec e c n q r w ≡ (fails deadlock, w)
  unfolding add_item ◌>>=◌ lock_lists
  add_item-held e c n q r = rw h refl

  remove_item-held : (e c n : Text) → remove_item exec e c n w ≡ (fails deadlock, w)
  unfolding remove_item ◌>>=◌ lock_lists
  remove_item-held e c n = rw h refl

  update_item-held : (e c k n q r : Text) → update_item exec e c k n q r w ≡ (fails deadlock, w)
  unfolding update_item ◌>>=◌ lock_lists
  update_item-held e c k n q r = rw h refl

module _ (effector code name quantity remarks : Text) (w : World Tables) (j : Item) where
  jammed :
      list_refusal effector code w.db ≡ none
      → item_of code name w.db ≡ some j
      → stoi quantity ≡ none
      → unless_locked_out
          (list_refusal effector code w.db)
          (item_added (item_of code name w.db) code name quantity remarks w)
          w
        ≡ (fails standard, stuck w)
  jammed allowed known huge =
      rw (allowed, known)
        (elim (Option-cases (stoi j.quantity)) [
          | inl bad ↦ rw bad refl
          | inr (old, f) ↦ rw (f, huge) refl
        ])

module _ {H : Type 0} {exec : Engine H} {view : H → Tables} (law : Implements exec view) where
  -- One message can stop all lists: with the mutex free and arguments that are spelled as literals,
  -- a member with the right to write who adds to an item of the list a quantity too large for an
  -- int gets an error, and after that every call that adds, removes or changes an item, of any
  -- list, waits for ever.
  pub add_item_jams :
      (effector code name quantity remarks : Text) (w : World H) (j : Item)
      → IsQuotable effector
      → IsNumeral code
      → IsQuotable name
      → IsNumeral quantity
      → IsQuotable remarks
      → w.lists_mtx ≡ free
      → list_refusal effector code (view w.db) ≡ none
      → item_of code name (view w.db) ≡ some j
      → stoi quantity ≡ none
      → ((add_item exec effector code name quantity remarks w).0 ≡ fails standard)
        × ((e c n q r : Text)
            → (add_item exec e c n q r (add_item exec effector code name quantity remarks w).1).0
              ≡ fails deadlock)
        × ((e c n : Text)
            → (remove_item exec e c n (add_item exec effector code name quantity remarks w).1).0
              ≡ fails deadlock)
        × ((e c k n q r : Text)
            → (update_item exec e c k n q r
                (add_item exec effector code name quantity remarks w).1).0
              ≡ fails deadlock)
  add_item_jams effector code name quantity remarks w j user numeral clean number notes unlocked
        allowed known huge =
      let e =
        add_item_outcome law effector code name quantity remarks w user numeral clean number notes
          unlocked
        ∙ jammed effector code name quantity remarks (abs view w) j allowed known huge in
      let h = ap (λ p. p.1.lists_mtx.held) e in
      (
        ap (λ p. p.0) e,
        λ e c n q r. ap (λ p. p.0) (add_item-held exec _ h e c n q r),
        λ e c n. ap (λ p. p.0) (remove_item-held exec _ h e c n),
        λ e c k n q r. ap (λ p. p.0) (update_item-held exec _ h e c k n q r),
      )
