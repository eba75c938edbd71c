-- ===== src/Lists/Collision.antt =====
-- Giving an item the name of another one (`updateItem` of ServerIList/PublicLists.cpp).
use server_ilist.Prelude.{
  ◌≡◌, refl, Bool, true, false, List, [], ◌∷◌, none, some, ◌∙◌, ℤ, pos, ltb_ℤ, arith,
}
use server_ilist.Text.{Text, text_eq, text_eq_iff}
use server_ilist.Text.Number.{stoi}
use server_ilist.Exception.{ok}
use server_ilist.World.{World}
use server_ilist.Database.{Engine}
use server_ilist.Database.Mutex.{free}
use server_ilist.Sqlite.{Implements}
use server_ilist.Sqlite.Schema.{Tables, Item, is_item, find}
use server_ilist.Sqlite.Spelled.{IsQuotable, IsNumeral}
use server_ilist.Sqlite.Refines.{abs, lift_abs}
use server_ilist.Lists
use server_ilist.Lists.{is_number}
use server_ilist.Lists.Lookups.{item_of}
use server_ilist.Lists.Guard.{list_refusal}
use server_ilist.Lists.Change.{update_item_outcome}

find-holds : {A : Type 0} (p : A → Bool) (xs : List A) (x : A) → find p xs ≡ some x → p x ≡ true
unfolding find
find-holds p [] x h = absurd (cc h)
find-holds p (y ∷ xs) x h = ground (arith, find-holds p xs x)

-- The item that was found does not have the new name yet.
name-differs :
    (code key name : Text) (t : Tables) (j : Item)
    → item_of code key t ≡ some j
    → text_eq key name ≡ false
    → text_eq j.item_name name ≡ false
name-differs code key name t j h differ = ground (
  arith,
  find-holds (is_item code key) t.items j h,
  text_eq_iff j.item_name key,
  text_eq_iff j.item_name name,
  text_eq_iff key name,
)

module _ {H : Type 0} {exec : Engine H} {view : H → Tables} (law : Implements exec view) where
  -- A change that gives an item the name of another one on the list, with the mutex free, arguments
  -- that are spelled as literals, a member who may write and a quantity that is a positive int in
  -- digits: the call succeeds and changes nothing, for the query fails on the primary key.
  pub update_item_collides :
      (effector code key name quantity remarks : Text) (w : World H) (i j : Item) (n : ℤ)
      → IsQuotable effector
      → IsNumeral code
      → IsQuotable key
      → IsQuotable name
      → IsNumeral quantity
      → IsQuotable remarks
      → w.lists_mtx ≡ free
      → list_refusal effector code (view w.db) ≡ none
      → item_of code key (view w.db) ≡ some j
      → item_of code name (view w.db) ≡ some i
      → text_eq key name ≡ false
      → is_number quantity ≡ true
      → stoi quantity ≡ some n
      → ltb_ℤ (pos 0) n ≡ true
      → lift_abs view (Lists.update_item exec effector code key name quantity remarks w)
        ≡ (ok tt, abs view w)
  unfolding find
  update_item_collides effector code key name quantity remarks w i j n user numeral clean named
        number notes unlocked allowed found taken differ digits amount more =
      update_item_outcome law effector code key name quantity remarks w user numeral clean named
        (λ d. number) notes unlocked
      ∙ rw
          (
            allowed,
            found,
            name-differs code key name (view w.db) j found differ,
            digits,
            amount,
            more,
            taken,
            differ,
            found,
          )
          refl
