-- ===== src/Sqlite/Schema.antt =====
-- The rows of the tables in ServerIList/Database.h, and selection from them.
pub mod Find
use server_ilist.Prelude.{
  ℕ, suc, Bool, true, false, ◌&&◌, List, [], ◌∷◌, ◌++◌, Option, none, some, ltb, if◌then◌else◌,
}
use server_ilist.Text.{Text, text_eq}
use server_ilist.Text.Number.{nat_to_string}

-- `Users`
pub record Account : Type 0 where
  pub username : Text
  pub password : Text

-- `PublicGroups`; the code is the rowid.
pub record Group : Type 0 where
  pub code : ℕ
  pub name : Text
  pub admin : Text
  pub creation_date : Text
  pub number_of_users : Text

-- `Users_In_Groups`
pub record Member : Type 0 where
  pub group_code : Text
  pub username : Text
  pub status : Text

-- `Lists`
pub record Item : Type 0 where
  pub group_code : Text
  pub item_name : Text
  pub quantity : Text
  pub remarks : Text

-- `UsersPackets`
pub record Packet : Type 0 where
  pub username : Text
  pub message : Text

-- `next_code` is what AUTOINCREMENT gives the next group: above every code ever given.
pub record Tables : Type 0 where
  pub users : List Account
  pub groups : List Group
  pub members : List Member
  pub items : List Item
  pub packets : List Packet
  pub next_code : ℕ

-- The conditions after WHERE.
abbrev pub has_code : Text → Group → Bool
has_code code g = text_eq (nat_to_string g.code) code

abbrev pub in_group : Text → Member → Bool
in_group code m = text_eq m.group_code code

abbrev pub is_member : Text → Text → Member → Bool
is_member code username m = text_eq m.group_code code && text_eq m.username username

abbrev pub of_user : Text → Member → Bool
of_user username m = text_eq m.username username

abbrev pub listed_in : Text → Item → Bool
listed_in code i = text_eq i.group_code code

abbrev pub is_item : Text → Text → Item → Bool
is_item code item_name i = text_eq i.group_code code && text_eq i.item_name item_name

abbrev pub is_account : Text → Account → Bool
is_account username a = text_eq a.username username

abbrev pub for_user : Text → Packet → Bool
for_user username p = text_eq p.username username

-- UPDATE: the rows that pass the test are changed.
unfoldable pub update {ℓ} : {A : Type ℓ} → (A → Bool) → (A → A) → List A → List A
update p f [] = []
update p f (x ∷ xs) = (if p x then f x else x) ∷ update p f xs

-- The row that a SELECT gives first.
unfoldable pub find {ℓ} : {A : Type ℓ} → (A → Bool) → List A → Option A
find p [] = none
find p (x ∷ xs) = if p x then some x else find p xs

abbrev later : Group → Option Group → Option Group
later g none = some g
later g (some h) = if ltb g.code h.code then some h else some g

-- `ORDER BY code DESC LIMIT 1`
unfoldable pub newest : List Group → Option Group
newest [] = none
newest (g ∷ gs) = later g (newest gs)
