-- ===== src/Manager/Requests.antt =====
-- What a client may ask of a list (the cases LST_ADD_ITEM, LST_REMOVE_ITEM and LST_SET_ITEM of
-- ServerIList/Manager.cpp), and what becomes of it on the tables.
use server_ilist.Prelude.{
  Bool, true, false, ℤ, if◌then◌else◌, Option, ℕ, ◌≡◌, Option, refl, false, none, some, List, [],
  ◌∷◌, arith,
}
use server_ilist.Text.{Text, text_eq}
use server_ilist.Exception.{Exception, Outcome}
use server_ilist.Action.{Action}
use server_ilist.Config.{lst_remove_item, lst_scc_remove_item}
use server_ilist.World.{World, Message}
use server_ilist.Map.{socket_key}
use server_ilist.Database.{Engine}
use server_ilist.Sqlite.Schema.{is_item, find, Tables, Member, Item}
use server_ilist.Sqlite.Spelled.{IsNumeral}
use server_ilist.Lists
use server_ilist.Lists.Lookups.{item_of}
use server_ilist.Lists.Guard.{list_refusal, unless_locked_out}
use server_ilist.Lists.Items.{item_removed}
use server_ilist.Manager.{make_receive}
use server_ilist.Config.{lst_add_item, lst_set_item, lst_scc_add_item, lst_scc_set_item}
use server_ilist.Lists.{is_number}
use server_ilist.Lists.Items.{item_added, increased}
use server_ilist.Lists.Change.{item_changed}
use server_ilist.Sqlite.Effect.{change_item}

-- What a client asks for, with the arguments in the order of the message.
pub data Request : Type 0 where
  adding : Text → Text → Text → Text → Request
  removing : Text → Text → Request
  changing : Text → Text → Text → Text → Text → Request

abbrev pub args_of : Request → List Text
args_of (adding code item quantity remarks) = code ∷ item ∷ quantity ∷ remarks ∷ []
args_of (removing code item) = code ∷ item ∷ []
args_of (changing code key name quantity remarks) = code ∷ key ∷ name ∷ quantity ∷ remarks ∷ []

abbrev pub group_of : Request → Text
group_of (adding code item quantity remarks) = code
group_of (removing code item) = code
group_of (changing code key name quantity remarks) = code

abbrev pub request_code : Request → ℕ
request_code (adding code item quantity remarks) = lst_add_item
request_code (removing code item) = lst_remove_item
request_code (changing code key name quantity remarks) = lst_set_item

abbrev pub notice_code : Request → ℕ
notice_code (adding code item quantity remarks) = lst_scc_add_item
notice_code (removing code item) = lst_scc_remove_item
notice_code (changing code key name quantity remarks) = lst_scc_set_item

-- The message of the client, and what the members get.
abbrev pub request : ℕ → Request → Message
request sock r = record { message = make_receive (request_code r) (args_of r); socket = sock }

abbrev pub notice : Request → Text
notice r = make_receive (notice_code r) (args_of r)

-- What is asked for on the tables, for one who may ask for it.
abbrev pub granted : Request → World Tables → Outcome Unit × World Tables
granted (adding code item quantity remarks) w =
    item_added (item_of code item w.db) code item quantity remarks w
granted (removing code item) w = item_removed (item_of code item w.db) code item w
granted (changing code key name quantity remarks) w =
    item_changed (item_of code key w.db) name quantity remarks
      (change_item name quantity remarks code key) w

abbrev pub answered : Text → Request → World Tables → Outcome Unit × World Tables
answered effector r w = unless_locked_out (list_refusal effector (group_of r) w.db) (granted r w) w

-- The quantities are numerals where they are put into a query.
abbrev pub HasNumerals : Request → Type 0
HasNumerals (adding code item quantity remarks) = IsNumeral code × IsNumeral quantity
HasNumerals (removing code item) = IsNumeral code × Unit {0}
HasNumerals (changing code key name quantity remarks) =
    IsNumeral code × (is_number quantity ≡ true → IsNumeral quantity)

abbrev pub call : {H : Type 0} → Engine H → Text → Request → Action (World H) Unit
call exec effector (adding code item quantity remarks) =
    Lists.add_item exec effector code item quantity remarks
call exec effector (removing code item) = Lists.remove_item exec effector code item
call exec effector (changing code key name quantity remarks) =
    Lists.update_item exec effector code key name quantity remarks

abbrev pub HasMembers : List Member → Tables → Type 0
HasMembers ms t = t.members ≡ ms

-- The two ends of an UPDATE of a key.
pub changed-HasMembers :
    (taken here : Option Item) (same : Bool) (changed t : Tables)
    → HasMembers t.members changed
    → HasMembers t.members (elim taken [
      | none ↦ changed
      | some i ↦ if same then changed else elim here [ none ↦ changed | some j ↦ t ]
    ])
changed-HasMembers none here same changed t e = e
changed-HasMembers (some i) here true changed t e = e
changed-HasMembers (some i) none false changed t e = e
changed-HasMembers (some i) (some j) false changed t e = refl

pub change_item-members :
    (name quantity remarks code key : Text) (t : Tables)
    → (change_item name quantity remarks code key t).members ≡ t.members
change_item-members name quantity remarks code key t =
    changed-HasMembers (find (is_item code name) t.items) (find (is_item code key) t.items)
      (text_eq key name) _ t refl

pub increased-members :
    (old inc : Option ℤ) (code item : Text) (w : World Tables)
    → (increased old inc code item w).1.db.members ≡ w.db.members
increased-members none inc code item w = refl
increased-members (some o) none code item w = refl
increased-members (some o) (some i) code item w = refl

pub item_added-members :
    (found : Option Item) (code item quantity remarks : Text) (w : World Tables)
    → (item_added found code item quantity remarks w).1.db.members ≡ w.db.members
item_added-members none code item quantity remarks w = refl
item_added-members (some j) code item quantity remarks w = increased-members _ _ code item w

pub item_removed-members :
    (found : Option Item) (code item : Text) (w : World Tables)
    → (item_removed found code item w).1.db.members ≡ w.db.members
item_removed-members none code item w = refl
item_removed-members (some j) code item w = refl

pub item_changed-members :
    (found : Option Item) (name quantity remarks : Text) (change : Tables → Tables)
    (w : World Tables)
    → (change w.db).members ≡ w.db.members
    → (item_changed found name quantity remarks change w).1.db.members ≡ w.db.members
item_changed-members none name quantity remarks change w e = refl
item_changed-members (some j) name quantity remarks change w e = ground (arith, e)

-- A change of a list leaves the members as they are.
pub granted-members : (r : Request) (w : World Tables) → (granted r w).1.db.members ≡ w.db.members
granted-members (adding code item quantity remarks) w =
    item_added-members _ code item quantity remarks w
granted-members (removing code item) w = item_removed-members _ code item w
granted-members (changing code key name quantity remarks) w =
    item_changed-members _ name quantity remarks _ w
      (change_item-members name quantity remarks code key w.db)

pub answered-members :
    (effector : Text) (r : Request) (w : World Tables)
    → (answered effector r w).1.db.members ≡ w.db.members
answered-members effector r w =
    unless-members (list_refusal effector (group_of r) w.db) (granted r w) w (granted-members r w)
  where
    unless-members :
        (refusal : Option Exception) (done : Outcome Unit × World Tables) (w : World Tables)
        → done.1.db.members ≡ w.db.members
        → (unless_locked_out refusal done w).1.db.members ≡ w.db.members
    unless-members none done w e = e
    unless-members (some x) done w e = refl
