-- ===== src/Manager/Literals.antt =====
-- Tables whose texts are all spelled as the literals that they seem to be.
use server_ilist.Prelude.{
  ◌≡◌, subst, Bool, Bool-cases, inl, inr, Option, none, some, List, [], ◌∷◌, ◌++◌, select, All, ℤ,
}
use server_ilist.Text.{Text}
use server_ilist.Exception.{Exception}
use server_ilist.World.{World}
use server_ilist.Sqlite.Schema.{
  has_code, Tables, Member, Group, Item, in_group, is_member, update, find,
}
use server_ilist.Sqlite.Language.{member_row, item_row}
use server_ilist.Sqlite.Spelled.{IsQuotable}
use server_ilist.Groups.Members.{unless_refused, without_member, with_status}
use server_ilist.Groups.Invite.{invited, with_member}
use server_ilist.Manager.Telling.{AreQuotable}

abbrev pub HasLiterals : Member → Type 0
HasLiterals m = All IsQuotable (member_row m)

pub record AreLiterals (t : Tables) : Type 0 where
  pub names : All (λ (g : Group). IsQuotable g.name) t.groups
  pub members : All HasLiterals t.members
  pub items : All (λ (i : Item). All IsQuotable (item_row i)) t.items

pub All-select :
    {A : Type 0} (P : A → Type 0) (p : A → Bool) (xs : List A) → All P xs → All P (select p xs)
All-select P p [] h = tt
All-select P p (x ∷ xs) (k, h) = elim (Bool-cases (p x)) [
  | inl e ↦ rw e (k, All-select P p xs h)
  | inr e ↦ rw e (All-select P p xs h)
]

pub All-append :
    {A : Type 0} (P : A → Type 0) (xs : List A) (x : A) → All P xs → P x → All P (xs ++ x ∷ [])
All-append P [] x h k = (k, tt)
All-append P (y ∷ xs) x (j, h) k = (j, All-append P xs x h k)

pub All-find :
    {A : Type 0} (P : A → Type 0) (p : A → Bool) (xs : List A) (x : A)
    → find p xs ≡ some x
    → All P xs
    → P x
unfolding find
All-find P p [] x e h = absurd (cc e)
All-find P p (y ∷ xs) x e (k, h) = elim (Bool-cases (p y)) [
  | inl t ↦
      let found : some y ≡ some x = rw t at e in let same : y ≡ x = cc found in subst P (same) k
  | inr f ↦ All-find P p xs x (let rest : find p xs ≡ some x = rw f at e in rest) h
]

pub HasLiterals-update :
    (p : Member → Bool) (status : Text) (ms : List Member)
    → IsQuotable status
    → All HasLiterals ms
    → All HasLiterals (update p (λ m. record m { status = status }) ms)
unfolding update
HasLiterals-update p status [] q h = tt
HasLiterals-update p status (m ∷ ms) q ((c, (u, (s, e))), h) = elim (Bool-cases (p m)) [
  | inl t ↦ rw t ((c, (u, (q, tt))), HasLiterals-update p status ms q h)
  | inr f ↦ rw f ((c, (u, (s, tt))), HasLiterals-update p status ms q h)
]

pub AreQuotable-HasLiterals : (ms : List Member) → All HasLiterals ms → AreQuotable ms
AreQuotable-HasLiterals [] h = tt
AreQuotable-HasLiterals (m ∷ ms) ((c, (u, s)), h) = (u, AreQuotable-HasLiterals ms h)

pub AreQuotable-in :
    (code : Text) (ms : List Member) → All HasLiterals ms → AreQuotable (select (in_group code) ms)
AreQuotable-in code ms h =
    AreQuotable-HasLiterals (select (in_group code) ms)
      (All-select HasLiterals (in_group code) ms h)

-- The members after a call that was refused, and after one that was not.
pub HasLiterals-unless_refused :
    (o : Option Exception) (change : Tables → Tables) (w : World Tables)
    → All HasLiterals (change w.db).members
    → All HasLiterals w.db.members
    → All HasLiterals (unless_refused o change w).1.db.members
HasLiterals-unless_refused (some e) change w k h = h
HasLiterals-unless_refused none change w k h = k

pub HasLiterals-invited :
    (o : Option Exception) (misused : Bool) (change : Tables → Tables) (w : World Tables)
    → All HasLiterals (change w.db).members
    → All HasLiterals w.db.members
    → All HasLiterals (invited o misused change w).1.db.members
HasLiterals-invited (some e) misused change w k h = h
HasLiterals-invited none misused change w k h = k

module _ (code username : Text) (t : Tables) (h : All HasLiterals t.members) where
  pub HasLiterals-with_status :
      (status : Text)
      → IsQuotable status
      → All HasLiterals (with_status code username status t).members
  unfolding with_status
  HasLiterals-with_status status q =
      HasLiterals-update (is_member code username) status t.members q h

  pub HasLiterals-without_member :
      (n : ℤ) → All HasLiterals (without_member code username n t).members
  unfolding without_member
  HasLiterals-without_member n = All-select HasLiterals _ t.members h

  pub HasLiterals-with_member :
      (status : Text) (n : ℤ)
      → IsQuotable code
      → IsQuotable username
      → IsQuotable status
      → All HasLiterals (with_member code username status n t).members
  unfolding with_member
  HasLiterals-with_member status n c u s = All-append HasLiterals t.members _ h (c, (u, (s, tt)))

pub names-update :
    (code n : Text) (gs : List Group)
    → All (λ (g : Group). IsQuotable g.name) gs
    → All
        (λ (g : Group). IsQuotable g.name)
        (update (has_code code) (λ g. record g { number_of_users = n }) gs)
unfolding update
names-update code n [] h = tt
names-update code n (g ∷ gs) (k, h) = elim (Bool-cases (has_code code g)) [
  | inl e ↦ rw e (k, names-update code n gs h)
  | inr e ↦ rw e (k, names-update code n gs h)
]
