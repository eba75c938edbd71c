-- ===== src/Manager/Telling.antt =====
-- What the handlers of ServerIList/Manager.cpp do after a call that succeeded: every member of the
-- group gets a message.
use mathlib.Core.List.{Permᴰ}
use server_ilist.Prelude.{
  ap, ℕ, ◌≡◌, refl, false, List, [], ◌∷◌, ◌++◌, select, ◌∙◌, arith, All, ◌==◌,
}
use server_ilist.Text.{Text, lit, has_char}
use server_ilist.Text.Number.{to_string, nat_to_string, is_digit}
use server_ilist.Text.Number.RoundTrip.{has_char-nat_to_string}
use server_ilist.Exception.{Outcome, ok, fails}
use server_ilist.Action.{Action, after, ◌>>=◌}
use server_ilist.World.{World}
use server_ilist.Map.{socket_key}
use server_ilist.Database.{Engine}
use server_ilist.Parser.Spelling.{has_char-append, has_char-join_args}
use server_ilist.Sqlite.{Implements}
use server_ilist.Sqlite.Schema.{Tables, Member, in_group}
use server_ilist.Sqlite.Language.{answer, sql, select_members}
use server_ilist.Sqlite.Arranged.{select-Permᴰ, All-Permᴰ}
use server_ilist.Sqlite.Spelled.{IsQuotable, IsNumeral}
use server_ilist.Sqlite.Refines.{abs, lift_abs, asked, query-lists, abs-listed}
use server_ilist.Groups.{get_all_users_in_group}
use server_ilist.Manager.{make_receive, join_args, send_to_all}
use server_ilist.Manager.Delivery.{deliver_all, send_to_all-deliver_all}

has_char-make_receive :
    (c code : ℕ) (args : List Text)
    → is_digit c ≡ false
    → (64 == c) ≡ false
    → (124 == c) ≡ false
    → All (λ t. has_char c t ≡ false) args
    → has_char c (make_receive code args) ≡ false
unfolding make_receive has_char lit to_string
has_char-make_receive c code args digit at bar h = ground (
  arith,
  has_char-append c ((64 ∷ (nat_to_string code ++ 124 ∷ []))) (join_args args ++ 124 ∷ []),
  has_char-append c (nat_to_string code) (124 ∷ []),
  has_char-nat_to_string c code digit,
  has_char-join_args c bar args h,
)

All-has_char :
    (args : List Text)
    → All IsQuotable args
    → All (λ t. has_char b'\'' t ≡ false) args × All (λ t. has_char 0 t ≡ false) args
All-has_char [] h = (tt, tt)
All-has_char (a ∷ args) ((q, z), h) = let (qs, zs) = All-has_char args h in ((q, qs), (z, zs))

-- A message of literals is a literal.
pub make_receive-IsQuotable :
    (code : ℕ) (args : List Text) → All IsQuotable args → IsQuotable (make_receive code args)
make_receive-IsQuotable code args h =
    let (qs, zs) = All-has_char args h in
    (
      has_char-make_receive b'\'' code args refl refl refl qs,
      has_char-make_receive 0 code args refl refl refl zs,
    )

abbrev pub AreQuotable : List Member → Type 0
AreQuotable ms = All (λ (m : Member). IsQuotable m.username) ms

-- Members get a message, one after another.
abbrev pub tell : List Member → Text → World Tables → Outcome Unit × World Tables
tell ms message w = (ok tt, deliver_all message ms w)

-- What follows a call that succeeds.
abbrev pub then_tell :
    List Member → Text → Outcome Unit × World Tables → Outcome Unit × World Tables
then_tell ms message r = after r.0 (λ u. tell ms message) r.1

abbrev pub telling : {H : Type 0} → Engine H → Text → Text → Action (World H) Unit
telling exec code message = do
  data_ ← get_all_users_in_group exec code
  send_to_all exec data_ message

module _ {H : Type 0} {exec : Engine H} {view : H → Tables} (law : Implements exec view)
    (code : Text) where
  -- The members of the group, in the order in which the library lists them.
  abbrev pub members_listed : World H → List Member
  members_listed w = select (in_group code) (law.arranged (select_members code) w.db).members

  pub members_listed-Permᴰ :
      (w : World H) (ms : List Member)
      → (view w.db).members ≡ ms
      → Permᴰ (members_listed w) (select (in_group code) ms)
  members_listed-Permᴰ w ms e =
      rw⁻¹ e (select-Permᴰ (in_group code) (law.rearranged (select_members code) w.db).members)

  pub AreQuotable-listed :
      (w : World H)
      → AreQuotable (select (in_group code) (view w.db).members)
      → AreQuotable (members_listed w)
  AreQuotable-listed w h = All-Permᴰ _ (members_listed-Permᴰ w (view w.db).members refl) h

  module _ (message : Text) (numeral : IsNumeral code) (literal : IsQuotable message) where
    telling-tell :
        (w : World H)
        → AreQuotable (select (in_group code) (view w.db).members)
        → lift_abs view (telling exec code message w) ≡ tell (members_listed w) message (abs view w)
    unfolding ◌>>=◌ get_all_users_in_group answer sql
    telling-tell w clean =
        let ms = members_listed w in
        let st = select_members code in
        rw (query-lists law st w numeral) (
          send_to_all-deliver_all law message literal ms (asked law st w)
            (AreQuotable-listed w clean)
          ∙ ap (λ x. (ok tt, deliver_all message ms x)) (abs-listed law st w numeral))

    pub followed :
        (m : Action (World H) Unit) (w : World H)
        → AreQuotable (select (in_group code) (view (m w).1.db).members)
        → lift_abs view ((m >>= λ _. telling exec code message) w)
          ≡ then_tell (members_listed (m w).1) message (lift_abs view (m w))
    unfolding ◌>>=◌
    followed m w clean = told (m w).0 (m w).1 clean
      where
        told :
            (o : Outcome Unit) (w' : World H)
            → AreQuotable (select (in_group code) (view w'.db).members)
            → lift_abs view (after o (λ _. telling exec code message) w')
              ≡ then_tell (members_listed w') message (lift_abs view (o, w'))
        told (ok u) w' clean = telling-tell w' clean
        told (fails f) w' clean = refl
