-- ===== src/Manager/Joining.antt =====
-- A member who was added, and the tables then (the first half of the case GR_INVITE_USER of
-- ServerIList/Manager.cpp), and the whole case.
use mathlib.Core.List.{Permᴰ}
use mathlib.Core.List.Permᴰ
use server_ilist.Prelude.{
  pos, ◌+ℤ◌, List, select, ℕ, ◌≡◌, refl, ap, sym, subst, ◌∙◌, Bool, Option-cases, Option, inl, inr,
  none, some, [], ◌∷◌, ℤ,
}
use server_ilist.Text.{Text}
use server_ilist.Text.Number.{to_string, wrap_int}
use server_ilist.Exception.{Outcome, ok, fails, thrown, Exception}
use server_ilist.Action.{◌>>=◌}
use server_ilist.World.{World}
use server_ilist.Database.{Engine}
use server_ilist.Sqlite.{Implements}
use server_ilist.Sqlite.Schema.{Tables, Member, Group, Item, listed_in}
use server_ilist.Sqlite.Spelled.{IsQuotable, IsNumeral}
use server_ilist.Sqlite.Refines.{abs, lift_abs}
use server_ilist.Sqlite.Follows.{same-bind-there}
use server_ilist.Groups.{add_user}
use server_ilist.Groups.Lookups.{group_of, member_of}
use server_ilist.Groups.Counting.{count_of, find-update}
use server_ilist.Groups.Invite.{answer_to, grants_nothing, invited, with_member}
use server_ilist.Groups.Refinement.{add_user-Refines}
use server_ilist.History.Books.{IsConsistent, member_of-absent}
use server_ilist.History.Outcomes.{add_user_consistent}
use server_ilist.Manager.Handlers.{on_invite_user}
use server_ilist.Manager.Literals.{names-update, AreLiterals, HasLiterals-with_member}
use server_ilist.Manager.Cases.{is_exist_first, acquainted, abs-acquainted}
use server_ilist.Manager.Obeying.{IsSound}
use server_ilist.Manager.Inviting.{
  welcoming, welcoming-welcomed, members_met, members_met-Permᴰ, items_met, items_met-Permᴰ,
}
use server_ilist.Manager.Orders.{added, then_welcome, welcomed, IsObeyed, inviting}

AreLiterals-with_member :
    (code username status : Text) (n : ℤ) (t : Tables)
    → IsQuotable code
    → IsQuotable username
    → IsQuotable status
    → AreLiterals t
    → AreLiterals (with_member code username status n t)
unfolding with_member
AreLiterals-with_member code username status n t c u s h = record {
  names = names-update code (to_string n) t.groups h.names;
  members = HasLiterals-with_member code username t h.members status n c u s;
  items = h.items;
}

-- A call that succeeds was not refused.
invited-ok :
    (o : Option Exception) (misused : Bool) (change : Tables → Tables) (w x : World Tables)
    → invited o misused change w ≡ (ok tt, x)
    → (o ≡ none) × (x.db ≡ change w.db)
invited-ok (some e) misused change w x h = absurd (failed (ap (λ p. p.0) h))
  where
    failed : fails (thrown e) ≡ ok (tt {0}) → ⊥
    failed e = cc e
invited-ok none misused change w x h = (refl, sym (ap (λ p. p.1.db) h))

-- Nobody is added by a stranger.
stranger-refused :
    (a : Option Member) (i : ℤ) (target : Option Member) (powerless : Bool)
    → a ≡ none
    → answer_to a i target powerless ≡ none
    → ⊥
stranger-refused none i target powerless e h = cc h
stranger-refused (some m) i target powerless e h = cc e

module _ (effector code username status : Text) (w x : World Tables) where
  joined-group :
      IsConsistent w.db
      → added effector code username status w ≡ (ok tt, x)
      → (g : Group) × (group_of code x.db ≡ some g)
  unfolding with_member
  joined-group books e =
      let (accepted, grown) = invited-ok _ _ _ w x e in
      elim (Option-cases (group_of code w.db)) [
        | inl absent ↦
            let stranger = member_of-absent code effector w.db absent books.rooted in
            absurd (stranger-refused _ _ _ _ stranger accepted)
        | inr (g, here) ↦ (_, ap (group_of code) grown ∙ find-update code _ w.db.groups g here)
      ]

  joined-AreLiterals :
      IsQuotable code
      → IsQuotable username
      → IsQuotable status
      → AreLiterals w.db
      → added effector code username status w ≡ (ok tt, x)
      → AreLiterals x.db
  joined-AreLiterals c u s h e =
      let (accepted, grown) = invited-ok _ _ _ w x e in
      subst AreLiterals (sym grown) (AreLiterals-with_member code username status _ w.db c u s h)

module _ {H : Type 0} {exec : Engine H} {view : H → Tables} (law : Implements exec view)
    (effector code username status : Text) (user : IsQuotable effector) (numeral : IsNumeral code)
    (clean : IsQuotable code) (name : IsQuotable username) (rights : IsQuotable status) where
  added-eq :
      (v : World H)
      → IsSound (abs view v)
      → lift_abs view (add_user exec effector code username status v)
        ≡ added effector code username status (abs view v)
  added-eq v h =
      (add_user-Refines law effector code username status user numeral name rights).at v
      ∙ add_user_consistent effector code username (abs view v) h.unlocked h.ready.consistent status

  -- The members and the items, as the library lists them after the new member was added.
  abbrev newcomers : World H → List Member
  newcomers v =
      members_met law code username numeral clean name
        (add_user exec effector code username status v).1

  -- A group that is there no more shows no items.
  abbrev offered : Option Group → World H → List Item
  offered none v = select (listed_in code) (view v.db).items
  offered (some g) v = items_met law code username numeral clean name status g v

  welcomed_there :
      (ms : List Member) (is : List Item) (g : Group) (x : World Tables)
      → group_of code x.db ≡ some g
      → ◌≡◌ {A = Outcome Unit × World Tables}
          (ok tt, welcomed ms is code username status g x)
          (elim (group_of code x.db) [
            | none ↦ (ok tt, x)
            | some g ↦ (ok tt, welcomed ms is code username status g x)
          ])
  welcomed_there ms is g x here = rw here refl

  added_welcome :
      (v : World H)
      → IsSound (abs view v)
      → let v' = (add_user exec effector code username status v).1 in
        lift_abs view (
          (add_user exec effector code username status >>= λ _. welcoming exec code username status)
            v)
        ≡ then_welcome
            (newcomers v)
            (offered (group_of code (view v'.db)) v')
            code
            username
            status
            (added effector code username status (abs view v))
  unfolding ◌>>=◌
  added_welcome v h =
      let v' = (add_user exec effector code username status v).1 in
      let is = offered (group_of code (view v'.db)) v' in
      let e = added-eq v h in
      same-bind-there view (add_user exec effector code username status)
        (λ x. added effector code username status x) (λ _. welcoming exec code username status)
        (λ u x. elim (group_of code x.db) [
          | none ↦ (ok tt, x)
          | some g ↦ (ok tt, welcomed (newcomers v) is code username status g x)
        ])
        v e
        (λ u got.
          let (g, here) =
            joined-group effector code username status (abs view v) (abs view v') h.ready.consistent
              got in
          let literals =
            joined-AreLiterals effector code username status (abs view v) (abs view v') clean name
              rights h.literals got in
          let shown : is ≡ items_met law code username numeral clean name status g v' =
            rw here refl in
          welcoming-welcomed law code username numeral clean name status g v' rights here literals
          ∙ (ap (λ is. (ok tt, welcomed (newcomers v) is code username status g (abs view v')))
                (sym shown)
              ∙ welcomed_there (newcomers v) is g (abs view v') here))

  offered-Permᴰ :
      (v : World H)
      → AreLiterals (view v.db)
      → Permᴰ (offered (group_of code (view v.db)) v) (select (listed_in code) (view v.db).items)
  offered-Permᴰ v h = elim (Option-cases (group_of code (view v.db))) [
    | inl gone ↦ rw gone (Permᴰ.refl (select (listed_in code) (view v.db).items))
    | inr (g, here) ↦ rw here (
        items_met-Permᴰ law code username numeral clean name status g v rights here h
          (view v.db).items refl)
  ]

  added-AreLiterals :
      (x : World Tables)
      → AreLiterals x.db
      → AreLiterals (added effector code username status x).1.db
        × ((added effector code username status x).1.db.items ≡ x.db.items)
  unfolding with_member
  added-AreLiterals x h =
      let n = pos (count_of code x.db.members) in
      let answer =
        answer_to (member_of code effector x.db) n (member_of code username x.db)
          (grants_nothing status) in
      elim (Option-cases answer) [
        | inl accepted ↦ rw accepted (
          AreLiterals-with_member code username status (wrap_int (n +ℤ pos 1)) x.db clean name
              rights h,
          refl,
        )
        | inr (e, refused) ↦ rw refused (h, refl)
      ]

  pub invite-IsObeyed :
      (sock : ℕ) (w : World H)
      → IsSound (abs view w)
      → IsObeyed sock effector
          (inviting code username status)
          (abs view w)
          (lift_abs view (on_invite_user exec effector (code ∷ username ∷ status ∷ []) w))
  unfolding on_invite_user ◌>>=◌
  invite-IsObeyed sock w h =
      let v = acquainted law username name w in
      let same = abs-acquainted law username name w in
      let sound = subst IsSound (sym same) h in
      let m = add_user exec effector code username status in
      let v' = (m v).1 in
      let ms = newcomers v in
      let is = offered (group_of code (view v'.db)) v' in
      let e =
        ap (λ p. p.1.db) (added-eq v sound)
        ∙ ap (λ x. (added effector code username status x).1.db) same in
      let (literals, kept) = added-AreLiterals (abs view w) h.literals in
      record {
        told = ms;
        shown = is;
        told_all =
            members_met-Permᴰ law code username numeral clean name v' _ (ap (λ t. t.members) e);
        shown_all =
            subst (λ js. Permᴰ is (select (listed_in code) js)) (ap (λ t. t.items) e ∙ kept)
              (offered-Permᴰ v' (subst AreLiterals (sym e) literals));
        result =
            is_exist_first law username name (m >>= λ _. welcoming exec code username status)
              (λ x. then_welcome ms is code username status (added effector code username status x))
              w (added_welcome v sound);
      }
