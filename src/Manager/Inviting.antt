-- ===== src/Manager/Inviting.antt =====
-- Inviting a user (the case GR_INVITE_USER of ServerIList/Manager.cpp), from the arguments to what
-- becomes of them on the tables.
use mathlib.Core.List.{Permᴰ}
use server_ilist.Prelude.{◌≡◌, refl, ap, ◌∙◌, some, List, [], ◌∷◌, map, select, All}
use server_ilist.Text.{Text}
use server_ilist.Exception.{ok}
use server_ilist.Action.{Action, ◌>>=◌, ◌>>◌}
use server_ilist.Config.{pgm_ctr_new_user}
use server_ilist.World.{World, Rows}
use server_ilist.Database.{Engine}
use server_ilist.Sqlite.{Implements}
use server_ilist.Sqlite.Schema.{Tables, Member, Item, Group, in_group, listed_in, has_code}
use server_ilist.Sqlite.Schema.Find.{select-eq_cons_of_find}
use server_ilist.Sqlite.Language.{
  sql, answer, select_name, select_members, select_items, member_row, item_row,
}
use server_ilist.Sqlite.Effect.{effect}
use server_ilist.Sqlite.Arranged.{select-Permᴰ, All-Permᴰ}
use server_ilist.Sqlite.Spelled.{IsQuotable, IsNumeral}
use server_ilist.Sqlite.Refines.{
  abs, lift_abs, asked, query-answer, view-asked, query-lists, abs-listed,
}
use server_ilist.Sqlite.Follows.{same-bind-here}
use server_ilist.Groups.{get_group_name, get_all_users_in_group}
use server_ilist.Groups.Lookups.{group_of}
use server_ilist.Lists.{get_all_items_in_group}
use server_ilist.Manager.{make_receive, send_to_all}
use server_ilist.Manager.Handlers.{send_members, send_items}
use server_ilist.Manager.Delivery.{deliver_all, send_to_all-deliver_all}
use server_ilist.Manager.Telling.{make_receive-IsQuotable, members_listed, members_listed-Permᴰ}
use server_ilist.Manager.Literals.{
  AreLiterals, HasLiterals, All-select, All-find, AreQuotable-HasLiterals,
}
use server_ilist.Manager.Welcome.{
  send_members-show, send_items-show, deliver_all-items, show_members-items,
}
use server_ilist.Manager.Orders.{show_members, show_items, welcomed}

-- The messages to the members and to the new one.
abbrev pub showing : {H : Type 0} → Engine H → Text → Text → Text → Rows → Action (World H) Unit
showing exec code username message rows = do
  send_to_all exec rows message
  send_members exec username rows
  items ← get_all_items_in_group exec code
  send_items exec username items

-- The rest of the case, after the member was added.
abbrev pub welcoming : {H : Type 0} → Engine H → Text → Text → Text → Action (World H) Unit
welcoming exec code username status = do
  name ← get_group_name exec code
  data_ ← get_all_users_in_group exec code
  showing exec code username (make_receive pgm_ctr_new_user (code ∷ name ∷ username ∷ status ∷ []))
      data_

module _ {H : Type 0} {exec : Engine H} {view : H → Tables} (law : Implements exec view)
    (code username : Text) (numeral : IsNumeral code) (clean : IsQuotable code)
    (name : IsQuotable username) where
  -- The items of the group, in the order in which the library lists them.
  abbrev pub items_listed : World H → List Item
  items_listed v = select (listed_in code) (law.arranged (select_items code) v.db).items

  pub items_listed-Permᴰ :
      (v : World H) (is : List Item)
      → (view v.db).items ≡ is
      → Permᴰ (items_listed v) (select (listed_in code) is)
  items_listed-Permᴰ v is e =
      rw⁻¹ e (select-Permᴰ (listed_in code) (law.rearranged (select_items code) v.db).items)

  items_shown :
      (v : World H)
      → All (λ (i : Item). All IsQuotable (item_row i)) (view v.db).items
      → lift_abs view
          ((get_all_items_in_group exec code >>= λ rows. send_items exec username rows) v)
        ≡ (ok tt, show_items username (items_listed v) (abs view v))
  unfolding ◌>>=◌ get_all_items_in_group answer sql
  items_shown v h =
      let is = items_listed v in
      let literal =
        All-Permᴰ (λ (i : Item). All IsQuotable (item_row i))
          (items_listed-Permᴰ v (view v.db).items refl)
          (All-select (λ (i : Item). All IsQuotable (item_row i)) (listed_in code) _ h) in
      rw (query-lists law (select_items code) v numeral) (
        send_items-show law username name is (asked law (select_items code) v) literal
        ∙ ap (λ x. (ok tt, show_items username is x))
            (abs-listed law (select_items code) v numeral))

  -- The world when the items are asked for.
  abbrev pub greeted : Text → List Member → World H → World H
  greeted message ms v =
      (send_members exec username (map member_row ms)
        (send_to_all exec (map member_row ms) message v).1).1

  module _ (ms : List Member) (message : Text) (v : World H) (literal : IsQuotable message)
      (hm : All HasLiterals ms) where
    sent-eq :
        lift_abs view (send_to_all exec (map member_row ms) message v)
        ≡ (ok tt, deliver_all message ms (abs view v))
    sent-eq = send_to_all-deliver_all law message literal ms v (AreQuotable-HasLiterals ms hm)

    shown-eq :
        (v3 : World H)
        → lift_abs view (send_members exec username (map member_row ms) v3)
          ≡ (ok tt, show_members username ms (abs view v3))
    shown-eq v3 = send_members-show law username name ms v3 hm

    pub greeted-items : (view (greeted message ms v).db).items ≡ (view v.db).items
    greeted-items =
        let v3 = (send_to_all exec (map member_row ms) message v).1 in
        ap (λ p. p.1.db.items) (shown-eq v3)
        ∙ (show_members-items username ms (abs view v3)
            ∙ (ap (λ p. p.1.db.items) sent-eq ∙ deliver_all-items message ms (abs view v)))

    -- All that is sent, once the rows of the members and the name of the group were read.
    everything_sent :
        All (λ (i : Item). All IsQuotable (item_row i)) (view v.db).items
        → lift_abs view (showing exec code username message (map member_row ms) v) ≡ (
          ok tt,
          show_items username
              (items_listed (greeted message ms v))
              (show_members username ms (deliver_all message ms (abs view v))),
        )
    unfolding ◌>>=◌
    everything_sent hi =
        let v3 = (send_to_all exec (map member_row ms) message v).1 in
        let v4 = greeted message ms v in
        let is = items_listed v4 in
        same-bind-here view (send_to_all exec (map member_row ms) message)
          (λ x. (ok tt, deliver_all message ms x))
          (λ _. do
            send_members exec username (map member_row ms)
            items ← get_all_items_in_group exec code
            send_items exec username items)
          (λ u x. (ok tt, show_items username is (show_members username ms x))) v sent-eq
          (λ u.
            same-bind-here view (send_members exec username (map member_row ms))
              (λ x. (ok tt, show_members username ms x))
              (λ _. get_all_items_in_group exec code >>= λ rows. send_items exec username rows)
              (λ u x. (ok tt, show_items username is x)) v3 (shown-eq v3)
              (λ u. items_shown v4 (rw greeted-items hi)))

  -- The world after the name and the members of the group were read.
  abbrev pub briefed : World H → World H
  briefed v = asked law (select_members code) (asked law (select_name code) v)

  pub abs-briefed : (v : World H) → abs view (briefed v) ≡ abs view v
  unfolding effect
  abs-briefed v =
      abs-listed law (select_members code) (asked law (select_name code) v) numeral
      ∙ (λ i. record (abs view v) { db = view-asked law (select_name code) v numeral refl i })

  abbrev pub invitation : Text → Group → Text
  invitation status g = make_receive pgm_ctr_new_user (code ∷ g.name ∷ username ∷ status ∷ [])

  abbrev pub members_met : World H → List Member
  members_met v = members_listed law code (asked law (select_name code) v)

  pub members_met-Permᴰ :
      (v : World H) (ms : List Member)
      → (view v.db).members ≡ ms
      → Permᴰ (members_met v) (select (in_group code) ms)
  unfolding effect
  members_met-Permᴰ v ms e =
      members_listed-Permᴰ law code (asked law (select_name code) v) ms
        (ap (λ t. t.members) (view-asked law (select_name code) v numeral refl) ∙ e)

  abbrev pub items_met : Text → Group → World H → List Item
  items_met status g v = items_listed (greeted (invitation status g) (members_met v) (briefed v))

  module _ (status : Text) (g : Group) (v : World H) (rights : IsQuotable status)
      (here : group_of code (view v.db) ≡ some g) (h : AreLiterals (view v.db)) where
    invitation-IsQuotable : IsQuotable (invitation status g)
    invitation-IsQuotable =
        let titled =
          All-find (λ (g : Group). IsQuotable g.name) (has_code code) (view v.db).groups g here
            h.names in
        make_receive-IsQuotable pgm_ctr_new_user (code ∷ g.name ∷ username ∷ status ∷ [])
          (clean, (titled, (name, (rights, tt))))

    met-HasLiterals : All HasLiterals (members_met v)
    met-HasLiterals =
        All-Permᴰ HasLiterals (members_met-Permᴰ v (view v.db).members refl)
          (All-select HasLiterals (in_group code) (view v.db).members h.members)

    pub items_met-Permᴰ :
        (is : List Item)
        → (view v.db).items ≡ is
        → Permᴰ (items_met status g v) (select (listed_in code) is)
    items_met-Permᴰ is e =
        items_listed-Permᴰ (greeted (invitation status g) (members_met v) (briefed v)) is (
          greeted-items (members_met v) (invitation status g) (briefed v) invitation-IsQuotable
            met-HasLiterals
          ∙ (ap (λ (x : World Tables). x.db.items) (abs-briefed v) ∙ e))

    -- The name of the group and the rows of its members are read first.
    pub welcoming-welcomed : lift_abs view (welcoming exec code username status v) ≡ (
      ok tt,
      welcomed (members_met v) (items_met status g v) code username status g (abs view v),
    )
    unfolding ◌>>=◌ get_group_name get_all_users_in_group answer sql
    welcoming-welcomed =
        let (rest, row) = select-eq_cons_of_find (has_code code) (view v.db).groups g here in
        let ms = members_met v in
        let is = items_met status g v in
        rw (query-answer law (select_name code) v numeral, row)
          (rw (query-lists law (select_members code) (asked law (select_name code) v) numeral) (
            everything_sent ms (invitation status g) (briefed v) invitation-IsQuotable
              met-HasLiterals (rw (ap (λ (x : World Tables). x.db.items) (abs-briefed v)) h.items)
            ∙ ap
                (λ x. (
                  ok tt,
                  show_items username is
                      (show_members username ms (deliver_all (invitation status g) ms x)),
                ))
                (abs-briefed v)))
