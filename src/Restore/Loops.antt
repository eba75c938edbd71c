-- ===== src/Restore/Loops.antt =====
-- The loops of `buildRestoreMessage` (ServerIList/Restore.cpp) over the members and the items of a
-- group.
use server_ilist.Prelude.{
  ℕ, suc, ◌+◌, ◌≡◌, refl, sym, false, List, [], ◌∷◌, ◌++◌, map, length, length-append, get-middle,
  append-nil, append_assoc, get_elem?, some, ◌∙◌, arith, ◌==◌,
}
use server_ilist.Text.{Text, lit}
use server_ilist.Exception.{Outcome, ok}
use server_ilist.Action.{◌>>=◌}
use server_ilist.World.{World, Row}
use server_ilist.Sqlite.Schema.{Member, Item}
use server_ilist.Restore.{users_loop, items_loop, get_next_user, get_next_item}

abbrev pub status_row : Member → Row
status_row m = m.username ∷ m.status ∷ []

abbrev pub ware_row : Item → Row
ware_row j = j.item_name ∷ j.quantity ∷ j.remarks ∷ []

abbrev member_text : Member → Text
member_text m = m.username ++ (lit ":" ++ (m.status ++ lit "-"))

abbrev item_text : Item → Text
item_text j = j.item_name ++ (lit ":" ++ (j.quantity ++ (lit ":" ++ (j.remarks ++ lit "-"))))

-- The members as `name:status-`, one after another.
abbrev pub render_members : List Member → Text
render_members [] = []
render_members (m ∷ ms) = member_text m ++ render_members ms

-- The items as `name:quantity:remarks-`, one after another.
abbrev pub render_items : List Item → Text
render_items [] = []
render_items (j ∷ js) = item_text j ++ render_items js

module _ {H : Type 0} where
  abbrev pub user_cursor : ℕ → World H → World H
  user_cursor i w = record w { restore = record w.restore { m_index_u = i } }

  get_next_user-some :
      (m : Member) (w : World H)
      → get_elem? w.restore.m_users w.restore.m_index_u ≡ some (status_row m)
      → get_next_user w ≡ (
        ok (record { name = m.username; status = m.status }),
        user_cursor (w.restore.m_index_u + 1) w,
      )
  unfolding get_next_user ◌>>=◌
  get_next_user-some m w h = rw h refl

  users_end :
      (pre : List Row) (m : Member) (ms : List Member) (ret : Text) (w : World H)
      → ◌≡◌ {A = Outcome Text × World H}
          (
            ok ((ret ++ member_text m) ++ render_members ms),
            user_cursor (length (pre ++ status_row m ∷ []) + length ms) w,
          )
          (ok (ret ++ render_members (m ∷ ms)), user_cursor (length pre + suc (length ms)) w)
  users_end pre m ms ret w =
      let n : length (pre ++ status_row m ∷ []) + length ms ≡ length pre + suc (length ms) =
        omega (arith, length-append pre (status_row m ∷ [])) in
      rw (append_assoc ret (member_text m) (render_members ms), n) refl

  -- With the cursor at a place and a round of fuel for each row from there on, the loop over the
  -- members appends the text of each of these rows, in their order, and ends with the cursor past
  -- the last row.
  pub users_from :
      (pre : List Row) (ms : List Member) (ret : Text) (w : World H)
      → w.restore.m_users ≡ pre ++ map status_row ms
      → w.restore.m_index_u ≡ length pre
      → users_loop (length ms) ret w
        ≡ (ok (ret ++ render_members ms), user_cursor (length pre + length ms) w)
  unfolding users_loop ◌>>=◌
  users_from pre [] ret w rows here =
      let e : length pre + 0 ≡ w.restore.m_index_u = omega (arith, here) in
      rw (append-nil ret, e) refl
  users_from pre (m ∷ ms) ret w rows here =
      let row = status_row m in
      let next : get_elem? w.restore.m_users w.restore.m_index_u ≡ some row =
        rw (rows, here) (get-middle pre (map status_row ms) row) in
      let more : (length w.restore.m_users == w.restore.m_index_u) ≡ false =
        rw (rows, here) (ground (arith, length-append pre (row ∷ map status_row ms))) in
      let one = length-append pre (row ∷ []) in
      rw more (
        rw (get_next_user-some m w next) (
          users_from (pre ++ row ∷ []) ms _ (user_cursor (w.restore.m_index_u + 1) w)
            (rows ∙ sym (append_assoc pre (row ∷ []) (map status_row ms)))
            (omega (arith, here, one))
          ∙ users_end pre m ms ret w))

  abbrev pub item_cursor : ℕ → World H → World H
  item_cursor i w = record w { restore = record w.restore { m_index_i = i } }

  get_next_item-some :
      (j : Item) (w : World H)
      → get_elem? w.restore.m_items w.restore.m_index_i ≡ some (ware_row j)
      → get_next_item w ≡ (
        ok (record { name = j.item_name; quantity = j.quantity; remarks = j.remarks }),
        item_cursor (w.restore.m_index_i + 1) w,
      )
  unfolding get_next_item ◌>>=◌
  get_next_item-some j w h = rw h refl

  items_end :
      (pre : List Row) (j : Item) (js : List Item) (ret : Text) (w : World H)
      → ◌≡◌ {A = Outcome Text × World H}
          (
            ok ((ret ++ item_text j) ++ render_items js),
            item_cursor (length (pre ++ ware_row j ∷ []) + length js) w,
          )
          (ok (ret ++ render_items (j ∷ js)), item_cursor (length pre + suc (length js)) w)
  items_end pre j js ret w =
      let n : length (pre ++ ware_row j ∷ []) + length js ≡ length pre + suc (length js) =
        omega (arith, length-append pre (ware_row j ∷ [])) in
      rw (append_assoc ret (item_text j) (render_items js), n) refl

  -- With the cursor at a place and a round of fuel for each row from there on, the loop over the
  -- items appends the text of each of these rows, in their order, and ends with the cursor past the
  -- last row.
  pub items_from :
      (pre : List Row) (js : List Item) (ret : Text) (w : World H)
      → w.restore.m_items ≡ pre ++ map ware_row js
      → w.restore.m_index_i ≡ length pre
      → items_loop (length js) ret w
        ≡ (ok (ret ++ render_items js), item_cursor (length pre + length js) w)
  unfolding items_loop ◌>>=◌
  items_from pre [] ret w rows here =
      let e : length pre + 0 ≡ w.restore.m_index_i = omega (arith, here) in
      rw (append-nil ret, e) refl
  items_from pre (j ∷ js) ret w rows here =
      let row = ware_row j in
      let next : get_elem? w.restore.m_items w.restore.m_index_i ≡ some row =
        rw (rows, here) (get-middle pre (map ware_row js) row) in
      let more : (length w.restore.m_items == w.restore.m_index_i) ≡ false =
        rw (rows, here) (ground (arith, length-append pre (row ∷ map ware_row js))) in
      let one = length-append pre (row ∷ []) in
      rw more (
        rw (get_next_item-some j w next) (
          items_from (pre ++ row ∷ []) js _ (item_cursor (w.restore.m_index_i + 1) w)
            (rows ∙ sym (append_assoc pre (row ∷ []) (map ware_row js))) (omega (arith, here, one))
          ∙ items_end pre j js ret w))
