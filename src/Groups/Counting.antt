-- ===== src/Groups/Counting.antt =====
-- The rows of `Users_In_Groups` counted: those of a group, and those of a member of it.
use server_ilist.Prelude.{
  ℕ, ◌+◌, ◌≡◌, ◌≤◌, refl, false, not, Bool-cases, inl, inr, none, some, List, [], ◌∷◌, ◌++◌, select,
  length, arith,
}
use server_ilist.Text.{Text, text_eq, text_eq_iff}
use server_ilist.Sqlite.Schema.{Member, Group, is_member, in_group, has_code, update, find}

abbrev pub count_of : Text → List Member → ℕ
count_of code members = length (select (in_group code) members)

abbrev pub rows_of : Text → Text → List Member → ℕ
rows_of code username members = length (select (is_member code username) members)

module _ (code : Text) (n : Text) where
  pub find-update :
      (gs : List Group) (g : Group)
      → find (has_code code) gs ≡ some g
      → find (has_code code) (update (has_code code) (λ g. record g { number_of_users = n }) gs)
        ≡ some (record g { number_of_users = n })
  unfolding find update
  find-update [] g h = ground arith
  find-update (x ∷ gs) g h = elim (Bool-cases (has_code code x)) [
    | inl e ↦ rw (e, e) (let h' : some x ≡ some g = rw e at h in cc h')
    | inr e ↦
        rw (e, e) (find-update gs g (let h' : find (has_code code) gs ≡ some g = rw e at h in h'))
  ]

module _ (code username : Text) where
  pub count_of-remove :
      (ms : List Member)
      → count_of code (select (λ m. not (is_member code username m)) ms) + rows_of code username ms
        ≡ count_of code ms
  count_of-remove [] = refl
  count_of-remove (m ∷ ms) = ground (arith, count_of-remove ms)

  pub rows_of-remove :
      (other : Text) (ms : List Member)
      → rows_of code other (select (λ m. not (is_member code username m)) ms)
        ≤ rows_of code other ms
  rows_of-remove other [] = omega arith
  rows_of-remove other (m ∷ ms) = ground (arith, rows_of-remove other ms)

  pub rows_of-found :
      (ms : List Member) (m : Member)
      → find (is_member code username) ms ≡ some m
      → 1 ≤ rows_of code username ms
  unfolding find
  rows_of-found [] m h = ground arith
  rows_of-found (x ∷ ms) m h = ground (arith, rows_of-found ms m)

  pub rows_of-missing :
      (ms : List Member) → find (is_member code username) ms ≡ none → rows_of code username ms ≡ 0
  unfolding find
  rows_of-missing [] h = refl
  rows_of-missing (x ∷ ms) h = ground (arith, rows_of-missing ms)

module _ (code : Text) (m : Member) where
  pub count_of-append :
      (ms : List Member) → m.group_code ≡ code → count_of code (ms ++ m ∷ []) ≡ count_of code ms + 1
  count_of-append [] h = ground (arith, text_eq_iff m.group_code code)
  count_of-append (x ∷ ms) h = ground (arith, count_of-append ms h)

  pub rows_of-append_other :
      (other : Text) (ms : List Member)
      → text_eq m.username other ≡ false
      → rows_of code other (ms ++ m ∷ []) ≡ rows_of code other ms
  rows_of-append_other other [] h = ground arith
  rows_of-append_other other (x ∷ ms) h = ground (arith, rows_of-append_other other ms h)

  pub rows_of-append :
      (other : Text) (ms : List Member)
      → rows_of code other (ms ++ m ∷ []) ≤ rows_of code other ms + 1
  rows_of-append other [] = ground arith
  rows_of-append other (x ∷ ms) = ground (arith, rows_of-append other ms)
