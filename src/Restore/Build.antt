-- ===== src/Restore/Build.antt =====
-- `buildRestoreMessage` (ServerIList/Restore.cpp) from its queries to its text.
use mathlib.Core.List.{Permᴰ}
use mathlib.Core.List.Permᴰ
use server_ilist.Prelude.{
  subst, ◌≡◌, refl, sym, Bool, Bool-cases, any, true, false, some, inl, inr, List, [], ◌∷◌, ◌++◌,
  map, select, length, get_elem?, get-middle, append_assoc, append-nil, length-append, ap, ◌∙◌,
  arith, All, ◌==◌,
}
use server_ilist.Text.{Text, lit, text_eq_iff}
use server_ilist.Exception.{Outcome, ok}
use server_ilist.Action.{◌>>=◌}
use server_ilist.World.{World, Row}
use server_ilist.Database.{Engine}
use server_ilist.Sqlite.{Implements}
use server_ilist.Sqlite.Schema.{Tables, Group, Member, has_code, in_group, of_user, find}
use server_ilist.Sqlite.Language.{sql, answer, select_codes}
use server_ilist.Sqlite.Arranged.{select-Permᴰ, All-Permᴰ}
use server_ilist.Sqlite.Spelled.{IsQuotable, IsNumeral}
use server_ilist.Restore.{build_restore_message, groups_loop, find_groups_of_user}
use server_ilist.Restore.Rendering.{
  Entry, IsWhole, IsComplete, add_group, add_group-eq, entry_of, group_entry, group_entries,
  restore_text,
}
use server_ilist.Sqlite.Refines.{asked, query-lists}
use server_ilist.Restore.Round.{length-map, code_row, group_round-IsEntry}

-- The group's code is a numeral, and the group is there.
abbrev pub IsKnown : Tables → Member → Type 0
IsKnown t k =
    IsNumeral k.group_code × (g : Group) × (find (has_code k.group_code) t.groups ≡ some g)

-- Every member is one of its own group.
abbrev IsInside : List Member → Member → Type 0
IsInside members k = any (in_group k.group_code) members ≡ true

seat :
    (k : Member) (members : List Member)
    → IsInside members k
    → (m : Member) × (ms : List Member) × (select (in_group k.group_code) members ≡ m ∷ ms)
seat k [] h = ground arith
seat k (x ∷ xs) h = elim (Bool-cases (in_group k.group_code x)) [
  | inl e ↦ (x, select (in_group k.group_code) xs, rw e refl)
  | inr e ↦ let (m, ms, f) = seat k xs (ground arith) in (m, ms, rw e f)
]

All-map :
    {P Q : Member → Type 0} (f : (k : Member) → P k → Q k) (ks : List Member) → All P ks → All Q ks
All-map f [] h = tt
All-map f (k ∷ ks) (h, hs) = (f k h, All-map f ks hs)

All-select :
    (P : Member → Type 0) (p : Member → Bool) (ks : List Member) → All P ks → All P (select p ks)
All-select P p [] h = tt
All-select P p (k ∷ ks) (h, hs) = elim (Bool-cases (p k)) [
  | inl e ↦ rw e (h, All-select P p ks hs)
  | inr e ↦ rw e (All-select P p ks hs)
]

members-IsInside : (members : List Member) → All (IsInside members) members
members-IsInside [] = tt
members-IsInside (m ∷ ms) = (
  ground (arith, text_eq_iff m.group_code m.group_code),
  All-map {P = IsInside ms} (λ k h. ground arith) ms (members-IsInside ms),
)

-- A membership whose group is known, with a first member.
abbrev IsSeated : Tables → Member → Type 0
IsSeated t k =
    IsKnown t k
    × (m : Member) × (ms : List Member) × (select (in_group k.group_code) t.members ≡ m ∷ ms)

All-IsSeated :
    (t : Tables) (ks : List Member)
    → All (IsKnown t) ks
    → All (IsInside t.members) ks
    → All (IsSeated t) ks
All-IsSeated t [] known inside = tt
All-IsSeated t (k ∷ ks) (h, known) (i, inside) =
    let (m, ms, first) = seat k t.members i in ((h, m, ms, first), All-IsSeated t ks known inside)

-- What rearranges some rows is not empty.
Permᴰ-cons :
    {A : Type 0} (xs : List A) {ys : List A} {y : A}
    → Permᴰ xs (y ∷ ys)
    → (x : A) × (xs' : List A) × (xs ≡ x ∷ xs')
Permᴰ-cons {A} [] d = absurd ((All-Permᴰ (λ (x : A). ⊥) (Permᴰ.symm d) tt).0)
Permᴰ-cons (x ∷ xs) d = (x, xs, refl)

module _ {H : Type 0} {exec : Engine H} {view : H → Tables} (law : Implements exec view) where
  -- The text comes out, and no table changes.
  pub record IsRendered (text : Text) (t : Tables) (r : Outcome Text × World H) : Type 0 where
    pub text_out : r.0 ≡ ok text
    pub unchanged : view r.1.db ≡ t

  entry-eq :
      (ret : Text) (t : Tables) (e : Entry) (m : Member) (g : Group) (ms : List Member)
      → find (has_code e.seat.group_code) t.groups ≡ some g
      → e.members ≡ m ∷ ms
      → add_group ret e.seat.group_code g.name e.members e.items ≡ ret ++ group_entry t e
  entry-eq ret t e m g ms here first =
      let text : add_group ret e.seat.group_code g.name e.members e.items
          ≡ ret ++ entry_of e (some g) =
        rw first (add_group-eq ret e.seat.group_code g.name m ms e.items) in
      text ∙ ap (λ o. ret ++ entry_of e o) (sym here)

  -- The rounds for these memberships, with what each of them shows.
  pub record AreRendered (t : Tables) (ks : List Member) (ret : Text) (r : Outcome Text × World H)
      : Type 0 where
    pub entries : List Entry
    pub seats : map (λ (e : Entry). e.seat) entries ≡ ks
    pub whole : All (IsWhole t) entries
    pub rendered : IsRendered (ret ++ group_entries t entries) t r

  groups_loop-AreRendered :
      (t : Tables) (pre : List Row) (ks : List Member) (ret : Text) (w : World H)
      → All (IsSeated t) ks
      → view w.db ≡ t
      → w.restore.m_groups ≡ pre ++ map code_row ks
      → w.restore.m_index_g ≡ length pre
      → AreRendered t ks ret (groups_loop exec (length ks) ret w)
  unfolding groups_loop ◌>>=◌
  groups_loop-AreRendered t pre [] ret w seated v rows here = record {
    entries = [];
    seats = refl;
    whole = tt;
    rendered = rw (append-nil ret) (record { text_out = refl; unchanged = v });
  }
  groups_loop-AreRendered t pre (k ∷ ks) ret w (((numeral, g, known), m, ms, first), seated) v rows
        here =
      let row = code_row k in
      let next : get_elem? w.restore.m_groups w.restore.m_index_g ≡ some row =
        rw (rows, here) (get-middle pre (map code_row ks) row) in
      let more : (length w.restore.m_groups == w.restore.m_index_g) ≡ false =
        rw (rows, here) (ground (arith, length-append pre (row ∷ map code_row ks))) in
      let known' : find (has_code k.group_code) (view w.db).groups ≡ some g = rw v known in
      let round = group_round-IsEntry law ret k g w next numeral known' in
      let e : Entry = record { seat = k; members = round.members; items = round.items } in
      let members_all : Permᴰ round.members (select (in_group k.group_code) t.members) =
        rw⁻¹ v round.members_all in
      let (m', ms', some_there) =
        Permᴰ-cons round.members (subst (λ js. Permᴰ round.members js) first members_all) in
      let text = entry-eq ret t e m' g ms' known some_there in
      let rest =
        groups_loop-AreRendered t (pre ++ row ∷ []) ks (ret ++ group_entry t e) round.after seated
          (round.same ∙ v)
          (round.listed ∙ (rows ∙ sym (append_assoc pre (row ∷ []) (map code_row ks))))
          (omega (arith, round.moved, here, length-append pre (row ∷ []))) in
      record {
        entries = e ∷ rest.entries;
        seats = ap (λ js. k ∷ js) rest.seats;
        whole = ((members_all, rw⁻¹ v round.items_all), rest.whole);
        rendered =
            rw (more, round.added, text)
              (rw⁻¹ (append_assoc ret (group_entry t e) (group_entries t rest.entries))
                rest.rendered);
      }

  -- For a name that is spelled as a literal, with a library that behaves as documented: when each
  -- of the user's memberships is of a group that is there, under a code that is a numeral, the
  -- message is `@400|`, then for each membership, in some order, the group's code, name, members and
  -- items, each row once and in some order, and `|`; every loop comes to its end, and no table
  -- changes.
  pub build_restore_message-restore_text :
      (username : Text) (w : World H)
      → IsQuotable username
      → All (IsKnown (view w.db)) (select (of_user username) (view w.db).members)
      → (es : List Entry) × IsComplete (view w.db) username es
        × IsRendered
            (restore_text (view w.db) es)
            (view w.db)
            (build_restore_message exec username w)
  unfolding build_restore_message find_groups_of_user ◌>>=◌ answer sql
  build_restore_message-restore_text username w clean known =
      let t = view w.db in
      let st = select_codes username in
      let ks = select (of_user username) (law.arranged st w.db).members in
      let arranged = select-Permᴰ (of_user username) (law.rearranged st w.db).members in
      let seated = All-IsSeated t ks (All-Permᴰ (IsKnown t) arranged known) (
        All-Permᴰ (IsInside t.members) arranged (
          All-select (IsInside t.members) (of_user username) t.members
            (members-IsInside t.members))) in
      let listed : World H = record (asked law st w) {
        restore = record w.restore { m_groups = map code_row ks; m_index_g = 0 };
      } in
      let all =
        groups_loop-AreRendered t [] ks (lit "@400|") listed seated (law.lists_only st w.db clean)
          refl refl in
      (
        all.entries,
        record { seats = rw all.seats arranged; whole = all.whole },
        rw (query-lists law st w clean, length-map code_row ks)
            (rw all.rendered.text_out
              (record { text_out = refl; unchanged = all.rendered.unchanged })),
      )
