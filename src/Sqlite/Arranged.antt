-- ===== src/Sqlite/Arranged.antt =====
-- Rows in another order. The program's multi-row SELECTs have no ORDER BY, and then SQLite leaves the
-- order of the rows open (https://www.sqlite.org/lang_select.html#orderby).
use mathlib.Core.List.{Permᴰ}
use mathlib.Core.List.Permᴰ
use server_ilist.Prelude.{refl, sym, subst, Bool, Bool-cases, inl, inr, List, ◌∷◌, select, All}
use server_ilist.Sqlite.Schema.{Tables}

-- The same tables, but for the order of the rows.
pub record IsRearranged (t t' : Tables) : Type 0 where
  pub users : Permᴰ t.users t'.users
  pub groups : Permᴰ t.groups t'.groups
  pub members : Permᴰ t.members t'.members
  pub items : Permᴰ t.items t'.items
  pub packets : Permᴰ t.packets t'.packets

pub same-IsRearranged : (t : Tables) → IsRearranged t t
same-IsRearranged t = record {
  users = Permᴰ.refl t.users;
  groups = Permᴰ.refl t.groups;
  members = Permᴰ.refl t.members;
  items = Permᴰ.refl t.items;
  packets = Permᴰ.refl t.packets;
}

-- A selection from rearranged rows is a rearranged selection.
pub select-Permᴰ :
    {A : Type 0} (p : A → Bool) {xs ys : List A} → Permᴰ xs ys → Permᴰ (select p xs) (select p ys)
select-Permᴰ p Permᴰ.nil = Permᴰ.nil
select-Permᴰ p (Permᴰ.cons {b = b} e d) = rw e (elim (Bool-cases (p b)) [
  | inl t ↦ rw t (Permᴰ.cons refl (select-Permᴰ p d))
  | inr f ↦ rw f (select-Permᴰ p d)
])
select-Permᴰ p (Permᴰ.swap {a' = a} {b' = b} {l} e f) =
    rw (e, f)
      (elim (Bool-cases (p a)) [
        | inl t ↦ elim (Bool-cases (p b)) [
          | inl u ↦ rw (t, u) (Permᴰ.swap refl refl)
          | inr u ↦ rw (t, u) (Permᴰ.refl (a ∷ select p l))
        ]
        | inr t ↦ elim (Bool-cases (p b)) [
          | inl u ↦ rw (t, u) (Permᴰ.refl (b ∷ select p l))
          | inr u ↦ rw (t, u) (Permᴰ.refl (select p l))
        ]
      ])
select-Permᴰ p (Permᴰ.trans d e) = Permᴰ.trans (select-Permᴰ p d) (select-Permᴰ p e)

-- What holds of each of some rows holds of each of them in another order.
pub All-Permᴰ : {A : Type 0} (P : A → Type 0) {xs ys : List A} → Permᴰ xs ys → All P ys → All P xs
All-Permᴰ P Permᴰ.nil h = h
All-Permᴰ P (Permᴰ.cons e d) (k, h) = (subst P (sym e) k, All-Permᴰ P d h)
All-Permᴰ P (Permᴰ.swap e f) (k, (j, h)) = (subst P (sym e) j, (subst P (sym f) k, h))
All-Permᴰ P (Permᴰ.trans d e) h = All-Permᴰ P d (All-Permᴰ P e h)
