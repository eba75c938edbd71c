-- ===== src/History/Carries.antt =====
-- What a call that creates no group may do to the books.
use server_ilist.Prelude.{◌≡◌, refl, ap, Bool, true, false, true, ℤ}
use server_ilist.Text.{Text}
use server_ilist.Exception.{
  Exception, Outcome, ok, fails, thrown, standard, out_of_bounds, deadlock,
}
use server_ilist.World.{World}
use server_ilist.Sqlite.Schema.{Tables}
use server_ilist.Groups.Members.{without_member}
use server_ilist.Groups.Invite.{with_member}
use server_ilist.Session.Foreign.{IsRooted}
use server_ilist.History.Books.{IsBelow, IsTallied, below-update}

module _ (code username : Text) (n : ℤ) (t : Tables) where
  pub without_member-next_code : (without_member code username n t).next_code ≡ t.next_code
  unfolding without_member
  without_member-next_code = refl

  pub without_member-IsBelow : IsBelow t → IsBelow (without_member code username n t)
  unfolding without_member
  without_member-IsBelow h = below-update t.next_code code _ t.groups h

module _ (code username status : Text) (n : ℤ) (t : Tables) where
  pub with_member-next_code : (with_member code username status n t).next_code ≡ t.next_code
  unfolding with_member
  with_member-next_code = refl

  pub with_member-IsBelow : IsBelow t → IsBelow (with_member code username status n t)
  unfolding with_member
  with_member-IsBelow h = below-update t.next_code code _ t.groups h

-- What a call that creates no group does to the tables and the day.
pub record Carries (w w' : World Tables) : Type 0 where
  pub today : w'.today ≡ w.today
  pub next_code : w'.db.next_code ≡ w.db.next_code
  pub below : IsBelow w.db → IsBelow w'.db
  pub tallied : IsRooted w.db → IsTallied w.db → IsTallied w'.db

-- A call that is answered: it ends, and not by what nothing catches.
abbrev pub is_answered : {A : Type 0} → Outcome A → Bool
is_answered (ok a) = true
is_answered (fails (thrown e)) = true
is_answered (fails standard) = false
is_answered (fails out_of_bounds) = false
is_answered (fails deadlock) = false

-- A call that comes to an open mutex is answered, and leaves it open.
pub record Settles (w : World Tables) (r : Outcome Unit × World Tables) : Type 0 where
  pub carries : Carries w r.1
  pub answered :
      w.groups_mtx.held ≡ false → (is_answered r.0 ≡ true) × (r.1.groups_mtx.held ≡ false)

pub Carries-same : (w w' : World Tables) → w'.today ≡ w.today → w'.db ≡ w.db → Carries w w'
Carries-same w w' e f = record {
  today = e;
  next_code = ap (λ t. t.next_code) f;
  below = λ h. rw f h;
  tallied = λ r h. rw f h;
}

pub Settles_same : (w : World Tables) (e : Exception) → Settles w (fails (thrown e), w)
Settles_same w e = record { carries = Carries-same w w refl refl; answered = λ h. (refl, h) }
