-- ===== src/History/Room.antt =====
-- What each event on the tables needs and leaves behind.
use server_ilist.Prelude.{
  ℕ, ◌+◌, ◌≡◌, ◌≤◌, ◌^◌, refl, true, Bool-cases, inl, inr, Option, none, some, List, [], ◌∷◌, ◌++◌,
  suc, arith,
}
use server_ilist.Text.{Text, text_eq_iff}
use server_ilist.Text.Number.{nat_to_string}
use server_ilist.Exception.{Outcome, ok, fails}
use server_ilist.Action.{Action, pure, after, ◌>>=◌, ◌>>◌}
use server_ilist.World.{World}
use server_ilist.Sqlite.Schema.{Tables, Group, Member, Item}
use server_ilist.Sqlite.Spelled.{IsQuotable}
use server_ilist.Groups.Spec.{create_group_on_tables}
use server_ilist.Groups.Create.{with_group}
use server_ilist.Groups.Fresh.{IsFresh}
use server_ilist.Session.Foreign.{IsRooted, members_of, items_of, has_group, members_of-append}
use server_ilist.Session.{Call}
use server_ilist.Session.Refinement.{on_tables, IsSpelled}
use server_ilist.Session.Invariant.{Keeps-on_tables}
use server_ilist.History.{Event, create, call, creations}
use server_ilist.History.Books.{
  IsBelow, IsConsistent, IsConsistent-IsFresh, IsTallied-with_group, below-append,
}
use server_ilist.History.OtherCalls.{Carries-on_tables}
use server_ilist.History.Creation.{create_group_tables, create_group_stuck}

abbrev pub enact_on_tables : Event → Action (World Tables) (Option Text)
enact_on_tables (create group_name admin_name) = do
  code ← create_group_on_tables group_name admin_name
  pure (some code)
enact_on_tables (call c) = do on_tables c; pure none

-- The arguments are spelled as the literals that they seem to be.
abbrev pub IsSpelledEvent : Event → Type 0
IsSpelledEvent (create group_name admin_name) = IsQuotable group_name × IsQuotable admin_name
IsSpelledEvent (call c) = IsSpelled c

-- The tables are consistent, SQLite has integers left for `n` groups, and the day is spelled as a
-- literal.
pub record IsReady (n : ℕ) (w : World Tables) : Type 0 where
  pub consistent : IsConsistent w.db
  pub room : w.db.next_code + n ≤ 2 ^ 63
  pub dated : IsQuotable w.today

-- What follows a call and changes nothing leaves its state.
pub after-pure :
    {S A B : Type 0} (f : A → B) (o : Outcome A) (s : S) → (after o (λ a. pure (f a)) s).1 ≡ s
unfolding ◌>>=◌
after-pure f (ok a) s = refl
after-pure f (fails e) s = refl

pub then-pure :
    {S A B : Type 0} (m : Action S A) (f : A → B) (s : S) → ((m >>= λ a. pure (f a)) s).1 ≡ (m s).1
unfolding ◌>>=◌
then-pure m f s = after-pure f (m s).0 (m s).1

IsReady-call : (c : Call) (n : ℕ) (w : World Tables) → IsReady n w → IsReady n (on_tables c w).1
IsReady-call c n w h =
    let books = h.consistent in
    let carried = Carries-on_tables c w books.rooted books.tallied in
    record {
      consistent = record {
        rooted = (Keeps-on_tables c).at w books.rooted;
        below = carried.below books.below;
        tallied = carried.tallied books.rooted books.tallied;
      };
      room = rw carried.next_code h.room;
      dated = rw carried.today h.dated;
    }

-- One more group: nobody loses one.
module _ (new : Group) where
  has_group-append :
      (code : Text) (gs : List Group)
      → has_group code gs ≡ true
      → has_group code (gs ++ new ∷ []) ≡ true
  has_group-append code [] h = ground arith
  has_group-append code (g ∷ gs) h = ground (arith, has_group-append code gs)

  has_group-last : (gs : List Group) → has_group (nat_to_string new.code) (gs ++ new ∷ []) ≡ true
  has_group-last [] = ground (arith, text_eq_iff (nat_to_string new.code) (nat_to_string new.code))
  has_group-last (g ∷ gs) = ground (arith, has_group-last gs)

  module _ (gs : List Group) where
    members_of_more :
        (ms : List Member) → members_of gs ms ≡ true → members_of (gs ++ new ∷ []) ms ≡ true
    members_of_more [] h = refl
    members_of_more (m ∷ ms) h =
        ground (arith, members_of_more ms, has_group-append m.group_code gs)

    items_of_more : (js : List Item) → items_of gs js ≡ true → items_of (gs ++ new ∷ []) js ≡ true
    items_of_more [] h = refl
    items_of_more (j ∷ js) h = ground (arith, items_of_more js, has_group-append j.group_code gs)

module _ (name admin today : Text) (t : Tables) where
  IsRooted-with_group : IsRooted t → IsRooted (with_group name admin today t)
  unfolding with_group
  IsRooted-with_group (ms, js) = (
    members_of-append _ _ t.members (members_of_more _ t.groups t.members ms)
        (has_group-last _ t.groups),
    items_of_more _ t.groups t.items js,
  )

  with_group-IsBelow : IsBelow t → IsBelow (with_group name admin today t)
  unfolding with_group
  with_group-IsBelow h = below-append t.next_code _ t.groups refl h

  with_group-next_code : (with_group name admin today t).next_code ≡ suc t.next_code
  unfolding with_group
  with_group-next_code = refl

  IsConsistent-with_group :
      IsFresh t → IsConsistent t → IsConsistent (with_group name admin today t)
  IsConsistent-with_group fresh h = record {
    rooted = IsRooted-with_group h.rooted;
    below = with_group-IsBelow h.below;
    tallied = IsTallied-with_group name admin today t fresh h.tallied;
  }

IsReady-less : (n : ℕ) (w : World Tables) → IsReady (suc n) w → IsReady n w
IsReady-less n w h = record {
  consistent = h.consistent;
  room = omega (arith, h.room);
  dated = h.dated;
}

pub IsReady-IsFresh : (n : ℕ) (w : World Tables) → IsReady (suc n) w → IsFresh w.db
IsReady-IsFresh n w h = IsConsistent-IsFresh w.db h.consistent (omega (arith, h.room))

IsReady-create :
    (name admin : Text) (n : ℕ) (w : World Tables)
    → IsReady (suc n) w
    → IsReady n (create_group_on_tables name admin w).1
IsReady-create name admin n w h = elim (Bool-cases w.groups_mtx.held) [
  | inl waits ↦ rw (create_group_stuck name admin w waits) (IsReady-less n w h)
  | inr unlocked ↦
      let fresh = IsReady-IsFresh n w h in
      rw (create_group_tables name admin w unlocked fresh) (record {
        consistent = IsConsistent-with_group name admin w.today w.db fresh h.consistent;
        room = omega (arith, with_group-next_code name admin w.today w.db, h.room);
        dated = h.dated;
      })
]

-- An event leaves the tables ready for one group less, or for as many.
pub IsReady-enact :
    (e : Event) (es : List Event) (w : World Tables)
    → IsReady (creations (e ∷ es)) w
    → IsReady (creations es) (enact_on_tables e w).1
IsReady-enact (create name admin) es w h =
    rw (then-pure (create_group_on_tables name admin) some w)
      (IsReady-create name admin (creations es) w h)
IsReady-enact (call c) es w h =
    rw (then-pure (on_tables c) (λ (u : Unit). let o : Option Text = none in o) w)
      (IsReady-call c (creations es) w h)
