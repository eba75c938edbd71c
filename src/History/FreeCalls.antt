-- ===== src/History/FreeCalls.antt =====
-- The calls of PublicGroup.cpp on the tables keep the books, from a mutex that is free.
use server_ilist.Prelude.{
  ◌≡◌, refl, Bool, Option-cases, inl, inr, Option, none, some, [], ℤ, pos, negsuc, ◌+ℤ◌,
}
use server_ilist.Text.{Text}
use server_ilist.Text.Number.{wrap_int}
use server_ilist.Exception.{Exception, fails, thrown, no_such_user_in_the_group}
use server_ilist.Action.{◌>>=◌}
use server_ilist.World.{World}
use server_ilist.Database.Mutex.{free, lock_groups, unlock_groups}
use server_ilist.Sqlite.Schema.{Tables}
use server_ilist.Groups.Spec.{
  remove_group_on_tables, add_user_on_tables, remove_user_on_tables, set_user_status_on_tables,
}
use server_ilist.Groups.Lookups.{group_of, member_of, has_member-none}
use server_ilist.Groups.Counting.{count_of}
use server_ilist.Groups.Count.{IsCounted, IsCounted-invited, IsCounted-unless_refused}
use server_ilist.Groups.Close.{held, without_group, remove_group_member, remove_group_stranger}
use server_ilist.Groups.Members.{
  refusal, unless_refused, without_member, with_status, remove_user_tables, set_user_status_tables,
}
use server_ilist.Groups.Invite.{invited, with_member, add_user_tables}
use server_ilist.Session.Foreign.{IsRooted}
use server_ilist.History.Books.{
  IsBelow, IsTallied, IsTallied-with_member, IsTallied-without_member, IsTallied-without_group,
  IsTallied-with_status, member_of-absent, below-select,
}
use server_ilist.History.Carries.{
  Settles, without_member-next_code, without_member-IsBelow, with_member-next_code,
  with_member-IsBelow, Carries-same, Settles_same,
}

module _ (effector code username : Text) (v : World Tables) (unlocked : v.groups_mtx ≡ free) where
  pub remove_group_free : Settles v (remove_group_on_tables effector code v)
  unfolding without_group
  remove_group_free = elim (Option-cases (member_of code effector v.db)) [
    | inl stranger ↦ rw (remove_group_stranger effector code v unlocked stranger) (Settles_same v _)
    | inr (m, member) ↦ rw (remove_group_member effector code v unlocked m member) (record {
      carries = record {
        today = refl;
        next_code = refl;
        below = below-select v.db.next_code _ v.db.groups;
        tallied = λ r h. IsTallied-without_group code v.db h;
      };
      answered = λ h. (refl, refl);
    })
  ]

  unless_refused_settles :
      (o : Option Exception) (change : Tables → Tables)
      → ((change v.db).next_code ≡ v.db.next_code)
      → (IsBelow v.db → IsBelow (change v.db))
      → (IsRooted v.db → IsTallied v.db → o ≡ none → IsTallied (change v.db))
      → Settles v (unless_refused o change v)
  unless_refused_settles (some e) change n b t = Settles_same v e
  unless_refused_settles none change n b t = record {
    carries = record { today = refl; next_code = n; below = b; tallied = λ r h. t r h refl };
    answered = λ h. (refl, h);
  }

  pub set_user_status_free :
      (status : Text) → Settles v (set_user_status_on_tables effector code username status v)
  unfolding with_status
  set_user_status_free status =
      rw (set_user_status_tables effector code username v unlocked status) (
        unless_refused_settles (refusal effector code username v.db)
          (with_status code username status) refl (λ h. h)
          (λ r h e. IsTallied-with_status code v.db h username status))

  -- The group is there, and its column counts its members.
  module _ (c : IsCounted code v.db) where
    removed_IsCounted :
        (o : Option Exception) (change : Tables → Tables)
        → IsCounted code (unless_refused o change v).1.db
        → o ≡ none
        → IsCounted code (change v.db)
    removed_IsCounted none change k e = k
    removed_IsCounted (some x) change k e = absurd (some_none e)
      where
        some_none : {x : Exception} → some x ≡ none → ⊥
        some_none e = cc e

    remove_user_counted : Settles v (remove_user_on_tables effector code username v)
    remove_user_counted =
        let change : Tables → Tables =
          without_member code username (wrap_int (pos (count_of code v.db.members) +ℤ negsuc 0)) in
        rw (remove_user_tables effector code username v unlocked c.group _ c.here c.counted) (
          unless_refused_settles (refusal effector code username v.db) change
            (without_member-next_code code username _ v.db)
            (without_member-IsBelow code username _ v.db)
            (λ r h e.
              IsTallied-without_member code v.db h username _ (
                removed_IsCounted _ change (IsCounted-unless_refused effector code username v c)
                  e)))

    invited_settles :
        (o : Option Exception) (status : Text) (misused : Bool) (n : ℤ)
        → IsCounted code (invited o misused (with_member code username status n) v).1.db
        → Settles v (invited o misused (with_member code username status n) v)
    invited_settles (some e) status misused n k = record {
      carries = Carries-same v _ refl refl;
      answered = λ h. (refl, refl);
    }
    invited_settles none status misused n k = record {
      carries = record {
        today = refl;
        next_code = with_member-next_code code username status n v.db;
        below = with_member-IsBelow code username status n v.db;
        tallied = λ r h. IsTallied-with_member code v.db h username status n k;
      };
      answered = λ h. (refl, refl);
    }

    add_user_counted :
        (status : Text) → Settles v (add_user_on_tables effector code username status v)
    add_user_counted status =
        rw (add_user_tables effector code username status v unlocked c.group _ c.here c.counted)
          (invited_settles _ status _ _ (IsCounted-invited effector code username v c status _))

  -- The group is not there; then nobody may act on it.
  pub add_user_stranger :
      (status : Text)
      → member_of code effector v.db ≡ none
      → add_user_on_tables effector code username status v
        ≡ (fails (thrown (no_such_user_in_the_group [])), v)
  unfolding add_user_on_tables ◌>>=◌ lock_groups unlock_groups
  add_user_stranger status h = rw unlocked (rw (has_member-none code effector (held v) h) refl)

  pub remove_user_stranger :
      member_of code effector v.db ≡ none
      → remove_user_on_tables effector code username v
        ≡ (fails (thrown (no_such_user_in_the_group [])), v)
  unfolding remove_user_on_tables ◌>>=◌ lock_groups unlock_groups
  remove_user_stranger h = rw unlocked (rw (has_member-none code effector (held v) h) refl)

  module _ (rooted : IsRooted v.db) (h : IsTallied v.db) where
    pub add_user_free :
        (status : Text) → Settles v (add_user_on_tables effector code username status v)
    add_user_free status = elim (Option-cases (group_of code v.db)) [
      | inl absent ↦
          rw (add_user_stranger status (member_of-absent code effector v.db absent rooted))
            (Settles_same v _)
      | inr (g, e) ↦ add_user_counted (h.at code g e) status
    ]

    pub remove_user_free : Settles v (remove_user_on_tables effector code username v)
    remove_user_free = elim (Option-cases (group_of code v.db)) [
      | inl absent ↦
          rw (remove_user_stranger (member_of-absent code effector v.db absent rooted))
            (Settles_same v _)
      | inr (g, e) ↦ remove_user_counted (h.at code g e)
    ]
