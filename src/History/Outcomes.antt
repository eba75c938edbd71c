-- ===== src/History/Outcomes.antt =====
-- What addUser and removeUser of PublicGroup.cpp do to consistent tables, be the group there or not.
use server_ilist.Prelude.{◌≡◌, refl, Option-cases, inl, inr, [], pos, negsuc, ◌+ℤ◌}
use server_ilist.Text.{Text}
use server_ilist.Text.Number.{wrap_int}
use server_ilist.Exception.{fails, thrown, no_such_user_in_the_group}
use server_ilist.World.{World}
use server_ilist.Database.Mutex.{free}
use server_ilist.Sqlite.Schema.{Tables}
use server_ilist.Groups.Spec.{add_user_on_tables, remove_user_on_tables}
use server_ilist.Groups.Lookups.{group_of, member_of}
use server_ilist.Groups.Counting.{count_of}
use server_ilist.Groups.Members.{refusal, unless_refused, without_member, remove_user_tables}
use server_ilist.Groups.Invite.{
  answer_to, overlooked, grants_nothing, invited, with_member, add_user_tables,
}
use server_ilist.History.Books.{IsConsistent, member_of-absent}
use server_ilist.History.FreeCalls.{add_user_stranger, remove_user_stranger}

module _ (effector code username : Text) (w : World Tables) (unlocked : w.groups_mtx ≡ free)
    (books : IsConsistent w.db) where
  pub remove_user_consistent :
      remove_user_on_tables effector code username w
      ≡ unless_refused
          (refusal effector code username w.db)
          (without_member code username (wrap_int (pos (count_of code w.db.members) +ℤ negsuc 0)))
          w
  unfolding refusal
  remove_user_consistent = elim (Option-cases (group_of code w.db)) [
    | inl absent ↦
        let stranger = member_of-absent code effector w.db absent books.rooted in
        rw (remove_user_stranger effector code username w unlocked stranger, stranger) refl
    | inr (g, e) ↦
        let c = books.tallied.at code g e in
        remove_user_tables effector code username w unlocked c.group _ c.here c.counted
  ]

  pub add_user_consistent :
      (status : Text)
      → add_user_on_tables effector code username status w
        ≡ invited
            (answer_to
              (member_of code effector w.db)
              (pos (count_of code w.db.members))
              (member_of code username w.db)
              (grants_nothing status))
            (overlooked
              (member_of code effector w.db)
              (pos (count_of code w.db.members))
              (member_of code username w.db))
            (with_member code username status
              (wrap_int (pos (count_of code w.db.members) +ℤ pos 1)))
            w
  add_user_consistent status = elim (Option-cases (group_of code w.db)) [
    | inl absent ↦
        let stranger = member_of-absent code effector w.db absent books.rooted in
        rw (add_user_stranger effector code username w unlocked status stranger, stranger)
          (λ i.
            (fails (thrown (no_such_user_in_the_group [])), record w { groups_mtx = unlocked i }))
    | inr (g, e) ↦
        let c = books.tallied.at code g e in
        add_user_tables effector code username status w unlocked c.group _ c.here c.counted
  ]
