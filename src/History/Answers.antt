-- ===== src/History/Answers.antt =====
-- Requests about groups and accounts are always answered.
use server_ilist.Prelude.{
  not, ℕ, suc, ◌≡◌, ◌≤◌, ◌+◌, ◌^◌, refl, ap, Bool, true, false, Option, some, none, List, [], ◌∷◌,
  All, all, length, arith,
}
use server_ilist.Text.{Text}
use server_ilist.Exception.{Outcome, ok, fails, thrown, standard, out_of_bounds, deadlock}
use server_ilist.Action.{Action, pure, after, ◌>>=◌}
use server_ilist.World.{World}
use server_ilist.Database.{Engine}
use server_ilist.Sqlite.{Implements}
use server_ilist.Sqlite.Schema.{Tables}
use server_ilist.Sqlite.Spelled.{IsQuotable}
use server_ilist.Sqlite.Refines.{abs, lift_abs}
use server_ilist.Groups.Spec.{create_group_on_tables}
use server_ilist.Session.{settle, attempt, session}
use server_ilist.Session.Refinement.{on_tables}
use server_ilist.History.{Event, create, call, enact, creations}
use server_ilist.History.Books.{IsConsistent}
use server_ilist.History.Carries.{is_answered}
use server_ilist.History.Creation.{create_group_tables}
use server_ilist.History.Room.{
  enact_on_tables, IsSpelledEvent, IsReady, IsReady-IsFresh, IsReady-enact,
}
use server_ilist.History.Invariant.{history-same}
use server_ilist.History.Replies.{is_list_call, spares_lists, leaves_open, call_answers}

-- An answer stays one when what comes after it fails in no way.
then-answered :
    {A B : Type 0} (m : Action (World Tables) A) (f : A → B) (w : World Tables)
    → leaves_open (m w) ≡ true
    → leaves_open ((m >>= λ a. pure (f a)) w) ≡ true
unfolding ◌>>=◌
then-answered {A = A} m f w h = answered_after (m w).0 (m w).1 h
  where
    answered_after :
        (o : Outcome A) (v : World Tables)
        → leaves_open (o, v) ≡ true
        → leaves_open (after o (λ a. pure (f a)) v) ≡ true
    answered_after (ok a) v h = h
    answered_after (fails x) v h = ground arith

enact_answers :
    (e : Event) (es : List Event) (w : World Tables)
    → spares_lists e ≡ true
    → IsReady (creations (e ∷ es)) w
    → w.groups_mtx.held ≡ false
    → leaves_open (enact_on_tables e w) ≡ true
enact_answers (create name admin) es w q h unlocked =
    then-answered (create_group_on_tables name admin) some w
      (rw (create_group_tables name admin w unlocked (IsReady-IsFresh (creations es) w h)) refl)
enact_answers (call c) es w q h unlocked =
    then-answered (on_tables c) (λ (u : Unit). let o : Option Text = none in o) w
      (call_answers c w (not-true (is_list_call c) q) h.consistent unlocked)
  where
    not-true : (b : Bool) → not b ≡ true → b ≡ false
    not-true true h = cc h
    not-true false h = refl

settle-answer :
    {S A : Type 0} (r : Outcome A × S) → is_answered r.0 ≡ true → settle r ≡ (ok r.0, r.1)
settle-answer (ok a, s) h = refl
settle-answer (fails (thrown x), s) h = refl
settle-answer (fails standard, s) h = ground arith
settle-answer (fails out_of_bounds, s) h = ground arith
settle-answer (fails deadlock, s) h = ground arith

-- What a list of `n` requests comes back with, when none of them waits for ever or goes wrong.
pub record Answers (n : ℕ) (r : Outcome (List (Outcome (Option Text))) × World Tables)
    : Type 0 where
  pub answers : List (Outcome (Option Text))
  pub returned : r.0 ≡ ok answers
  pub counted : length answers ≡ n
  pub each : all is_answered answers ≡ true
  pub unheld : r.1.groups_mtx.held ≡ false

attempt-answer :
    (m : Action (World Tables) (Option Text)) (w : World Tables)
    → leaves_open (m w) ≡ true
    → attempt m w ≡ (ok (m w).0, (m w).1)
unfolding attempt
attempt-answer m w h = settle-answer (m w) (ground arith)

-- One answer more.
Answers-more :
    (n : ℕ) (a : Outcome (Option Text)) (r : Outcome (List (Outcome (Option Text))) × World Tables)
    → is_answered a ≡ true
    → Answers n r
    → Answers (suc n) (after r.0 (λ answers. pure (a ∷ answers)) r.1)
unfolding ◌>>=◌
Answers-more n a r h rest = rw rest.returned (record {
  answers = a ∷ rest.answers;
  returned = refl;
  counted = ap suc rest.counted;
  each = rw (h, rest.each) refl;
  unheld = rest.unheld;
})

session-Answers :
    (es : List Event) (w : World Tables)
    → all spares_lists es ≡ true
    → IsReady (creations es) w
    → w.groups_mtx.held ≡ false
    → Answers (length es) (session enact_on_tables es w)
unfolding ◌>>=◌
session-Answers [] w q h unlocked = record {
  answers = [];
  returned = refl;
  counted = refl;
  each = refl;
  unheld = unlocked;
}
session-Answers (e ∷ es) w q h unlocked =
    let answered = enact_answers e es w (ground arith) h unlocked in
    rw (attempt-answer (enact_on_tables e) w answered) (
      Answers-more (length es) _ (session enact_on_tables es (enact_on_tables e w).1)
        (ground (arith, answered))
        (session-Answers es (enact_on_tables e w).1 (ground arith) (IsReady-enact e es w h)
          (ground (arith, answered))))

module _ {H : Type 0} {exec : Engine H} {view : H → Tables} (law : Implements exec view) where
  -- Requests one after another, each to create a group, to close one, to add or remove a member or
  -- change a member's status, to register or to log in, on a database whose library behaves as
  -- documented, with arguments and a day that are spelled as literals, consistent tables, codes
  -- left for the groups to be created, and the mutex of the groups not held at first and never
  -- unlocked while it is free. None of them waits for ever, reads past the end of a vector or ends in
  -- an exception of stoi: each is answered, by success or by an exception of the program, and the
  -- mutex of the groups is not held afterwards.
  pub history-Answers :
      (es : List Event) (w : World H)
      → All IsSpelledEvent es
      → all spares_lists es ≡ true
      → IsConsistent (view w.db)
      → (view w.db).next_code + creations es ≤ 2 ^ 63
      → IsQuotable w.today
      → w.groups_mtx.held ≡ false
      → (session (enact exec) es w).1.groups_mtx.misused ≡ false
      → Answers (length es) (lift_abs view (session (enact exec) es w))
  history-Answers es w spelled groups books room dated unlocked proper =
      rw (history-same law es w spelled books room dated) (
        session-Answers es (abs view w) groups
          (record { consistent = books; room = room; dated = dated }) unlocked)
