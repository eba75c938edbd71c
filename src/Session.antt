-- ===== src/Session.antt =====
-- The calls of Users, PublicGroup and PublicLists that change rows, one after another. As in
-- `message_handler` of ServerIList/Manager.cpp, an exception ends its own call only.
pub mod Refinement
pub mod Rooted
pub mod Foreign
pub mod Tables
pub mod Calls
pub mod Invariant
use server_ilist.Prelude.{ℕ, List, [], ◌∷◌}
use server_ilist.Text.{Text}
use server_ilist.Exception.{Failure, thrown, standard, out_of_bounds, deadlock, Outcome, ok, fails}
use server_ilist.Action.{Action, pure, ◌>>=◌, ◌>>◌}
use server_ilist.World.{World}
use server_ilist.Database.{Engine}
use server_ilist.Users
use server_ilist.Groups
use server_ilist.Lists

-- A call with its arguments, in the order of the source.
pub data Call : Type 0 where
  register : Text → Text → Call
  login : ℕ → Text → Text → Call
  remove_group : Text → Text → Call
  add_user : Text → Text → Text → Text → Call
  remove_user : Text → Text → Text → Call
  set_user_status : Text → Text → Text → Text → Call
  add_item : Text → Text → Text → Text → Text → Call
  remove_item : Text → Text → Text → Call
  update_item : Text → Text → Text → Text → Text → Text → Call

abbrev pub perform : {H : Type 0} → Engine H → Call → Action (World H) Unit
perform exec (register name password) = Users.register exec name password
perform exec (login sock name password) = Users.login exec sock name password
perform exec (remove_group effector code) = Groups.remove_group exec effector code
perform exec (add_user effector code name status) = Groups.add_user exec effector code name status
perform exec (remove_user effector code name) = Groups.remove_user exec effector code name
perform exec (set_user_status effector code name status) =
    Groups.set_user_status exec effector code name status
perform exec (add_item effector code item quantity remarks) =
    Lists.add_item exec effector code item quantity remarks
perform exec (remove_item effector code item) = Lists.remove_item exec effector code item
perform exec (update_item effector code key name quantity remarks) =
    Lists.update_item exec effector code key name quantity remarks

module _ {S A : Type 0} where
  -- An exception is an answer. What C++ leaves undefined, and a lock that is never free, end
  -- everything.
  abbrev pub settle : Outcome A × S → Outcome (Outcome A) × S
  settle (ok a, s) = (ok (ok a), s)
  settle (fails (thrown ex), s) = (ok (fails (thrown ex)), s)
  settle (fails standard, s) = (ok (fails standard), s)
  settle (fails out_of_bounds, s) = (fails out_of_bounds, s)
  settle (fails deadlock, s) = (fails deadlock, s)

  unfoldable pub attempt : Action S A → Action S (Outcome A)
  attempt m s = settle (m s)

  -- The answers of the calls, in order.
  abbrev pub session : {E : Type 0} → (E → Action S A) → List E → Action S (List (Outcome A))
  session serve [] = pure []
  session serve (c ∷ cs) = do
    answer ← attempt (serve c)
    answers ← session serve cs
    pure (answer ∷ answers)
