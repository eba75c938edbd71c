-- ===== src/History.antt =====
-- Calls of PublicGroup.cpp, createGroup with them, of Users.cpp and of PublicLists.cpp, one after
-- another.
pub mod Lists
pub mod Alike
pub mod Books
pub mod Misuse
pub mod FreeCalls
pub mod Carries
pub mod GroupCalls
pub mod OtherCalls
pub mod Shows
pub mod Creation
pub mod Room
pub mod Invariant
pub mod Answers
pub mod Outcomes
pub mod Replies
use server_ilist.Prelude.{ℕ, suc, Option, none, some, List, [], ◌∷◌}
use server_ilist.Text.{Text}
use server_ilist.Action.{Action, pure, ◌>>=◌, ◌>>◌}
use server_ilist.World.{World}
use server_ilist.Database.{Engine}
use server_ilist.Groups.{create_group}
use server_ilist.Session.{Call, perform}

pub data Event : Type 0 where
  create : Text → Text → Event
  call : Call → Event

-- A group's creation answers its code.
abbrev pub enact : {H : Type 0} → Engine H → Event → Action (World H) (Option Text)
enact exec (create group_name admin_name) = do
  code ← create_group exec group_name admin_name
  pure (some code)
enact exec (call c) = do perform exec c; pure none

-- How many groups are asked for.
abbrev pub creations : List Event → ℕ
creations [] = 0
creations (create group_name admin_name ∷ es) = suc (creations es)
creations (call c ∷ es) = creations es
