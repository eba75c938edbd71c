-- ===== src/Session/Invariant.antt =====
-- Whatever calls are made, one after another, no member and no item is left without its group.
use server_ilist.Prelude.{none, ◌≡◌, refl, List, [], ◌∷◌, All, subst, sym, ap}
use server_ilist.Exception.{Outcome, ok, fails, thrown, standard, out_of_bounds, deadlock}
use server_ilist.Action.{Action}
use server_ilist.Action.Keeps.{Keeps, ◌⊳◌, Keeps-pure}
use server_ilist.World.{World}
use server_ilist.Database.{Engine}
use server_ilist.Sqlite.{Implements}
use server_ilist.Sqlite.Schema.{Tables}
use server_ilist.Sqlite.Refines.{abs}
use server_ilist.Session.{
  Call, register, login, remove_group, add_user, remove_user, set_user_status, add_item,
  remove_item, update_item, perform, settle, attempt, session,
}
use server_ilist.Session.Refinement.{on_tables, IsSpelled, session-Refines}
use server_ilist.Session.Foreign.{IsRooted}
use server_ilist.Session.Calls.{
  Keeps-register, Keeps-login, Keeps-remove_group, Keeps-add_user, Keeps-remove_user,
  Keeps-set_user_status, Keeps-add_item, Keeps-remove_item, Keeps-update_item,
}
use server_ilist.Session.Tables.{OnDb}

pub Keeps-on_tables : (c : Call) → Keeps (OnDb none) (on_tables c)
Keeps-on_tables (register name password) = Keeps-register name password
Keeps-on_tables (login sock name password) = Keeps-login sock name password
Keeps-on_tables (remove_group effector code) = Keeps-remove_group effector code
Keeps-on_tables (add_user effector code name status) = Keeps-add_user effector code name status
Keeps-on_tables (remove_user effector code name) = Keeps-remove_user effector code name
Keeps-on_tables (set_user_status effector code name status) =
    Keeps-set_user_status effector code name status
Keeps-on_tables (add_item effector code item quantity remarks) =
    Keeps-add_item effector code item quantity remarks
Keeps-on_tables (remove_item effector code item) = Keeps-remove_item effector code item
Keeps-on_tables (update_item effector code key name quantity remarks) =
    Keeps-update_item effector code key name quantity remarks

pub settle-same : {S A : Type 0} (r : Outcome A × S) → (settle r).1 ≡ r.1
settle-same (ok a, s) = refl
settle-same (fails (thrown ex), s) = refl
settle-same (fails standard, s) = refl
settle-same (fails out_of_bounds, s) = refl
settle-same (fails deadlock, s) = refl

Keeps-attempt :
    {m : Action (World Tables) Unit} → Keeps (OnDb none) m → Keeps (OnDb none) (attempt m)
unfolding attempt
Keeps-attempt {m} k = record { at = λ w h. subst (OnDb none) (sym (settle-same (m w))) (k.at w h) }

Keeps-session : (cs : List Call) → Keeps (OnDb none) (session on_tables cs)
Keeps-session [] = Keeps-pure []
Keeps-session (c ∷ cs) =
    Keeps-attempt (Keeps-on_tables c) ⊳ λ answer. Keeps-session cs ⊳ λ answers. Keeps-pure _

module _ {H : Type 0} {exec : Engine H} {view : H → Tables} (law : Implements exec view) where
  -- Calls one after another, on a database whose library behaves as documented and with arguments
  -- that are spelled as literals: when every member and every item belongs to a group that is
  -- there, they do so after the calls, however each of them ends.
  pub session-IsRooted :
      (cs : List Call) (w : World H)
      → All IsSpelled cs
      → IsRooted (view w.db)
      → IsRooted (view (session (perform exec) cs w).1.db)
  session-IsRooted cs w spelled h =
      let e = (session-Refines law cs spelled).at w in
      subst (OnDb none) (sym (ap (λ p. p.1) e)) ((Keeps-session cs).at (abs view w) h)
