-- ===== src/History/Shows.antt =====
-- What leaves groups and members as they are: the parts that the calls of Users.cpp and
-- PublicLists.cpp are made of.
use server_ilist.Prelude.{◌≡◌, refl, ap, ◌∙◌, List, ℕ, arith}
use server_ilist.Text.{Text}
use server_ilist.Action.{modify, ◌>>=◌}
use server_ilist.Action.Keeps.{
  Keeps, ◌⊳◌, Keeps-pure, Keeps-fail, Keeps-gets, Keeps-lift, Keeps-if, Keeps-when,
}
use server_ilist.World.{World}
use server_ilist.Database.Mutex.{lock_lists, unlock_lists}
use server_ilist.Sqlite.Schema.{Tables, Group, Member}
use server_ilist.Sqlite.Language.{Statement}
use server_ilist.Sqlite.Effect.{effect}
use server_ilist.Sqlite.Language
use server_ilist.Sqlite.Refines.{run}
use server_ilist.Users.{add}

-- The groups, the members, the next code and the day are these.
pub record Shows (groups : List Group) (members : List Member) (next_code : ℕ) (today : Text)
    (w : World Tables) : Type 0 where
  pub same_groups : w.db.groups ≡ groups
  pub same_members : w.db.members ≡ members
  pub same_code : w.db.next_code ≡ next_code
  pub same_day : w.today ≡ today

abbrev books : Tables → List Group × List Member × ℕ
books t = (t.groups, t.members, t.next_code)

module _ (gs : List Group) (ms : List Member) (n : ℕ) (d : Text) where
  pub Shows-moved :
      (w w' : World Tables)
      → w'.db ≡ w.db
      → w'.today ≡ w.today
      → Shows gs ms n d w
      → Shows gs ms n d w'
  Shows-moved w w' e f h = record {
    same_groups = ap (λ t. t.groups) e ∙ h.same_groups;
    same_members = ap (λ t. t.members) e ∙ h.same_members;
    same_code = ap (λ t. t.next_code) e ∙ h.same_code;
    same_day = f ∙ h.same_day;
  }

  -- A statement that touches neither groups nor members.
  Keeps-run :
      (st : Statement)
      → ((t : Tables) → books (effect st t) ≡ books t)
      → Keeps (Shows gs ms n d) (run st)
  unfolding run
  Keeps-run st same = record {
    at = λ w h. record {
      same_groups = ap (λ b. b.0) (same w.db) ∙ h.same_groups;
      same_members = ap (λ b. b.1) (same w.db) ∙ h.same_members;
      same_code = ap (λ b. b.2) (same w.db) ∙ h.same_code;
      same_day = h.same_day;
    };
  }

  pub Keeps-lock_lists : Keeps (Shows gs ms n d) lock_lists
  unfolding lock_lists
  Keeps-lock_lists = record {
    at = λ w h. Shows-moved w (lock_lists w).1 (ground arith) (ground arith) h;
  }

  pub Keeps-unlock_lists : Keeps (Shows gs ms n d) unlock_lists
  unfolding unlock_lists
  Keeps-unlock_lists = record { at = λ w h. Shows-moved w _ refl refl h }

  pub Keeps-add :
      (sock : ℕ) (name : Text) → Keeps (Shows gs ms n d) (modify (add {H = Tables} sock name))
  unfolding ◌>>=◌ add
  Keeps-add sock name = record { at = λ w h. Shows-moved w _ refl refl h }

  pub Keeps-select_login : (u p : Text) → Keeps (Shows gs ms n d) (run (Language.select_login u p))
  unfolding effect
  Keeps-select_login u p = Keeps-run _ (λ t. refl)

  pub Keeps-select_register :
      (u : Text) → Keeps (Shows gs ms n d) (run (Language.select_register u))
  unfolding effect
  Keeps-select_register u = Keeps-run _ (λ t. refl)

  pub Keeps-insert_account :
      (u p : Text) → Keeps (Shows gs ms n d) (run (Language.insert_account u p))
  unfolding effect
  Keeps-insert_account u p = Keeps-run _ (λ t. refl)

  pub Keeps-select_member :
      (u c : Text) → Keeps (Shows gs ms n d) (run (Language.select_member u c))
  unfolding effect
  Keeps-select_member u c = Keeps-run _ (λ t. refl)

  pub Keeps-select_member_by_code :
      (c u : Text) → Keeps (Shows gs ms n d) (run (Language.select_member_by_code c u))
  unfolding effect
  Keeps-select_member_by_code c u = Keeps-run _ (λ t. refl)

  pub Keeps-select_item_key :
      (c i : Text) → Keeps (Shows gs ms n d) (run (Language.select_item_key c i))
  unfolding effect
  Keeps-select_item_key c i = Keeps-run _ (λ t. refl)

  pub Keeps-select_item : (c i : Text) → Keeps (Shows gs ms n d) (run (Language.select_item c i))
  unfolding effect
  Keeps-select_item c i = Keeps-run _ (λ t. refl)

  pub Keeps-select_quantity :
      (c i : Text) → Keeps (Shows gs ms n d) (run (Language.select_quantity c i))
  unfolding effect
  Keeps-select_quantity c i = Keeps-run _ (λ t. refl)

  pub Keeps-insert_item :
      (c i q r : Text) → Keeps (Shows gs ms n d) (run (Language.insert_item c i q r))
  unfolding effect
  Keeps-insert_item c i q r = Keeps-run _ (λ t. refl)

  pub Keeps-delete_item : (c i : Text) → Keeps (Shows gs ms n d) (run (Language.delete_item c i))
  unfolding effect
  Keeps-delete_item c i = Keeps-run _ (λ t. refl)

  pub Keeps-update_quantity :
      (q c i : Text) → Keeps (Shows gs ms n d) (run (Language.update_quantity q c i))
  unfolding effect
  Keeps-update_quantity q c i = Keeps-run _ (λ t. refl)

  pub Keeps-update_row :
      (i q r c k : Text) → Keeps (Shows gs ms n d) (run (Language.update_item i q r c k))
  unfolding effect
  Keeps-update_row i q r c k = Keeps-run _ (λ t. ground arith)

pub ruleset elsewhere = (
  Keeps-pure, Keeps-fail, Keeps-gets, Keeps-lift, Keeps-if, Keeps-when, ◌⊳◌, Keeps-lock_lists,
  Keeps-unlock_lists, Keeps-add, Keeps-select_login, Keeps-select_register, Keeps-insert_account,
  Keeps-select_member, Keeps-select_member_by_code, Keeps-select_item_key, Keeps-select_item,
  Keeps-select_quantity, Keeps-insert_item, Keeps-delete_item, Keeps-update_quantity,
  Keeps-update_row,
)
