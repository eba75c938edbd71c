-- ===== src/History/Creation.antt =====
-- createGroup of PublicGroup.cpp from whatever state of its mutex.
use server_ilist.Prelude.{◌≡◌, refl, sym, ap, ◌∙◌, true, false, ◌||◌, Bool-cases, inl, inr}
use server_ilist.Text.{Text}
use server_ilist.Text.Number.{nat_to_string}
use server_ilist.Exception.{ok, fails, deadlock}
use server_ilist.Action.{◌>>=◌}
use server_ilist.World.{World}
use server_ilist.Database.{Engine}
use server_ilist.Database.Mutex.{lock_groups, unlock_groups}
use server_ilist.Sqlite.{Implements}
use server_ilist.Sqlite.Schema.{Tables}
use server_ilist.Sqlite.Language.{insert_group, insert_admin}
use server_ilist.Sqlite.Effect.{effect}
use server_ilist.Sqlite.Spelled.{IsQuotable}
use server_ilist.Sqlite.Refines.{abs, lift_abs, run}
use server_ilist.Groups.{create_group}
use server_ilist.Groups.Spec.{create_group_on_tables}
use server_ilist.Groups.Create.{
  created, created_on_database, answer-newest, with_group-eq, effect-newest,
}
use server_ilist.Groups.Fresh.{IsFresh}

module _ (name admin : Text) (w : World Tables) where
  pub create_group_tables :
      w.groups_mtx.held ≡ false
      → IsFresh w.db
      → create_group_on_tables name admin w
        ≡ (ok (nat_to_string w.db.next_code), created name admin w)
  unfolding create_group_on_tables ◌>>=◌ lock_groups unlock_groups run
  create_group_tables unlocked fresh =
      rw (unlocked, answer-newest name admin w.today w.db fresh)
        (λ i. (
          ok (nat_to_string w.db.next_code),
          record w {
            db =
                (ap (effect (insert_admin (nat_to_string w.db.next_code) admin))
                      (effect-newest (effect (insert_group name admin w.today) w.db))
                    ∙ with_group-eq name admin w.today w.db fresh)
                  i;
            groups_mtx = record { held = false; misused = w.groups_mtx.misused || false };
          },
        ))

  pub create_group_stuck :
      w.groups_mtx.held ≡ true → create_group_on_tables name admin w ≡ (fails deadlock, w)
  unfolding create_group_on_tables ◌>>=◌ lock_groups
  create_group_stuck waits = rw waits refl

module _ {H : Type 0} {exec : Engine H} {view : H → Tables} (law : Implements exec view) where
  module _ (name admin : Text) (w : World H) where
    stuck_on_database :
        w.groups_mtx.held ≡ true
        → lift_abs view (create_group exec name admin w) ≡ (fails deadlock, abs view w)
    unfolding create_group ◌>>=◌ lock_groups
    stuck_on_database waits = rw waits refl

    -- The same on the database as on the tables.
    pub create_group_same :
        IsQuotable name
        → IsQuotable admin
        → IsQuotable w.today
        → IsFresh (view w.db)
        → lift_abs view (create_group exec name admin w)
          ≡ create_group_on_tables name admin (abs view w)
    create_group_same named clean dated fresh = elim (Bool-cases w.groups_mtx.held) [
      | inl waits ↦ stuck_on_database waits ∙ sym (create_group_stuck name admin (abs view w) waits)
      | inr unlocked ↦
          created_on_database law name admin w named clean dated unlocked fresh
          ∙ sym (create_group_tables name admin (abs view w) unlocked fresh)
    ]
