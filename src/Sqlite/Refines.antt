-- ===== src/Sqlite/Refines.antt =====
-- A call on a state of the SQLite library refines a call on the tables, when the two agree under
-- the view of that state as tables. One rule for each way to build a call.
use server_ilist.Prelude.{◌≡◌, refl, Bool, true, false, not, if◌then◌else◌, ap, arith, ◌∙◌}
use server_ilist.Exception.{Exception, thrown, Failure, Outcome, ok, fails}
use server_ilist.Action.{gets, modify, Action, pure, fail, lift, throw, when, after, ◌>>◌, ◌>>=◌}
use server_ilist.World.{World, Rows}
use server_ilist.Database.{Engine, query}
use server_ilist.Database.Mutex.{lock_groups, unlock_groups, lock_lists, unlock_lists}
use server_ilist.Sqlite.{Implements}
use server_ilist.Sqlite.Schema.{Tables}
use server_ilist.Sqlite.Language.{Statement, sql, answer}
use server_ilist.Sqlite.Effect.{effect}
use server_ilist.Sqlite.Spelled.{IsClean, IsListing}

-- The statement run on the tables.
unfoldable pub run : Statement → Action (World Tables) Rows
run st w = (ok (answer st w.db), record w { db = effect st w.db })

module _ {H : Type 0} (view : H → Tables) where
  abbrev pub abs : World H → World Tables
  abs w = record {
    db = view w.db;
    online_users = w.online_users;
    online_users_opposite = w.online_users_opposite;
    groups_mtx = w.groups_mtx;
    lists_mtx = w.lists_mtx;
    restore = w.restore;
    server = w.server;
    threads = w.threads;
    today = w.today;
  }

  abbrev pub lift_abs : {A : Type 0} → Outcome A × World H → Outcome A × World Tables
  lift_abs p = (p.0, abs p.1)

  pub record Refines {A : Type 0} (m : Action (World H) A) (m' : Action (World Tables) A)
      : Type 0 where
    pub at : (w : World H) → lift_abs (m w) ≡ m' (abs w)

module _ {H : Type 0} {view : H → Tables} {A : Type 0} where
  pub Refines-pure : (a : A) → Refines view (pure a) (pure a)
  unfolding ◌>>=◌
  Refines-pure a = record { at = λ w. refl }

  pub Refines-fail : (f : Failure) → Refines view (fail {A = A} f) (fail f)
  unfolding ◌>>=◌
  Refines-fail f = record { at = λ w. refl }

  pub Refines-lift : (r : Outcome A) → Refines view (lift r) (lift r)
  unfolding ◌>>=◌
  Refines-lift r = record { at = λ w. refl }

  -- A function of the parts that the two states share.
  pub Refines-gets :
      (f : World H → A) (f' : World Tables → A)
      → ((w : World H) → f w ≡ f' (abs view w))
      → Refines view (gets f) (gets f')
  unfolding ◌>>=◌
  Refines-gets f f' h = record { at = λ w. λ i. (ok (h w i), abs view w) }

  pub Refines-if :
      (b : Bool) {m n : Action (World H) A} {m' n' : Action (World Tables) A}
      → Refines view m m'
      → Refines view n n'
      → Refines view (if b then m else n) (if b then m' else n')
  Refines-if true rm rn = rm
  Refines-if false rm rn = rn

module _ {H : Type 0} {view : H → Tables} where
  pub Refines-modify :
      (f : World H → World H) (f' : World Tables → World Tables)
      → ((w : World H) → abs view (f w) ≡ f' (abs view w))
      → Refines view (modify f) (modify f')
  unfolding ◌>>=◌
  Refines-modify f f' h = record { at = λ w. λ i. (ok tt, h w i) }

  pub Refines-lock_groups : Refines view lock_groups lock_groups
  unfolding lock_groups
  Refines-lock_groups = record { at = λ w. ground arith }

  pub Refines-unlock_groups : Refines view unlock_groups unlock_groups
  unfolding unlock_groups
  Refines-unlock_groups = record { at = λ w. refl }

  -- A statement under `if` with no `else`.
  pub Refines-when :
      (b : Bool) {m : Action (World H) Unit} {m' : Action (World Tables) Unit}
      → Refines view m m'
      → Refines view (when b m) (when b m')
  Refines-when b rm = Refines-if b rm (Refines-pure tt)

  pub Refines-lock_lists : Refines view lock_lists lock_lists
  unfolding lock_lists
  Refines-lock_lists = record { at = λ w. ground arith }

  pub Refines-unlock_lists : Refines view unlock_lists unlock_lists
  unfolding unlock_lists
  Refines-unlock_lists = record { at = λ w. refl }

module _ {H : Type 0} {view : H → Tables} {A B : Type 0} where
  Refines-after :
      (f : A → Action (World H) B) (f' : A → Action (World Tables) B)
      → ((a : A) → Refines view (f a) (f' a))
      → (o : Outcome A) (w : World H) → lift_abs view (after o f w) ≡ after o f' (abs view w)
  Refines-after f f' rf (ok a) w = (rf a).at w
  Refines-after f f' rf (fails e) w = refl

  -- One call after another.
  infixr 5 ◌⊳◌
  pub ◌⊳◌ :
      {m : Action (World H) A} {m' : Action (World Tables) A} {f : A → Action (World H) B}
      {f' : A → Action (World Tables) B}
      → Refines view m m'
      → ((a : A) → Refines view (f a) (f' a))
      → Refines view (m >>= f) (m' >>= f')
  unfolding ◌>>=◌
  ◌⊳◌ {m} {m'} {f} {f'} rm rf = record {
    at = λ w.
        Refines-after f f' rf (m w).0 (m w).1
        ∙ ap (λ (p : Outcome A × World Tables). after p.0 f' p.1) (rm.at w);
  }

module _ {H : Type 0} {view : H → Tables} where
  -- A guard of PublicGroup: the mutex is released and an exception thrown.
  pub Refines-guard_groups :
      (b : Bool) (e : Exception)
      → Refines view (when b (do unlock_groups; throw e)) (when b (do unlock_groups; throw e))
  Refines-guard_groups b e = Refines-when b (Refines-unlock_groups ⊳ λ _. Refines-fail (thrown e))

  -- A guard of PublicLists.
  pub Refines-guard_lists :
      (b : Bool) (e : Exception)
      → Refines view (when b (do unlock_lists; throw e)) (when b (do unlock_lists; throw e))
  Refines-guard_lists b e = Refines-when b (Refines-unlock_lists ⊳ λ _. Refines-fail (thrown e))

  -- A guard after which the rest may rely on its condition.
  pub Refines-checked_lists :
      (b : Bool) (e : Exception) {m : Action (World H) Unit} {m' : Action (World Tables) Unit}
      → (b ≡ true → Refines view m m')
      → Refines view
          (when (not b) (do unlock_lists; throw e) >> m)
          (when (not b) (do unlock_lists; throw e) >> m')
  unfolding ◌>>=◌ unlock_lists
  Refines-checked_lists true e r = record { at = λ w. (r refl).at w }
  Refines-checked_lists false e r = record { at = λ w. refl }

module _ {H : Type 0} {exec : Engine H} {view : H → Tables} (law : Implements exec view) where
  pub Refines-query : (st : Statement) → IsClean st → Refines view (query exec (sql st)) (run st)
  unfolding query run
  Refines-query st clean = record {
    at = λ w. λ i. (
      ok (law.answers st w.db clean i),
      record (abs view w) { db = law.effects st w.db clean i },
    );
  }

  -- The world after a query.
  abbrev pub asked : Statement → World H → World H
  asked st w = record w { db = (exec (sql st) w.db).1 }

  pub query-answer :
      (st : Statement) (w : World H)
      → IsClean st
      → query exec (sql st) w ≡ (ok (answer st (view w.db)), asked st w)
  unfolding query
  query-answer st w clean = rw (law.answers st w.db clean) refl

  -- The same for a statement that lists rows.
  pub query-lists :
      (st : Statement) (w : World H)
      → IsListing st
      → query exec (sql st) w ≡ (ok (answer st (law.arranged st w.db)), asked st w)
  unfolding query
  query-lists st w clean = rw (law.lists st w.db clean) refl

  pub abs-listed :
      (st : Statement) (w : World H) → IsListing st → abs view (asked st w) ≡ abs view w
  abs-listed st w clean = λ i. record (abs view w) { db = law.lists_only st w.db clean i }

  pub view-asked :
      (st : Statement) (w : World H)
      → IsClean st
      → effect st (view w.db) ≡ view w.db
      → view (asked st w).db ≡ view w.db
  view-asked st w clean same = law.effects st w.db clean ∙ same
