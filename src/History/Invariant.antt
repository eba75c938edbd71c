-- ===== src/History/Invariant.antt =====
-- Whatever is asked of the groups, one after another, the books stay consistent, and the database
-- does what the tables do.
use server_ilist.Prelude.{
  ℕ, arith, ◌≡◌, ◌≤◌, ◌+◌, ◌^◌, sym, ap, subst, ◌∙◌, some, none, List, [], ◌∷◌, All,
}
use server_ilist.Exception.{Outcome, ok, fails}
use server_ilist.Action.{Action, after, ◌>>=◌}
use server_ilist.World.{World}
use server_ilist.Database.{Engine}
use server_ilist.Sqlite.{Implements}
use server_ilist.Sqlite.Schema.{Tables}
use server_ilist.Sqlite.Spelled.{IsQuotable}
use server_ilist.Sqlite.Refines.{abs, lift_abs, ◌⊳◌, Refines-pure}
use server_ilist.Sqlite.Follows.{same-bind}
use server_ilist.Session.{settle, attempt, session}
use server_ilist.Session.Refinement.{perform-Refines, settle-lift_abs}
use server_ilist.Session.Invariant.{settle-same}
use server_ilist.History.{Event, create, call, enact, creations}
use server_ilist.History.Books.{IsConsistent}
use server_ilist.History.Creation.{create_group_same}
use server_ilist.History.Room.{
  enact_on_tables, IsSpelledEvent, IsReady, IsReady-IsFresh, IsReady-enact, after-pure,
}

module _ {H : Type 0} {exec : Engine H} {view : H → Tables} (law : Implements exec view) where
  -- An event on the database, and on the tables.
  enact_same :
      (e : Event) (es : List Event) (w : World H)
      → IsSpelledEvent e
      → IsReady (creations (e ∷ es)) (abs view w)
      → lift_abs view (enact exec e w) ≡ enact_on_tables e (abs view w)
  enact_same (create name admin) es w (named, clean) h =
      same-bind view _ _ _ _ w
        (create_group_same law name admin w named clean h.dated
          (IsReady-IsFresh (creations es) (abs view w) h))
        (λ a v e. (Refines-pure {view = view} (some a)).at v)
  enact_same (call c) es w spelled h = (perform-Refines law c spelled ⊳ λ u. Refines-pure none).at w

  attempt_same :
      (e : Event) (es : List Event) (w : World H)
      → IsSpelledEvent e
      → IsReady (creations (e ∷ es)) (abs view w)
      → lift_abs view (attempt (enact exec e) w) ≡ attempt (enact_on_tables e) (abs view w)
  unfolding attempt
  attempt_same e es w spelled h =
      settle-lift_abs law (enact exec e w) ∙ ap settle (enact_same e es w spelled h)

pub attempt-state : {S A : Type 0} (m : Action S A) (s : S) → (attempt m s).1 ≡ (m s).1
unfolding attempt
attempt-state m s = settle-same (m s)

IsReady-none : (n : ℕ) (w : World Tables) → IsReady n w → IsReady 0 w
IsReady-none n w h = record {
  consistent = h.consistent;
  room = omega (arith, h.room);
  dated = h.dated;
}

-- An attempt is the last event only if nobody is answered after it.
IsReady-after :
    {A : Type 0} (n : ℕ) (f : A → Action (World Tables) (List A)) (o : Outcome A) (w : World Tables)
    → IsReady n w
    → ((a : A) (v : World Tables) → IsReady n v → IsReady 0 (f a v).1)
    → IsReady 0 (after o f w).1
IsReady-after n f (ok a) w h k = k a w h
IsReady-after n f (fails x) w h k = IsReady-none n w h

IsReady-session :
    (es : List Event) (w : World Tables)
    → IsReady (creations es) w
    → IsReady 0 (session enact_on_tables es w).1
unfolding ◌>>=◌
IsReady-session [] w h = h
IsReady-session (e ∷ es) w h =
    IsReady-after (creations es) _ (attempt (enact_on_tables e) w).0
      (attempt (enact_on_tables e) w).1
      (rw (attempt-state (enact_on_tables e) w) (IsReady-enact e es w h))
      (λ answer v ready.
        rw (after-pure (λ answers. answer ∷ answers) _ _) (IsReady-session es v ready))

module _ {H : Type 0} {exec : Engine H} {view : H → Tables} (law : Implements exec view) where
  session_same :
      (es : List Event) (w : World H)
      → All IsSpelledEvent es
      → IsReady (creations es) (abs view w)
      → lift_abs view (session (enact exec) es w) ≡ session enact_on_tables es (abs view w)
  session_same [] w spelled h = (Refines-pure {view = view} []).at w
  session_same (e ∷ es) w (spelled, rest) h =
      same-bind view _ _ _ _ w (attempt_same law e es w spelled h) (λ answer v moved.
        same-bind view _ _ _ _ v
          (session_same es v rest (
            subst (IsReady (creations es))
              (sym (attempt-state (enact_on_tables e) (abs view w)) ∙ ap (λ p. p.1) moved)
              (IsReady-enact e es (abs view w) h)))
          (λ answers u ended. (Refines-pure {view = view} (answer ∷ answers)).at u))

  -- Calls one after another, group creations among them, on a database whose library behaves as
  -- documented and with arguments that are spelled as literals. The tables are consistent at first,
  -- that is, every member and every item belongs to a group that is there, every group's code is
  -- below the next one, and every group has at most four members, with one row each and counted by
  -- its column; SQLite has codes left for the groups to be created, and the day is spelled as a
  -- literal. Then the calls answer what the calls on the tables answer and leave the tables and the
  -- rest of the state as they do.
  pub history-same :
      (es : List Event) (w : World H)
      → All IsSpelledEvent es
      → IsConsistent (view w.db)
      → (view w.db).next_code + creations es ≤ 2 ^ 63
      → IsQuotable w.today
      → lift_abs view (session (enact exec) es w) ≡ session enact_on_tables es (abs view w)
  history-same es w spelled books room dated =
      session_same es w spelled (record { consistent = books; room = room; dated = dated })

  -- With the same hypotheses: the tables are consistent after the calls too, however each of them
  -- ends and whatever state the mutexes are in.
  pub history-IsConsistent :
      (es : List Event) (w : World H)
      → All IsSpelledEvent es
      → IsConsistent (view w.db)
      → (view w.db).next_code + creations es ≤ 2 ^ 63
      → IsQuotable w.today
      → IsConsistent (view (session (enact exec) es w).1.db)
  history-IsConsistent es w spelled books room dated =
      let ready : IsReady (creations es) (abs view w) = record {
        consistent = books;
        room = room;
        dated = dated;
      } in
      let e = ap (λ p. p.1.db) (session_same es w spelled ready) in
      subst IsConsistent (sym e) (IsReady-session es (abs view w) ready).consistent
