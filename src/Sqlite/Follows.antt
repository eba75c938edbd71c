-- ===== src/Sqlite/Follows.antt =====
-- Refinement from one state, where the second call may rely on what the first leaves behind.
use server_ilist.Prelude.{◌≡◌, refl, ap, sym, ◌∙◌}
use server_ilist.Exception.{Outcome, ok, fails}
use server_ilist.Action.{Action, after, ◌>>=◌}
use server_ilist.World.{World}
use server_ilist.Sqlite.Schema.{Tables}
use server_ilist.Sqlite.Refines.{abs, lift_abs}

module _ {H : Type 0} (view : H → Tables) {A B : Type 0} where
  same-after :
      (f : A → Action (World H) B) (f' : A → Action (World Tables) B) (r : Outcome A × World Tables)
      → ((a : A) (v : World H) → r ≡ (ok a, abs view v) → lift_abs view (f a v) ≡ f' a (abs view v))
      → (o : Outcome A) (v : World H) → r ≡ (o, abs view v)
      → lift_abs view (after o f v) ≡ after o f' (abs view v)
  same-after f f' r k (ok a) v e = k a v e
  same-after f f' r k (fails x) v e = refl

  -- One call after another, where the second may rely on what the first answers and leaves behind.
  pub same-bind :
      (m : Action (World H) A) (m' : Action (World Tables) A) (f : A → Action (World H) B)
      (f' : A → Action (World Tables) B) (w : World H)
      → lift_abs view (m w) ≡ m' (abs view w)
      → ((a : A) (v : World H)
          → m' (abs view w) ≡ (ok a, abs view v)
          → lift_abs view (f a v) ≡ f' a (abs view v))
      → lift_abs view ((m >>= f) w) ≡ (m' >>= f') (abs view w)
  unfolding ◌>>=◌
  same-bind m m' f f' w e k =
      same-after f f' (m' (abs view w)) k (m w).0 (m w).1 (sym e)
      ∙ ap (λ (p : Outcome A × World Tables). after p.0 f' p.1) e

  here-after :
      (f : A → Action (World H) B) (f' : A → Action (World Tables) B) (r : Outcome A × World Tables)
      (o : Outcome A) (v : World H)
      → r ≡ (o, abs view v)
      → ((a : A) → r ≡ (ok a, abs view v) → lift_abs view (f a v) ≡ f' a (abs view v))
      → lift_abs view (after o f v) ≡ after o f' (abs view v)
  here-after f f' r (ok a) v e k = k a e
  here-after f f' r (fails x) v e k = refl

  -- The same, where the second need only do so on the state that the first leaves.
  pub same-bind-there :
      (m : Action (World H) A) (m' : Action (World Tables) A) (f : A → Action (World H) B)
      (f' : A → Action (World Tables) B) (w : World H)
      → lift_abs view (m w) ≡ m' (abs view w)
      → ((a : A)
          → m' (abs view w) ≡ (ok a, abs view (m w).1)
          → lift_abs view (f a (m w).1) ≡ f' a (abs view (m w).1))
      → lift_abs view ((m >>= f) w) ≡ (m' >>= f') (abs view w)
  unfolding ◌>>=◌
  same-bind-there m m' f f' w e k =
      here-after f f' (m' (abs view w)) (m w).0 (m w).1 (sym e) k
      ∙ ap (λ (p : Outcome A × World Tables). after p.0 f' p.1) e

  pub same-bind-here :
      (m : Action (World H) A) (m' : Action (World Tables) A) (f : A → Action (World H) B)
      (f' : A → Action (World Tables) B) (w : World H)
      → lift_abs view (m w) ≡ m' (abs view w)
      → ((a : A) → lift_abs view (f a (m w).1) ≡ f' a (abs view (m w).1))
      → lift_abs view ((m >>= f) w) ≡ (m' >>= f') (abs view w)
  same-bind-here m m' f f' w e k = same-bind-there m m' f f' w e (λ a got. k a)
