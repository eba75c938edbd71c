-- ===== src/Action/Commutes.antt =====
-- Calls that a change of the state passes by: what is done before the call or after it is the same.
-- One rule for each way to build a call.
use server_ilist.Prelude.{◌≡◌, refl, ap, ◌∙◌, Bool, true, false, if◌then◌else◌}
use server_ilist.Exception.{Failure, Outcome, ok, fails}
use server_ilist.Action.{Action, pure, fail, lift, after, when, ◌>>=◌}

abbrev pub changed : {S A : Type 0} → (S → S) → Outcome A × S → Outcome A × S
changed φ p = (p.0, φ p.1)

pub record Commutes {S A : Type 0} (φ : S → S) (m : Action S A) : Type 0 where
  pub at : (s : S) → m (φ s) ≡ changed φ (m s)

module _ {S A : Type 0} {φ : S → S} where
  pub Commutes-pure : (a : A) → Commutes φ (pure a)
  unfolding ◌>>=◌
  Commutes-pure a = record { at = λ s. refl }

  pub Commutes-fail : (f : Failure) → Commutes φ (fail {A = A} f)
  unfolding ◌>>=◌
  Commutes-fail f = record { at = λ s. refl }

  pub Commutes-lift : (r : Outcome A) → Commutes φ (lift r)
  unfolding ◌>>=◌
  Commutes-lift r = record { at = λ s. refl }

  pub Commutes-if :
      (b : Bool) {m n : Action S A} → Commutes φ m → Commutes φ n → Commutes φ (if b then m else n)
  Commutes-if true cm cn = cm
  Commutes-if false cm cn = cn

module _ {S : Type 0} {φ : S → S} where
  pub Commutes-when : (b : Bool) {m : Action S Unit} → Commutes φ m → Commutes φ (when b m)
  Commutes-when b cm = Commutes-if b cm (Commutes-pure tt)

module _ {S A B : Type 0} {φ : S → S} where
  Commutes-after :
      {f : A → Action S B}
      → ((a : A) → Commutes φ (f a))
      → (o : Outcome A) (s : S) → after o f (φ s) ≡ changed φ (after o f s)
  Commutes-after cf (ok a) s = (cf a).at s
  Commutes-after cf (fails e) s = refl

  infixr 5 ◌⊳◌
  pub ◌⊳◌ :
      {m : Action S A} {f : A → Action S B}
      → Commutes φ m
      → ((a : A) → Commutes φ (f a))
      → Commutes φ (m >>= f)
  unfolding ◌>>=◌
  ◌⊳◌ {m} {f} cm cf = record {
    at = λ s.
        ap (λ (p : Outcome A × S). after p.0 f p.1) (cm.at s) ∙ Commutes-after cf (m s).0 (m s).1;
  }
