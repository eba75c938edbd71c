-- ===== src/Action/Keeps.antt =====
-- Properties of the state that a call keeps, however it ends. One rule for each way to build a
-- call.
use server_ilist.Prelude.{Bool, true, false, if◌then◌else◌}
use server_ilist.Exception.{Failure, Outcome, ok, fails}
use server_ilist.Action.{Action, pure, fail, gets, lift, after, when, ◌>>=◌}

pub record Keeps {S A : Type 0} (P : S → Type 0) (m : Action S A) : Type 0 where
  pub at : (s : S) → P s → P (m s).1

module _ {S A : Type 0} {P : S → Type 0} where
  pub Keeps-pure : (a : A) → Keeps P (pure a)
  unfolding ◌>>=◌
  Keeps-pure a = record { at = λ s h. h }

  pub Keeps-fail : (f : Failure) → Keeps P (fail {A = A} f)
  unfolding ◌>>=◌
  Keeps-fail f = record { at = λ s h. h }

  pub Keeps-gets : (f : S → A) → Keeps P (gets f)
  unfolding ◌>>=◌
  Keeps-gets f = record { at = λ s h. h }

  pub Keeps-lift : (r : Outcome A) → Keeps P (lift r)
  unfolding ◌>>=◌
  Keeps-lift r = record { at = λ s h. h }

  pub Keeps-if :
      (b : Bool) {m n : Action S A} → Keeps P m → Keeps P n → Keeps P (if b then m else n)
  Keeps-if true km kn = km
  Keeps-if false km kn = kn

  -- Under a test of the state.
  pub Keeps-while :
      (test : S → Bool) {m n : Action S A}
      → Keeps P m
      → Keeps P n
      → Keeps P (λ s. if test s then m s else n s)
  Keeps-while test {m = m} {n = n} km kn = record { at = λ s h. at-while (test s) s h }
    where
      at-while : (b : Bool) (s : S) → P s → P (if b then m s else n s).1
      at-while true s h = km.at s h
      at-while false s h = kn.at s h

module _ {S : Type 0} {P : S → Type 0} where
  pub Keeps-when : (b : Bool) {m : Action S Unit} → Keeps P m → Keeps P (when b m)
  Keeps-when b km = Keeps-if b km (Keeps-pure tt)

module _ {S A B : Type 0} {P : S → Type 0} where
  Keeps-after :
      {f : A → Action S B}
      → ((a : A) → Keeps P (f a))
      → (o : Outcome A) (s : S) → P s
      → P (after o f s).1
  Keeps-after kf (ok a) s h = (kf a).at s h
  Keeps-after kf (fails e) s h = h

  infixr 5 ◌⊳◌
  pub ◌⊳◌ :
      {m : Action S A} {f : A → Action S B}
      → Keeps P m
      → ((a : A) → Keeps P (f a))
      → Keeps P (m >>= f)
  unfolding ◌>>=◌
  ◌⊳◌ {m} km kf = record { at = λ s h. Keeps-after kf (m s).0 (m s).1 (km.at s h) }
