-- ===== src/Action.antt =====
-- Calls that change a state and may fail. What was written before a failure stays written, so the
-- state comes back in every case.
pub mod Keeps
pub mod Commutes
use server_ilist.Prelude.{◌≡◌, refl, ℕ, Bool, Option, none, some, List, get_elem?, if◌then◌else◌}
use server_ilist.Exception.{Exception, Failure, thrown, out_of_bounds, Outcome, ok, fails}

abbrev pub Action : Type 0 → Type 0 → Type 0
Action S A = S → Outcome A × S

abbrev pub found : {A : Type 0} → Failure → Option A → Outcome A
found f none = fails f
found f (some a) = ok a

module _ {S A : Type 0} where
  pub pure : A → Action S A
  pure a s = (ok a, s)

  pub fail : Failure → Action S A
  fail f s = (fails f, s)

  abbrev pub throw : Exception → Action S A
  throw e = fail (thrown e)

  pub gets : (S → A) → Action S A
  gets f s = (ok (f s), s)

  -- The outcome of a call that changes nothing.
  pub lift : Outcome A → Action S A
  lift r s = (r, s)

  abbrev pub or_fail : Failure → Option A → Action S A
  or_fail f o = lift (found f o)

-- `v[i]`, undefined past the end
abbrev pub subscript : {S A : Type 0} → List A → ℕ → Action S A
subscript xs i = or_fail out_of_bounds (get_elem? xs i)

pub modify : {S : Type 0} → (S → S) → Action S (Unit {0})
modify f s = (ok tt, f s)

abbrev pub after : {S A B : Type 0} → Outcome A → (A → Action S B) → Action S B
after (ok a) f s = f a s
after (fails e) f s = (fails e, s)

infixl 5 ◌>>=◌ ◌>>◌
-- Opening this opens the calls above too.
unfoldable pub ◌>>=◌ : {S A B : Type 0} → Action S A → (A → Action S B) → Action S B
unfolding pure fail gets lift modify
◌>>=◌ m f s = after (m s).0 f (m s).1

abbrev pub ◌>>◌ : {S A B : Type 0} → Action S A → Action S B → Action S B
m >> k = m >>= λ _. k

-- A statement under `if` with no `else`.
abbrev pub when : {S : Type 0} → Bool → Action S (Unit {0}) → Action S (Unit {0})
when b m = if b then m else pure tt

module _ {S A B C : Type 0} (f : A → Action S B) (g : B → Action S C) where
  after_assoc :
      (o : Outcome A) (s : S) → after (after o f s).0 g (after o f s).1 ≡ after o (λ a. f a >>= g) s
  unfolding ◌>>=◌
  after_assoc (ok a) s = refl
  after_assoc (fails e) s = refl

  pub bind_assoc : (m : Action S A) (s : S) → ((m >>= f) >>= g) s ≡ (m >>= λ a. f a >>= g) s
  unfolding ◌>>=◌
  bind_assoc m s = after_assoc (m s).0 (m s).1
