-- ===== src/Base/Calls.antt =====
-- Calls on a locked state: a call may fail, and what it wrote before stays written. The lock makes
-- each call one step on the state. `Problem` is that of internal/domain/errors.go.
use Prim.Native.String.{String}
use mathlib.Core.Bool.{Bool, true, false}
use mathlib.Core.Option.{Option, none, some}
use mathlib.Core.Path.{◌≡◌, refl}
use mathlib.Core.Logic.{◌⊎◌, inl, inr}

-- `Problem`, without the text that is shown to the user.
pub record Problem : Type 0 where
  pub code : String
  pub retryable : Bool

pub data Result {ℓ} (A : Type ℓ) : Type ℓ where
  ok : A → Result A
  err : Problem → Result A

pub Result-cases {ℓ} :
    {A : Type ℓ} (r : Result A) → ((a : A) × (r ≡ ok a)) ⊎ ((p : Problem) × (r ≡ err p))
Result-cases (ok a) = inl (a, refl)
Result-cases (err p) = inr (p, refl)

abbrev pub problem : String → Bool → Problem
problem code retryable = record { code = code; retryable = retryable }

abbrev pub or_problem {ℓ} : {A : Type ℓ} → Option A → Problem → Result A
or_problem none p = err p
or_problem (some a) p = ok a

abbrev pub Call : Type 0 → Type 0 → Type 0
Call S A = S → Result A × S

module _ {S A : Type 0} where
  unfoldable pub pure : A → Call S A
  pure a s = (ok a, s)

  unfoldable pub raise : Problem → Call S A
  raise p s = (err p, s)

  unfoldable pub lift : Result A → Call S A
  lift r s = (r, s)

  unfoldable pub gets : (S → A) → Call S A
  gets f s = (ok (f s), s)

module _ {S : Type 0} where
  unfoldable pub modify : (S → S) → Call S (Unit {0})
  modify f s = (ok tt, f s)

  -- `if !test { return problem }`
  unfoldable pub require : Bool → Problem → Call S (Unit {0})
  unfolding pure raise
  require true p = pure tt
  require false p = raise p

module _ {S A B : Type 0} where
  abbrev pub continue : Result A → (A → Call S B) → Call S B
  continue (ok a) f s = f a s
  continue (err p) f s = (err p, s)

  infixl 5 ◌>>=◌
  -- Opening this opens the steps too.
  unfoldable pub ◌>>=◌ : Call S A → (A → Call S B) → Call S B
  unfolding pure raise lift gets modify
  ◌>>=◌ m f s = let (r, s') = m s in continue r f s'

infixl 5 ◌>>◌
abbrev pub ◌>>◌ : {S B : Type 0} → Call S (Unit {0}) → Call S B → Call S B
m >> k = m >>= λ _. k
