-- ===== src/Base/Fallible.antt =====
-- What a Go function with an error result returns: a value, or the error.
use mathlib.Core.Path.{◌≡◌, refl, ap}
use mathlib.Core.Option.{Option, none, some}

pub data Result (E A : Type 0) : Type 0 where
  ok : A → Result E A
  err : E → Result E A

infixl 5 ◌>>=◌
abbrev pub ◌>>=◌ : {E A B : Type 0} → Result E A → (A → Result E B) → Result E B
ok a >>= f = f a
err e >>= f = err e

-- `if err != nil { return _, false }`, and then b.
abbrev pub if_ok : {E A B : Type 0} → Result E A → B → Option B
if_ok (ok a) b = some b
if_ok (err e) b = none

pub ok_path : {E A : Type 0} {a b : A} → ◌≡◌ {A = Result E A} (ok a) (ok b) → a ≡ b
ok_path h = cc

pub pair_path :
    {A B : Type 0} {a c : A} {b d : B} → ◌≡◌ {A = A × B} (a, b) (c, d) → (a ≡ c) × (b ≡ d)
pair_path h = (ap (λ p. p.0) h, ap (λ p. p.1) h)

module _ {E A B C : Type 0} where
  pub >>=_assoc :
      (m : Result E A) (f : A → Result E B) (g : B → Result E C)
      → ((m >>= f) >>= g) ≡ (m >>= λ a. f a >>= g)
  >>=_assoc (ok a) f g = refl
  >>=_assoc (err e) f g = refl

module _ {E A B : Type 0} where
  -- Two chains with the same first step, and with the same rest after each of its results.
  pub >>=_same :
      (m : Result E A) (f g : A → Result E B) → ((a : A) → f a ≡ g a) → (m >>= f) ≡ (m >>= g)
  >>=_same (ok a) f g h = h a
  >>=_same (err e) f g h = refl

  -- A chain that succeeds has a first step that succeeds.
  pub >>=_ok :
      (m : Result E A) (f : A → Result E B) {b : B}
      → (m >>= f) ≡ ok b
      → (a : A) × (m ≡ ok a) × (f a ≡ ok b)
  >>=_ok (ok a) f h = (a, refl, h)
  >>=_ok (err e) f h = cc

pub ok_ne_err : {E A : Type 0} {a : A} {e : E} → ◌≡◌ {A = Result E A} (err e) (ok a) → ⊥
ok_ne_err h = cc
