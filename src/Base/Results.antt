-- ===== src/Base/Results.antt =====
-- A result or an error, and the chain of calls that stops at the first error.
use mathlib.Core.Path.{◌≡◌, refl}
use mathlib.Core.Option.{Option, none, some}
use native.Mathlib.Omega.{arith}

pub data Result {ℓ κ} (E : Type ℓ) (A : Type κ) : Type (ℓ ⊔ κ) where
  ok : A → Result E A
  error : E → Result E A

infixl 5 ◌>>=◌
abbrev pub ◌>>=◌ {ℓ κ μ} :
    {E : Type ℓ} {A : Type κ} {B : Type μ} → Result E A → (A → Result E B) → Result E B
Result.error e >>= f = Result.error e
Result.ok a >>= f = f a

-- A chain that gives a result passed through a result of its first call.
pub bind-eq-ok {ℓ κ μ} :
    {E : Type ℓ} {A : Type κ} {B : Type μ} (m : Result E A) (f : A → Result E B) {b : B}
    → (m >>= f) ≡ Result.ok b
    → (a : A) × (m ≡ Result.ok a) × (f a ≡ Result.ok b)
bind-eq-ok (Result.error e) f h = cc
bind-eq-ok (Result.ok a) f h = (a, refl, h)

-- An `Option` whose `none` is an error of the caller.
abbrev pub or_error {ℓ κ} : {E : Type ℓ} {A : Type κ} → Option A → E → Result E A
or_error none e = Result.error e
or_error (some a) e = Result.ok a

pub or_error-eq-ok {ℓ κ} :
    {E : Type ℓ} {A : Type κ} (o : Option A) (e : E) {a : A}
    → or_error o e ≡ Result.ok a
    → o ≡ some a
or_error-eq-ok none e h = cc
or_error-eq-ok (some b) e h = ground (arith, h)

pub ok-inj {ℓ κ} :
    {E : Type ℓ} {A : Type κ} {a b : A} → ◌≡◌ {A = Result E A} (Result.ok a) (Result.ok b) → a ≡ b
ok-inj {E} {A} {a} {b} h = cc
