-- ===== src/Prelude/Result.antt =====
-- Exceptions as values: a computation returns a value, or stops with the error that was thrown.
use mathlib.Core.Path.{◌≡◌, subst}
use mathlib.Core.Bool.{Bool, true, false}

pub data Result {ℓ κ} (E : Type ℓ) (A : Type κ) : Type (ℓ ⊔ κ) where
  ok : A → Result E A
  err : E → Result E A

infixl 5 ◌>>=◌ ◌>>◌
abbrev pub ◌>>=◌ {ℓ κ μ} :
    {E : Type ℓ} {A : Type κ} {B : Type μ} → Result E A → (A → Result E B) → Result E B
ok a >>= f = f a
err e >>= f = err e

abbrev pub ◌>>◌ {ℓ κ} : {E : Type ℓ} {B : Type κ} → Result E (Unit {0}) → Result E B → Result E B
m >> k = m >>= λ _. k

abbrev pub throw_if {ℓ} : {E : Type ℓ} → Bool → E → Result E (Unit {0})
throw_if true e = err e
throw_if false e = ok tt

pub ok-injective {ℓ κ} :
    {E : Type ℓ} {A : Type κ} (a b : A) → ◌≡◌ {A = Result E A} (ok a) (ok b) → a ≡ b
ok-injective a b e = cc

abbrev pub is_ok {ℓ κ} : {E : Type ℓ} {A : Type κ} → Result E A → Bool
is_ok (ok a) = true
is_ok (err e) = false

-- A property of the value, if there is one.
abbrev pub OnOk {ℓ κ μ} : {E : Type ℓ} {A : Type κ} → (A → Type μ) → Result E A → Type μ
OnOk P (ok a) = P a
OnOk P (err e) = Unit

pub OnOk-bind {ℓ κ λ' μ ν} :
    {E : Type ℓ} {A : Type κ} {B : Type λ'} (Q : A → Type μ) (P : B → Type ν) (m : Result E A)
    (f : A → Result E B)
    → OnOk Q m
    → ((a : A) → Q a → OnOk P (f a))
    → OnOk P (m >>= f)
OnOk-bind Q P (ok a) f h k = k a h
OnOk-bind Q P (err e) f h k = tt

-- Where nothing is known of the first step.
pub OnOk-any {ℓ κ λ' μ} :
    {E : Type ℓ} {A : Type κ} {B : Type λ'} (P : B → Type μ) (m : Result E A) (f : A → Result E B)
    → ((a : A) → OnOk P (f a))
    → OnOk P (m >>= f)
OnOk-any P (ok a) f k = k a
OnOk-any P (err e) f k = tt

pub OnOk-imp {ℓ κ μ ν} :
    {E : Type ℓ} {A : Type κ} (Q : A → Type μ) (P : A → Type ν) (m : Result E A)
    → OnOk Q m
    → ((a : A) → Q a → P a)
    → OnOk P m
OnOk-imp Q P (ok a) h k = k a h
OnOk-imp Q P (err e) h k = tt

pub OnOk-elim {ℓ κ μ} :
    {E : Type ℓ} {A : Type κ} (P : A → Type μ) (m : Result E A) (a : A) → m ≡ ok a → OnOk P m → P a
OnOk-elim P m a e h = subst (OnOk P) e h
