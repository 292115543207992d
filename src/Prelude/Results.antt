-- ===== src/Prelude/Results.antt =====
-- Rust's `Result` with its `?`, signed integers, and checked arithmetic.
use Prim.Native.Nat.{ℕ}
use mathlib.Core.Path.{◌≡◌, refl}
use mathlib.Core.Bool.{Bool, true, false}
use mathlib.Core.Option.{Option, none, some}
use order_book.Prelude.Tests.{ltb, if◌then◌else◌}

pub data Result {ℓ κ} (E : Type ℓ) (A : Type κ) : Type (ℓ ⊔ κ) where
  ok : A → Result E A
  err : E → Result E A

infixl 5 ◌>>=◌ ◌>>◌
abbrev pub ◌>>=◌ {ℓ κ μ} :
    {E : Type ℓ} {A : Type κ} {B : Type μ} → Result E A → (A → Result E B) → Result E B
ok a >>= f = f a
err e >>= f = err e

abbrev pub ◌>>◌ {ℓ κ} : {E : Type ℓ} {B : Type κ} → Result E (Unit {0}) → Result E B → Result E B
m >> k = m >>= λ _. k

-- `if !test { return Err(e) }`
abbrev pub guard {ℓ} : {E : Type ℓ} → Bool → E → Result E (Unit {0})
guard true e = ok tt
guard false e = err e

-- `Option::ok_or`
abbrev pub ok_or {ℓ κ} : {E : Type ℓ} {A : Type κ} → Option A → E → Result E A
ok_or none e = err e
ok_or (some a) e = ok a

-- What holds of the value, when there is one.
abbrev pub OnOk {ℓ κ μ} : {E : Type ℓ} {A : Type κ} → (A → Type μ) → Result E A → Type μ
OnOk P (ok a) = P a
OnOk P (err e) = Unit

pub OnOk-bind {ℓ κ μ ν ξ} :
    {E : Type ℓ} {A : Type κ} {B : Type μ} {P : A → Type ν} (Q : B → Type ξ) (m : Result E A)
    (f : A → Result E B)
    → OnOk P m
    → ((a : A) → P a → OnOk Q (f a))
    → OnOk Q (m >>= f)
OnOk-bind Q (ok a) f h k = k a h
OnOk-bind Q (err e) f h k = tt

pub OnOk-map {ℓ κ μ ν} :
    {E : Type ℓ} {A : Type κ} {P : A → Type μ} {Q : A → Type ν} (m : Result E A)
    → ((a : A) → P a → Q a)
    → OnOk P m
    → OnOk Q m
OnOk-map (ok a) f h = f a h
OnOk-map (err e) f h = tt

pub OnOk-both {ℓ κ μ ν} :
    {E : Type ℓ} {A : Type κ} (P : A → Type μ) (Q : A → Type ν) (m : Result E A)
    → OnOk P m
    → OnOk Q m
    → OnOk (λ a. P a × Q a) m
OnOk-both P Q (ok a) h k = (h, k)
OnOk-both P Q (err e) h k = tt

pub OnOk-ok_or {ℓ κ} :
    {E : Type ℓ} {A : Type κ} (o : Option A) (e : E) → OnOk (λ a. o ≡ some a) (ok_or o e)
OnOk-ok_or none e = tt
OnOk-ok_or (some a) e = refl

pub OnOk-any {ℓ κ} : {E : Type ℓ} {A : Type κ} (m : Result E A) → OnOk (λ a. Unit {0}) m
OnOk-any (ok a) = tt
OnOk-any (err e) = tt

pub ok_not_err {ℓ κ} : {E : Type ℓ} {A : Type κ} {e : E} {a : A} → ok a ≡ err e → ⊥
ok_not_err h = cc

pub err_not_ok {ℓ κ} : {E : Type ℓ} {A : Type κ} {e : E} {a : A} → err e ≡ ok a → ⊥
err_not_ok h = cc

pub ok_inj {ℓ κ} : {E : Type ℓ} {A : Type κ} {a b : A} → ◌≡◌ {A = Result E A} (ok a) (ok b) → a ≡ b
ok_inj h = cc

-- `negsuc n` is -(n + 1).
pub data ℤ : Type 0 where
  pos : ℕ → ℤ
  negsuc : ℕ → ℤ

-- The value of a checked operation of an integer type whose values are below `bound`.
abbrev pub checked : ℕ → ℕ → Option ℕ
checked bound x = if ltb x bound then some x else none
