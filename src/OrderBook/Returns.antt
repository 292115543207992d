-- ===== src/OrderBook/Returns.antt =====
-- An operation of src/orderbook.rs that returns: with a result, or with one of the code's errors, and
-- never by a panic.
use order_book.Prelude.{
  ◌≡◌, Option, none, some, Bool, true, false, Result, ok, err, ok_or, guard, OnOk, ◌>>=◌, refl,
  subst,
}
use order_book.Instrument.{RejectReason}
use order_book.Storage.{StoreError}
use order_book.OrderBook.{OrderBookError, Fault, failed, panic, out_of_fuel, admitted, stored}

abbrev pub Returns : {A : Type 0} → (A → Type 0) → Result Fault A → Type 0
Returns P (ok a) = P a
Returns P (err (failed e)) = Unit
Returns P (err panic) = ⊥
Returns P (err out_of_fuel) = ⊥

pub Returns-bind :
    {A B : Type 0} {P : A → Type 0} (Q : B → Type 0) (m : Result Fault A) (f : A → Result Fault B)
    → Returns P m
    → ((a : A) → P a → Returns Q (f a))
    → Returns Q (m >>= f)
Returns-bind Q (ok a) f h k = k a h
Returns-bind Q (err (failed e)) f h k = tt
Returns-bind Q (err panic) f h k = absurd h
Returns-bind Q (err out_of_fuel) f h k = absurd h

pub Returns-map :
    {A : Type 0} {P : A → Type 0} (Q : A → Type 0) (m : Result Fault A)
    → ((a : A) → P a → Q a)
    → Returns P m
    → Returns Q m
Returns-map Q (ok a) f h = f a h
Returns-map Q (err (failed e)) f h = tt
Returns-map Q (err panic) f h = absurd h
Returns-map Q (err out_of_fuel) f h = absurd h

pub Returns-failed :
    {A : Type 0} (o : Option A) (e : OrderBookError)
    → Returns (λ a. o ≡ some a) (ok_or o (failed e))
Returns-failed none e = tt
Returns-failed (some a) e = refl

pub Returns-guard : (b : Bool) (e : OrderBookError) → Returns (λ u. b ≡ true) (guard b (failed e))
Returns-guard true e = refl
Returns-guard false e = tt

-- What is there does not panic.
pub Returns-some :
    {A : Type 0} (o : Option A) (a : A) → o ≡ some a → Returns (λ x. x ≡ a) (ok_or o panic)
Returns-some none a h = cc
Returns-some (some x) a h = cc

pub Returns-admitted :
    {A : Type 0} (r : Result RejectReason A) → Returns (λ a. Unit {0}) (admitted r)
unfolding admitted
Returns-admitted (ok a) = tt
Returns-admitted (err e) = tt

pub Returns-stored :
    {A : Type 0} (P : A → Type 0) (r : Result StoreError A) → OnOk P r → Returns P (stored r)
unfolding stored
Returns-stored P (ok a) h = h
Returns-stored P (err e) h = tt

-- What holds of the result.
pub Returns-ok :
    {A : Type 0} (P : A → Type 0) (m : Result Fault A) (a : A) → Returns P m → m ≡ ok a → P a
Returns-ok P m a h e = subst (Returns P) e h

pub OnOk-stored :
    {A : Type 0} (P : A → Type 0) (r : Result StoreError A) → OnOk P r → OnOk P (stored r)
unfolding stored
OnOk-stored P (ok a) h = h
OnOk-stored P (err e) h = tt

-- It returns, with a result that is so.
abbrev pub Runs : {A : Type 0} → (A → Type 0) → Result Fault A → Type 0
Runs P (ok a) = P a
Runs P (err e) = ⊥

pub Runs-bind :
    {A B : Type 0} {P : A → Type 0} (Q : B → Type 0) (m : Result Fault A) (f : A → Result Fault B)
    → Runs P m
    → ((a : A) → P a → Runs Q (f a))
    → Runs Q (m >>= f)
Runs-bind Q (ok a) f h k = k a h
Runs-bind Q (err e) f h k = absurd h

pub Runs-map :
    {A : Type 0} {P : A → Type 0} (Q : A → Type 0) (m : Result Fault A)
    → ((a : A) → P a → Q a)
    → Runs P m
    → Runs Q m
Runs-map Q (ok a) f h = f a h
Runs-map Q (err e) f h = absurd h
