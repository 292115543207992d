-- ===== src/Storage/HashMap/Heap.antt =====
-- The heaps of prices of `HashMapStore` of src/storage.rs.
use order_book.Prelude.{
  ◌≡◌, refl, List, [], ◌∷◌, Option, none, some, Bool, true, false, ◌==◌, if◌then◌else◌, nat_eq,
  arith,
}
use order_book.Side.{Side, ask, bid}
use order_book.Instrument.{Price}
use order_book.Storage.Ladder.{better}
use order_book.Storage.HashMap.{peek, retain_prices}

unfoldable pub contains : Price → List Price → Bool
contains p [] = false
contains p (q ∷ qs) = if p == q then true else contains p qs

abbrev pub is_some : {A : Type 0} → Option A → Bool
is_some none = false
is_some (some a) = true

pub contains-retain_prices :
    (p q : Price) (ps : List Price)
    → contains p (retain_prices q ps) ≡ (if p == q then false else contains p ps)
unfolding contains retain_prices
contains-retain_prices p q [] = ground arith
contains-retain_prices p q (r ∷ ps) = ground (arith, contains-retain_prices p q ps)

-- No price of a heap is better than its top.
abbrev pub IsTop : Side → List Price → Option Price → Type 0
IsTop side ps none = (p : Price) → contains p ps ≡ false
IsTop side ps (some q) =
    (contains q ps ≡ true) × ((p : Price) → contains p ps ≡ true → better side p q ≡ false)

chosen-IsTop :
    (side : Side) (p q : Price) (ps : List Price) (b : Bool)
    → better side q p ≡ b
    → IsTop side ps (some q)
    → IsTop side (p ∷ ps) (some (if b then q else p))
unfolding contains better
chosen-IsTop ask p q ps true e h = (ground (arith, h.0), λ r k. ground (arith, h.1 r))
chosen-IsTop ask p q ps false e h = (ground arith, λ r k. ground (arith, h.1 r))
chosen-IsTop bid p q ps true e h = (ground (arith, h.0), λ r k. ground (arith, h.1 r))
chosen-IsTop bid p q ps false e h = (ground arith, λ r k. ground (arith, h.1 r))

push-IsTop :
    (side : Side) (p : Price) (ps : List Price) (o : Option Price)
    → IsTop side ps o
    → IsTop side
        (p ∷ ps)
        (elim o [ none ↦ some p | some q ↦ some (if better side q p then q else p) ])
unfolding contains better
push-IsTop ask p ps none h = (ground arith, λ r e. ground (arith, h r))
push-IsTop bid p ps none h = (ground arith, λ r e. ground (arith, h r))
push-IsTop ask p ps (some q) h = chosen-IsTop ask p q ps (better ask q p) refl h
push-IsTop bid p ps (some q) h = chosen-IsTop bid p q ps (better bid q p) refl h

pub peek-IsTop : (side : Side) (ps : List Price) → IsTop side ps (peek side ps)
unfolding peek contains
peek-IsTop side [] = λ p. refl
peek-IsTop side (p ∷ ps) = push-IsTop side p ps (peek side ps) (peek-IsTop side ps)
