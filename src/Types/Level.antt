-- ===== src/Types/Level.antt =====
-- The operations of `PriceLevel` in src/types.rs, an owned queue of one price.
use order_book.Prelude.{
  ℕ, ◌≡◌, refl, subst, List, [], ◌∷◌, ◌++◌, Option, none, some, Bool, true, false, text_beq,
  text_beq_iff, Result, ok, err, if◌then◌else◌, map, arith, length, All, All-append, ◌≢◌,
}
use order_book.Side.{Side, ask, bid}
use order_book.Instrument.{Price, Qty, sum_qty}
use order_book.Allocation.{Maker}
use order_book.Types.{
  ExchangeId, Order, PriceLevel, OrderError, invalid_side, duplicate_exchange_id, to_maker,
}

unfoldable pub side_beq : Side → Side → Bool
side_beq ask ask = true
side_beq ask bid = false
side_beq bid ask = false
side_beq bid bid = true

unfoldable pub new_level : Price → Side → PriceLevel
new_level price side = record { price = price; side = side; orders = [] }

unfoldable pub is_empty : PriceLevel → Bool
is_empty level = elim level.orders [ [] ↦ true | _ ∷ _ ↦ false ]

-- `orders.iter().any(|existing| existing.exchange_id == id)`
unfoldable pub holds_id : ExchangeId → List Order → Bool
holds_id id [] = false
holds_id id (o ∷ os) = if text_beq o.exchange_id id then true else holds_id id os

unfoldable pub add_order : PriceLevel → Order → Result OrderError PriceLevel
add_order level order =
    if side_beq order.side level.side
    then if holds_id order.exchange_id level.orders
      then err duplicate_exchange_id
      else ok (record level { orders = level.orders ++ order ∷ [] })
    else err invalid_side

-- `position` and `remove`: the first order of that id, and the others.
unfoldable pub remove_first : ExchangeId → List Order → Option (Order × List Order)
remove_first id [] = none
remove_first id (o ∷ os) =
    if text_beq o.exchange_id id
    then some (o, os)
    else elim (remove_first id os) [ none ↦ none | some (found, rest) ↦ some (found, o ∷ rest) ]

unfoldable pub remove_order : PriceLevel → ExchangeId → PriceLevel × Option Order
remove_order level id = elim (remove_first id level.orders) [
  | none ↦ (level, none)
  | some (found, rest) ↦ (record level { orders = rest }, some found)
]

unfoldable pub total_quantity : PriceLevel → Qty
total_quantity level = sum_qty 0 (map (λ o. o.remaining_quantity) level.orders)

unfoldable pub makers : PriceLevel → List Maker
makers level = map to_maker level.orders

unfoldable pub order_count : PriceLevel → ℕ
order_count level = length level.orders

abbrev pub ids : List Order → List ExchangeId
ids = map (λ o. o.exchange_id)

-- Ids stand once.
abbrev pub Distinct : List Order → Type 0
Distinct [] = Unit {0}
Distinct (o ∷ os) = All (λ x. o.exchange_id ≢ x.exchange_id) os × Distinct os

pub record IsLevel (level : PriceLevel) : Type 0 where
  pub one_side : All (λ o. o.side ≡ level.side) level.orders
  pub distinct : Distinct level.orders

pub side_beq-eq : (a b : Side) → side_beq a b ≡ true → a ≡ b
unfolding side_beq
side_beq-eq ask ask h = refl
side_beq-eq ask bid h = cc
side_beq-eq bid ask h = cc
side_beq-eq bid bid h = refl

Distinct-snoc :
    (os : List Order) (o : Order)
    → holds_id o.exchange_id os ≡ false
    → Distinct os
    → Distinct (os ++ o ∷ [])
unfolding holds_id
Distinct-snoc [] o h d = (tt, tt)
Distinct-snoc (x ∷ os) o h d =
    let fresh : x.exchange_id ≢ o.exchange_id =
      λ e. ground (arith, text_beq_iff x.exchange_id o.exchange_id) in
    let rest : holds_id o.exchange_id os ≡ false = ground arith in
    (All-append _ os (o ∷ []) d.0 (fresh, tt), Distinct-snoc os o rest d.1)

snoc-IsLevel :
    (level : PriceLevel) (order : Order)
    → IsLevel level
    → side_beq order.side level.side ≡ true
    → holds_id order.exchange_id level.orders ≡ false
    → IsLevel (record level { orders = level.orders ++ order ∷ [] })
snoc-IsLevel level order v hs hf = record {
  one_side =
      All-append _ level.orders (order ∷ []) v.one_side (side_beq-eq order.side level.side hs, tt);
  distinct = Distinct-snoc level.orders order hf v.distinct;
}

-- A level that takes an order keeps one side and one order for each id, and has it last.
pub add_order-IsLevel :
    (level level' : PriceLevel) (order : Order)
    → IsLevel level
    → add_order level order ≡ ok level'
    → IsLevel level' × (level'.orders ≡ level.orders ++ order ∷ [])
unfolding add_order
add_order-IsLevel level level' order v e =
    let hs : side_beq order.side level.side ≡ true = ground arith in
    let hf : holds_id order.exchange_id level.orders ≡ false = ground arith in
    let hl : record level { orders = level.orders ++ order ∷ [] } ≡ level' = ground arith in
    subst (λ l. IsLevel l × (l.orders ≡ level.orders ++ order ∷ [])) hl
      (snoc-IsLevel level order v hs hf, refl)
