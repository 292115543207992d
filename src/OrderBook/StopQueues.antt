-- ===== src/OrderBook/StopQueues.antt =====
-- The stop books of src/orderbook.rs as maps from a trigger to its stops.
use order_book.Prelude.{
  ◌≡◌, ◌⊎◌, refl, sym, ◌∙◌, List, [], ◌∷◌, ◌++◌, Option, none, some, ◌==◌, if◌then◌else◌, arith,
  Bool-cases, Option-cases, List-cases, inl, inr, map_get, map_get-map_remove, nat_eq, tree_insert,
  ltb, text_beq, text_beq_iff, ==→eq,
}
use order_book.Side.{Side, ask, bid}
use order_book.Instrument.{Price}
use order_book.Types.{ExchangeId, Order}
use order_book.OrderQueue.{SlotMap}
use order_book.Storage.{OrderBookStore}
use order_book.Storage.Ladder.Place.{is_place}
use order_book.OrderBook.{
  OrderBook, OrderAddress, at_level, at_stop, Stops, drop_stop, retain_others,
}

-- The stops under a trigger, the oldest first.
abbrev pub or_nil : Option (List Order) → List Order
or_nil none = []
or_nil (some q) = q

abbrev pub queue_under : Price → Stops → List Order
queue_under trigger stops = or_nil (map_get trigger stops)

-- The stops of the other ids.
abbrev pub stops_without : ExchangeId → List Order → List Order
stops_without id [] = []
stops_without id (o ∷ os) =
    if text_beq o.exchange_id id then stops_without id os else o ∷ stops_without id os

-- A stop of the id is there.
abbrev pub Has : ExchangeId → List Order → Type 0
Has id [] = ⊥
Has id (o ∷ os) = (o.exchange_id ≡ id) ⊎ Has id os

pub Has-left : (id : ExchangeId) (xs ys : List Order) → Has id xs → Has id (xs ++ ys)
Has-left id [] ys h = absurd h
Has-left id (x ∷ xs) ys (inl e) = inl e
Has-left id (x ∷ xs) ys (inr h) = inr (Has-left id xs ys h)

pub Has-last : (o : Order) (xs : List Order) → Has o.exchange_id (xs ++ o ∷ [])
Has-last o [] = inl refl
Has-last o (x ∷ xs) = inr (Has-last o xs)

pub Has-without :
    (id i : ExchangeId) (q : List Order) → (i ≡ id → ⊥) → Has i q → Has i (stops_without id q)
Has-without id i [] n h = absurd h
Has-without id i (o ∷ os) n h = elim (Bool-cases (text_beq o.exchange_id id)) [
  | inl t ↦ elim h [
    | inl e ↦ absurd (n (sym e ∙ (text_beq_iff o.exchange_id id).0 t))
    | inr later ↦ rw t (Has-without id i os n later)
  ]
  | inr t ↦ elim h [ inl e ↦ rw t (inl e) | inr later ↦ rw t (inr (Has-without id i os n later)) ]
]

pub map_get-tree_insert :
    (j k : Price) (q : List Order) (es : Stops)
    → map_get j (tree_insert ltb k q es) ≡ (if j == k then some q else map_get j es)
unfolding map_get tree_insert
map_get-tree_insert j k q [] = ground arith
map_get-tree_insert j k q ((i, w) ∷ es) = ground (arith, map_get-tree_insert j k q es)

retain_others_lem : (id : ExchangeId) (q : List Order) → retain_others id q ≡ stops_without id q
unfolding retain_others
retain_others_lem id [] = refl
retain_others_lem id (o ∷ os) = rw (retain_others_lem id os) refl

-- The stops without an id: those of the other ids under this trigger, and the other triggers' as
-- they were.
pub drop_stop_lem :
    (es : Stops) (k : Price) (id : ExchangeId) (j : Price)
    → queue_under j (drop_stop es k id)
      ≡ (if j == k then stops_without id (queue_under j es) else queue_under j es)
unfolding drop_stop
drop_stop_lem es k id j = elim (Bool-cases (j == k)) [
  | inr t ↦ elim (Option-cases (map_get k es)) [
    | inl e ↦ rw (t, e, drop_stop) refl
    | inr (q, e) ↦ elim (List-cases (retain_others id q)) [
      | inl e' ↦ rw (e, drop_stop, e', map_get-map_remove j k es, t) refl
      | inr (o, os, e') ↦ rw (e, drop_stop, e', map_get-tree_insert j k (o ∷ os) es, t) refl
    ]
  ]
  | inl t ↦
      let same = ==→eq j k t in
      elim (Option-cases (map_get k es)) [
        | inl e ↦ rw (t, e, drop_stop, same, e) refl
        | inr (q, e) ↦ elim (List-cases (retain_others id q)) [
          | inl e' ↦
              rw (e, drop_stop, e', map_get-map_remove j k es, t, same, e)
                (sym e' ∙ retain_others_lem id q)
          | inr (o, os, e') ↦
              rw (e, drop_stop, e', map_get-tree_insert j k (o ∷ os) es, t, same, e)
                (sym e' ∙ retain_others_lem id q)
        ]
      ]
]

-- What an id's cancellation leaves of a stop queue: the trigger that its address names, if any, keeps
-- the stops of the other ids, and the other queues are as they were.
abbrev pub left_under :
    {Key : Type 0} → OrderAddress Key → ExchangeId → Side → Price → List Order → List Order
left_under (at_level side price key) id s p q = q
left_under (at_stop side trigger) id s p q =
    if is_place side trigger s p then stops_without id q else q

module _ (slots : SlotMap) (stores : OrderBookStore slots.Key) where
  -- The pending stops of a side.
  abbrev pub stops_of : OrderBook slots stores → Side → Stops
  stops_of b bid = b.stop_bids
  stops_of b ask = b.stop_asks
