-- ===== src/OrderBook/Index.antt =====
-- The index of src/orderbook.rs: where `add_order` and `cancel_order` say that orders are.
use order_book.Prelude.{
  ◌+◌, ◌≡◌, refl, sym, Option, none, some, ok_or, guard, OnOk, OnOk-any, OnOk-bind, OnOk-map,
  OnOk-ok_or, if◌then◌else◌, checked, u32_mod, map_get, map_insert, map_remove, text_eq, text_beq,
  map_get-map_insert, map_get-map_remove, Bool-cases, inl, inr, List,
}
use order_book.Side.{ask, bid}
use order_book.Instrument.{Price}
use order_book.Types.{ExchangeId, Order, OrderType, limit, TimeInForce}
use order_book.OrderQueue.{SlotMap, push_back, remove_key}
use order_book.Storage.{OrderBookStore}
use order_book.OrderBook.{
  OrderBook, OrderAddress, at_level, at_stop, OrderLocation, book, location, failed, panic,
  order_not_found, exchange_id_duplicated, not_restable, is_vacant, restable_price, admit, stored,
  add_order, cancel_at, cancel_order, order_location,
}

restable_price_lem :
    (t : OrderType) (price p : Price) (tif : TimeInForce)
    → t ≡ limit price tif
    → restable_price t ≡ some p
    → p ≡ price
unfolding restable_price
restable_price_lem t price p tif e h = let q : restable_price t ≡ some price = rw e refl in cc

module _ (slots : SlotMap) (stores : OrderBookStore slots.Key) where
  open slots use {Key}

  -- The index after one entry was written, in terms of locations.
  located :
      (id j : ExchangeId) (a : OrderAddress Key) (m : List (ExchangeId × OrderAddress Key))
      → (elim (map_get id (map_insert j a m)) as (λ o. Option OrderLocation) [
        | none ↦ none
        | some x ↦ some (location x)
      ])
        ≡ (if text_beq id j
            then some (location a)
            else elim (map_get id m) [ none ↦ none | some x ↦ some (location x) ])
  located id j a m = elim (Bool-cases (text_beq id j)) [
    | inl e ↦ rw (map_get-map_insert id j a m, e) refl
    | inr e ↦ rw (map_get-map_insert id j a m, e) refl
  ]

  unlocated :
      (id j : ExchangeId) (m : List (ExchangeId × OrderAddress Key))
      → (elim (map_get id (map_remove j m)) as (λ o. Option OrderLocation) [
        | none ↦ none
        | some x ↦ some (location x)
      ])
        ≡ (if text_beq id j
            then none
            else elim (map_get id m) [ none ↦ none | some x ↦ some (location x) ])
  unlocated id j m = elim (Bool-cases (text_beq id j)) [
    | inl e ↦ rw (map_get-map_remove id j m, e) refl
    | inr e ↦ rw (map_get-map_remove id j m, e) refl
  ]

  -- The id is at this side and price, and every other id is where it was.
  abbrev pub Placed : OrderBook slots stores → Order → Price → OrderBook slots stores → Type 0
  Placed b order price b' =
      (id : ExchangeId)
      → order_location slots stores b' id ≡ (
          if text_beq id order.exchange_id
          then some (book order.side price)
          else order_location slots stores b id)

  -- The id is nowhere, and every other id is where it was.
  abbrev pub Gone : OrderBook slots stores → ExchangeId → OrderBook slots stores → Type 0
  Gone b id b' =
      (j : ExchangeId)
      → order_location slots stores b' j
        ≡ (if text_beq j id then none else order_location slots stores b j)

  inserted-Placed :
      (b b' : OrderBook slots stores) (order : Order) (price p : Price) (key : Key)
      → p ≡ price
      → b'.index ≡ map_insert order.exchange_id (at_level order.side p key) b.index
      → Placed b order price b'
  unfolding order_location location
  inserted-Placed b b' order price p key q e id =
      rw (e, sym q) (located id order.exchange_id (at_level order.side p key) b.index)

  -- After a limit order is added, its id is at its side and price, and every other id is where it
  -- was.
  pub add_order-Placed :
      (b : OrderBook slots stores) (order : Order) (price : Price) (tif : TimeInForce)
      → order.order_type ≡ limit price tif
      → OnOk (Placed b order price) (add_order slots stores b order)
  unfolding add_order
  add_order-Placed b order price tif e =
      let P = Placed b order price in
      OnOk-bind P (ok_or (restable_price order.order_type) (failed not_restable)) _
        (OnOk-ok_or (restable_price order.order_type) (failed not_restable))
        (λ p q.
          OnOk-bind P (admit slots stores b order) _ (OnOk-any (admit slots stores b order)) (λ _ _.
            OnOk-bind P
              (guard (is_vacant (map_get order.exchange_id b.index))
                (failed exchange_id_duplicated))
              _
              (OnOk-any (
                guard (is_vacant (map_get order.exchange_id b.index))
                  (failed exchange_id_duplicated)))
              (λ _ _.
                OnOk-bind P (ok_or (checked u32_mod (b.next_arrival + 1)) panic) _
                  (OnOk-any (ok_or (checked u32_mod (b.next_arrival + 1)) panic))
                  (λ next _.
                    OnOk-bind P (stored (stores.ensure_level b.store order.side p)) _
                      (OnOk-any (stored (stores.ensure_level b.store order.side p)))
                      (λ store _.
                        OnOk-bind P (ok_or (stores.level store order.side p) panic) _
                          (OnOk-any (ok_or (stores.level store order.side p) panic))
                          (λ level _.
                            OnOk-bind P
                              (ok_or
                                (push_back slots level.queue b.nodes
                                  (record order { arrival = b.next_arrival }))
                                panic)
                              _
                              (OnOk-any (
                                ok_or
                                  (push_back slots level.queue b.nodes
                                    (record order { arrival = b.next_arrival }))
                                  panic))
                              (λ r _.
                                inserted-Placed b _ order price p r.2
                                  (restable_price_lem order.order_type price p tif e q) refl)))))))

  cancel_at-index :
      (b : OrderBook slots stores) (id : ExchangeId) (a : OrderAddress Key)
      → OnOk (λ b'. b'.index ≡ b.index) (cancel_at slots stores b id a)
  unfolding cancel_at
  cancel_at-index b id (at_level side price key) =
      let P : OrderBook slots stores → Type 0 = λ b'. b'.index ≡ b.index in
      OnOk-bind P (ok_or (stores.level b.store side price) panic) _
        (OnOk-any (ok_or (stores.level b.store side price) panic))
        (λ level _.
          OnOk-bind P (ok_or (remove_key slots level.queue b.nodes key) panic) _
            (OnOk-any (ok_or (remove_key slots level.queue b.nodes key) panic))
            (λ r _. OnOk-bind P (ok_or r.2 panic) _ (OnOk-any (ok_or r.2 panic)) (λ _ _. refl)))
  cancel_at-index b id (at_stop bid trigger) = refl
  cancel_at-index b id (at_stop ask trigger) = refl

  removed-Gone :
      (b b' : OrderBook slots stores) (id : ExchangeId)
      → b'.index ≡ map_remove id b.index
      → Gone b id b'
  unfolding order_location
  removed-Gone b b' id e j = rw e (unlocated j id b.index)

  -- After an order is cancelled, its id is nowhere, and every other id is where it was.
  pub cancel_order-Gone :
      (b : OrderBook slots stores) (id : ExchangeId)
      → OnOk (Gone b id) (cancel_order slots stores b id)
  unfolding cancel_order
  cancel_order-Gone b id =
      OnOk-bind (Gone b id) (ok_or (map_get id b.index) (failed order_not_found)) _
        (OnOk-any (ok_or (map_get id b.index) (failed order_not_found)))
        (λ a _.
          OnOk-map (cancel_at slots stores (record b { index = map_remove id b.index }) id a)
            (λ b' h. removed-Gone b b' id h)
            (cancel_at-index (record b { index = map_remove id b.index }) id a))
