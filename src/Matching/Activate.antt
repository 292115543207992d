-- ===== src/Matching/Activate.antt =====
-- `execute` of src/matching.rs on any order: a stop parks, or is activated and executed as what it
-- becomes.
use order_book.Prelude.{
  ℕ, suc, ◌≡◌, refl, sym, subst, Bool-cases, Option-cases, inl, inr, ◌⊎◌, map_get, text_eq, nat_eq,
}
use order_book.Side.{Side, ask, bid}
use order_book.Instrument.{Price}
use order_book.Types.{Order, OrderType, limit, market, stop_market, stop_limit, TimeInForce}
use order_book.OrderQueue.{SlotMap}
use order_book.Storage.{OrderBookStore}
use order_book.Storage.Ladder.{IsStore}
use order_book.OrderBook.{OrderBook}
use order_book.Matching.{activate, activated_type, already_triggered}
use order_book.Matching.Engine.{execute_loop, execute, park, with_stop}
use order_book.Matching.Halts.Level.{Ends, Ends-map}
use order_book.Matching.Stops.{IsStops, push_stop-IsStops}
use order_book.Matching.Execute.{Keeps, execute_limit-Keeps, execute_market-Keeps}

abbrev pub IsActive : OrderType → Type 0
IsActive t = (t ≡ market) ⊎ ((price : Price) × (tif : TimeInForce) × (t ≡ limit price tif))

activated-IsActive : (t : OrderType) → IsActive (activated_type t)
activated-IsActive (limit price tif) = inr (price, tif, refl)
activated-IsActive market = inl refl
activated-IsActive (stop_market trigger) = inl refl
activated-IsActive (stop_limit trigger price tif) = inr (price, tif, refl)

-- Every order is active or a stop.
abbrev IsStop : OrderType → Type 0
IsStop t =
    ((trigger : Price) × (t ≡ stop_market trigger))
    ⊎ ((trigger : Price) × (price : Price) × (tif : TimeInForce) × (t
          ≡ stop_limit trigger price tif))

pub OrderType-cases : (t : OrderType) → IsActive t ⊎ IsStop t
OrderType-cases (limit price tif) = inl (inr (price, tif, refl))
OrderType-cases market = inl (inl refl)
OrderType-cases (stop_market trigger) = inr (inl (trigger, refl))
OrderType-cases (stop_limit trigger price tif) = inr (inr (trigger, price, tif, refl))

pub Side-cases : (s : Side) → (s ≡ bid) ⊎ (s ≡ ask)
Side-cases bid = inl refl
Side-cases ask = inr refl

pub activate-IsActive : (order : Order) → IsActive (activate order).order_type
unfolding activate
activate-IsActive order = activated-IsActive order.order_type

module _ (slots : SlotMap) (stores : OrderBookStore slots.Key) (Valid : stores.Store → Type 0)
    (laws : IsStore slots.Key stores Valid) where
  -- A book whose store is valid, and whose pending stops stand in order.
  pub record IsSafe (b : OrderBook slots stores) : Type 0 where
    pub valid : Valid b.store
    pub bids : IsStops b.stop_bids
    pub asks : IsStops b.stop_asks

  pub Keeps-IsSafe :
      (b b' : OrderBook slots stores) → IsSafe b → Keeps slots stores Valid laws b b' → IsSafe b'
  Keeps-IsSafe b b' v k = record {
    valid = k.0;
    bids = subst IsStops (sym k.1) v.bids;
    asks = subst IsStops (sym k.2) v.asks;
  }

  pub execute_active-Keeps :
      (fuel : ℕ) (b : OrderBook slots stores) (order : Order)
      → IsActive order.order_type
      → Valid b.store
      → Ends
          (λ r. Keeps slots stores Valid laws b r.0)
          (execute_loop slots stores (suc fuel) b order)
  execute_active-Keeps fuel b order (inl e) v =
      execute_market-Keeps slots stores Valid laws fuel b order e v
  execute_active-Keeps fuel b order (inr (price, tif, e)) v =
      execute_limit-Keeps slots stores Valid laws fuel b order price tif e v

  with_stop-IsSafe :
      (b : OrderBook slots stores) (order : Order) (trigger : Price)
      → IsSafe b
      → IsSafe (with_stop slots stores b order trigger)
  unfolding with_stop
  with_stop-IsSafe b order trigger v = elim (Side-cases order.side) [
    | inl e ↦
        rw (e, with_stop)
          (record {
            valid = v.valid;
            bids = push_stop-IsStops b.stop_bids trigger order v.bids;
            asks = v.asks;
          })
    | inr e ↦
        rw (e, with_stop)
          (record {
            valid = v.valid;
            bids = v.bids;
            asks = push_stop-IsStops b.stop_asks trigger order v.asks;
          })
  ]

  park-IsSafe :
      (b : OrderBook slots stores) (order : Order) (trigger : Price)
      → IsSafe b
      → IsSafe (park slots stores b order trigger).0
  unfolding park
  park-IsSafe b order trigger v = elim (Option-cases (map_get order.exchange_id b.index)) [
    | inl e ↦
        rw (e, park)
          (with_stop-IsSafe _ order trigger
            (record { valid = v.valid; bids = v.bids; asks = v.asks }))
    | inr (a, e) ↦ rw (e, park) v
  ]

  activated-Ends :
      (b : OrderBook slots stores) (order : Order)
      → IsSafe b
      → Ends (λ r. IsSafe r.0) (execute_loop slots stores 1 b (activate order))
  activated-Ends b order v =
      Ends-map (execute_loop slots stores 1 b (activate order)) (λ r k. Keeps-IsSafe b r.0 v k)
        (execute_active-Keeps 0 b (activate order) (activate-IsActive order) v.valid)

  execute_stop-Ends :
      (b : OrderBook slots stores) (order : Order) (trigger : Price)
      → (order.order_type ≡ stop_market trigger)
        ⊎ ((price : Price) × (tif : TimeInForce) × (order.order_type
              ≡ stop_limit trigger price tif))
      → IsSafe b
      → Ends (λ r. IsSafe r.0) (execute_loop slots stores 2 b order)
  unfolding execute_loop
  execute_stop-Ends b order trigger (inl e) v =
      elim (Bool-cases (already_triggered b.last_trade_price order.side trigger)) [
        | inl t ↦ rw (e, t, Ends) (activated-Ends b order v)
        | inr t ↦ rw (e, t, Ends) (park-IsSafe b order trigger v)
      ]
  execute_stop-Ends b order trigger (inr (price, tif, e)) v =
      elim (Bool-cases (already_triggered b.last_trade_price order.side trigger)) [
        | inl t ↦ rw (e, t, Ends) (activated-Ends b order v)
        | inr t ↦ rw (e, t, Ends) (park-IsSafe b order trigger v)
      ]

  pub execute-Ends :
      (b : OrderBook slots stores) (order : Order)
      → IsSafe b
      → Ends (λ r. IsSafe r.0) (execute slots stores b order)
  unfolding execute
  execute-Ends b order v = elim (OrderType-cases order.order_type) [
    | inl a ↦
        Ends-map (execute_loop slots stores 2 b order) (λ r k. Keeps-IsSafe b r.0 v k)
          (execute_active-Keeps 1 b order a v.valid)
    | inr (inl (trigger, e)) ↦ execute_stop-Ends b order trigger (inl e) v
    | inr (inr (trigger, price, tif, e)) ↦ execute_stop-Ends b order trigger (inr (price, tif, e)) v
  ]
