-- ===== src/Matching/Cascade.antt =====
-- `submit` of src/matching.rs ends: a stop that is popped is gone, and its activation parks no stop.
pub mod Turns
use order_book.Prelude.{
  ℕ, zero, suc, ◌<◌, ◌≡◌, refl, ap, List, [], ◌∷◌, ◌++◌, Option, none, some, Result, ok, err, ◌>>=◌,
  arith, Option-cases, inl, inr, ◌⊎◌, map_get, text_eq, nat_eq, add_u64, tree_first, tree_last,
}
use order_book.Instrument.{Price, RejectReason}
use order_book.Types.{Order, from_sequence}
use order_book.OrderQueue.{SlotMap}
use order_book.Storage.{OrderBookStore}
use order_book.Storage.Ladder.{IsStore}
use order_book.OrderBook.{
  OrderBook, OrderBookError, Fault, failed, panic, out_of_fuel, admit, admitted, admit_order,
  rejected, Stops,
}
use order_book.Matching.{activate, Execution, ExecutionReport}
use order_book.Matching.Engine.{
  Outcome, execute_loop, execute, pop_bid, pop_ask, pop_reached, pop_triggered_stop, take_stop,
  reached_up, reached_down, cascade, pending, submit_admitted, submit, count_stops,
}
use order_book.Matching.Halts.Level.{Ends, Ends-map, Ends-bind}
use order_book.Matching.Stops.{IsStops, take_stop-IsStops, first-present, last-present}
use order_book.Matching.Activate.{
  IsSafe, Keeps-IsSafe, execute_active-Keeps, execute-Ends, activate-IsActive,
}
use order_book.Matching.Execute.{Keeps}
use order_book.Matching.Cascade.Turns.{EndsOr, Popped, submit-EndsOr}

pub reached_up-present :
    (last : Price) (es : Stops) (e : Price × List Order)
    → reached_up last (tree_first es) ≡ some e
    → map_get e.0 es ≡ some e.1
reached_up-present last es e h = ground (arith, first-present es e)

pub reached_down-present :
    (last : Price) (es : Stops) (e : Price × List Order)
    → IsStops es
    → reached_down last (tree_last es) ≡ some e
    → map_get e.0 es ≡ some e.1
reached_down-present last es e v h = ground (arith, last-present es e v)

-- What taking a stop returns, when it returns.
pub take_stop-Ends :
    (es : Stops) (e : Price × List Order)
    → IsStops es
    → map_get e.0 es ≡ some e.1
    → Ends (λ r. IsStops r.0 × (count_stops r.0 < count_stops es)) (take_stop es e)
unfolding take_stop
take_stop-Ends es (k, []) v h = tt
take_stop-Ends es (k, p ∷ []) v h =
    take_stop-IsStops es _ (k, p ∷ []) p v h (unfold take_stop in refl)
take_stop-Ends es (k, p ∷ p' ∷ ps) v h =
    take_stop-IsStops es _ (k, p ∷ p' ∷ ps) p v h (unfold take_stop in refl)

-- A run that ends, in the words of `Turns`.
EndsOr-Ends :
    {A : Type 0} (P : A → Type 0) (m : Result Fault A)
    → (EndsOr Unit P m → Ends P m) × (Ends P m → EndsOr Unit P m)
EndsOr-Ends P (ok a) = (λ h. h, λ h. h)
EndsOr-Ends P (err (failed e)) = (λ h. tt, λ h. tt)
EndsOr-Ends P (err panic) = (λ h. tt, λ h. tt)
EndsOr-Ends P (err out_of_fuel) = (λ h. h, λ h. h)

module _ (slots : SlotMap) (stores : OrderBookStore slots.Key) (Valid : stores.Store → Type 0)
    (laws : IsStore slots.Key stores Valid) where
  abbrev Safe : OrderBook slots stores → Type 0
  Safe = IsSafe slots stores Valid laws

  abbrev Pops : OrderBook slots stores → Option (OrderBook slots stores × Order) → Type 0
  Pops = Popped slots stores Safe

  pop_bid-Ends :
      (b : OrderBook slots stores) (e : Price × List Order)
      → Safe b
      → map_get e.0 b.stop_bids ≡ some e.1
      → Ends (Pops b) (pop_bid slots stores b e)
  unfolding pop_bid
  pop_bid-Ends b e v h =
      Ends-bind (Pops b) (take_stop b.stop_bids e) _ (take_stop-Ends b.stop_bids e v.bids h)
        (λ r p. (record { valid = v.valid; bids = p.0; asks = v.asks }, omega (arith, p.1)))

  pop_ask-Ends :
      (b : OrderBook slots stores) (e : Price × List Order)
      → Safe b
      → map_get e.0 b.stop_asks ≡ some e.1
      → Ends (Pops b) (pop_ask slots stores b e)
  unfolding pop_ask
  pop_ask-Ends b e v h =
      Ends-bind (Pops b) (take_stop b.stop_asks e) _ (take_stop-Ends b.stop_asks e v.asks h)
        (λ r p. (record { valid = v.valid; bids = v.bids; asks = p.0 }, omega (arith, p.1)))

  pop_reached-Ends :
      (b : OrderBook slots stores) (last : Price)
      → Safe b
      → Ends (Pops b) (pop_reached slots stores b last)
  unfolding pop_reached
  pop_reached-Ends b last v = elim (Option-cases (reached_up last (tree_first b.stop_bids))) [
    | inr (up, e) ↦ rw (e, Ends) (pop_bid-Ends b up v (reached_up-present last b.stop_bids up e))
    | inl e ↦ elim (Option-cases (reached_down last (tree_last b.stop_asks))) [
      | inr (down, e') ↦
          rw (e, e', Ends)
            (pop_ask-Ends b down v (reached_down-present last b.stop_asks down v.asks e'))
      | inl e' ↦ rw (e, e', Ends) tt
    ]
  ]

  -- Over the last price, which is a field of the book.
  reached-Ends :
      (b : OrderBook slots stores) (o : Option Price)
      → Safe b
      → Ends (Pops b) (elim o [ none ↦ ok none | some last ↦ pop_reached slots stores b last ])
  reached-Ends b none v = tt
  reached-Ends b (some last) v = pop_reached-Ends b last v

  pop_triggered_stop-Ends :
      (b : OrderBook slots stores) → Safe b → Ends (Pops b) (pop_triggered_stop slots stores b)
  unfolding pop_triggered_stop
  pop_triggered_stop-Ends b v = reached-Ends b b.last_trade_price v

  Keeps-pending :
      (b b' : OrderBook slots stores)
      → Keeps slots stores Valid laws b b'
      → pending slots stores b' ≡ pending slots stores b
  Keeps-pending b b' k = omega (arith, ap count_stops k.1, ap count_stops k.2)

  -- The activation of a popped stop parks nothing.
  activation-Ends :
      (b : OrderBook slots stores) (stop : Order)
      → Safe b
      → Ends
          (λ r. Safe r.0 × (pending slots stores r.0 ≡ pending slots stores b))
          (execute slots stores b (activate stop))
  unfolding execute
  activation-Ends b stop v =
      Ends-map (execute_loop slots stores 2 b (activate stop))
        (λ r k. (Keeps-IsSafe slots stores Valid laws b r.0 v k, Keeps-pending b r.0 k))
        (execute_active-Keeps slots stores Valid laws 1 b (activate stop) (activate-IsActive stop)
          v.valid)

  -- Over a store that keeps its contract, from a book whose store is valid and whose stops stand in
  -- order of their triggers, no loop of `submit` exhausts its fuel: the sweeps and the cascade of
  -- stops end, and the book that is left is again such a book, also when the submission fails.
  pub submit-Ends :
      (b : OrderBook slots stores) (order : Order)
      → IsSafe slots stores Valid laws b
      → Ends (λ r. IsSafe slots stores Valid laws r.0) (submit slots stores b order)
  submit-Ends b order v = (EndsOr-Ends _ (submit slots stores b order)).0 (
      submit-EndsOr slots stores Unit Safe Safe (λ c w. w)
        (λ c n w. record { valid = w.valid; bids = w.bids; asks = w.asks })
        (λ c w. (EndsOr-Ends _ (pop_triggered_stop slots stores c)).1 (pop_triggered_stop-Ends c w))
        (λ c stop w.
          (EndsOr-Ends _ (execute slots stores c (activate stop))).1 (activation-Ends c stop w))
        (λ c o w.
          (EndsOr-Ends _ (execute slots stores c o)).1 (execute-Ends slots stores Valid laws c o w))
        b order v)
