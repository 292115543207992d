-- ===== src/Matching/Execute.antt =====
-- `execute` of src/matching.rs ends, keeps the store valid, and leaves the pending stops alone when
-- the order is no stop.
use order_book.Prelude.{
  ℕ, suc, ◌+◌, ◌≡◌, refl, sym, ◌∙◌, subst, [], ◌∷◌, Option, none, some, Bool, true, false, Result,
  ok, err, ok_or, guard, OnOk, ◌>>=◌, Bool-cases, Option-cases, inl, inr, checked, u32_mod, map_get,
  text_eq, ltb,
}
use order_book.Side.{Side, opposite}
use order_book.Instrument.{Price, Qty, is_zero, RejectReason}
use order_book.Types.{Order, limit, market, TimeInForce, gtc, ioc, fok, ExchangeId}
use order_book.OrderQueue.{SlotMap, OrderArena, push_back, iter}
use order_book.Storage.{BookLevel, OrderBookStore, StoreError}
use order_book.Storage.Ladder.{IsStore, Ladder}
use order_book.Storage.Ladder.Find.{find_level-price}
use order_book.OrderBook.{
  OrderBook, OrderBookError, Fault, failed, panic, out_of_fuel, admitted, stored, admit,
  admit_order, add_order, restable_price, is_vacant, not_restable, exchange_id_duplicated,
}
use order_book.Matching.{within_limit, MatchingResult, Execution}
use order_book.Matching.Sweep.{Sweep, fillable_quantity, count_levels, count_orders}
use order_book.Matching.Engine.{
  Outcome, fill_against, after_sweep, settled, remainder, process_limit_order,
  process_fok_limit_order, process_market_order, reported, last_price, execute_loop,
}
use order_book.Matching.Halts.Level.{Ends, Ends-bind}
use order_book.Matching.Halts.{fill_against-Ends}

ok_or_failed-Ends :
    {A : Type 0} (o : Option A) (e : OrderBookError) → Ends (λ a. o ≡ some a) (ok_or o (failed e))
ok_or_failed-Ends none e = tt
ok_or_failed-Ends (some a) e = refl

ok_or_panic-Ends : {A : Type 0} (o : Option A) → Ends (λ a. o ≡ some a) (ok_or o panic)
ok_or_panic-Ends none = tt
ok_or_panic-Ends (some a) = refl

guard-Ends : (b : Bool) (e : OrderBookError) → Ends (λ u. Unit {0}) (guard b (failed e))
guard-Ends true e = tt
guard-Ends false e = tt

admitted-Ends : (r : Result RejectReason (Unit {0})) → Ends (λ u. Unit {0}) (admitted r)
unfolding admitted
admitted-Ends (ok u) = tt
admitted-Ends (err e) = tt

stored-Ends : {A : Type 0} (P : A → Type 0) (r : Result StoreError A) → OnOk P r → Ends P (stored r)
unfolding stored
stored-Ends P (ok a) h = h
stored-Ends P (err e) h = tt

module _ (slots : SlotMap) (stores : OrderBookStore slots.Key) (Valid : stores.Store → Type 0)
    (laws : IsStore slots.Key stores Valid) where
  open slots use {Key}

  -- The store stays valid, and the pending stops as they were.
  abbrev pub Keeps : OrderBook slots stores → OrderBook slots stores → Type 0
  Keeps b b' = Valid b'.store × (b'.stop_bids ≡ b.stop_bids) × (b'.stop_asks ≡ b.stop_asks)

  admit-Ends :
      (b : OrderBook slots stores) (order : Order)
      → Ends (λ u. Unit {0}) (admit slots stores b order)
  unfolding admit
  admit-Ends b order = admitted-Ends (admit_order b.spec order)

  put-valid :
      (store : stores.Store) (side : Side) (price : Price) (level m : BookLevel Key)
      → Valid store
      → stores.level store side price ≡ some level
      → m.price ≡ level.price
      → Valid (stores.put store side price m)
  put-valid store side price level m v e q =
      let found = sym (laws.level_lem store side price v) ∙ e in
      let at = find_level-price Key price (stores.levels store side) level found in
      subst (λ p. Valid (stores.put store side p m)) (q ∙ at)
        (laws.put_lem store side m level v
          (subst (λ p. stores.level store side p ≡ some level) (sym (q ∙ at)) e)).0

  count_levels-Ends :
      (nodes : OrderArena slots) (taker : Order) (bound : Price) (levels : Ladder Key)
      (available : Qty)
      → Ends (λ n. Unit {0}) (count_levels slots stores nodes taker bound available levels)
  unfolding count_levels
  count_levels-Ends nodes taker bound [] available = tt
  count_levels-Ends nodes taker bound (l ∷ ls) available =
      elim (Bool-cases (within_limit taker.side l.price bound)) [
        | inr e ↦ rw (e, Ends) tt
        | inl e ↦
            rw (e, Ends)
              (Ends-bind (λ n. Unit {0}) (ok_or (iter slots l.queue nodes) panic) _
                (ok_or_panic-Ends (iter slots l.queue nodes))
                (λ os _.
                  let counted =
                    count_orders taker.client_id taker.remaining_quantity available os in
                  elim (Bool-cases counted.1) [
                    | inl e' ↦ rw (e', Ends) tt
                    | inr e' ↦ rw (e', Ends) (count_levels-Ends nodes taker bound ls counted.0)
                  ]))
      ]

  fillable_quantity-Ends :
      (store : stores.Store) (nodes : OrderArena slots) (side : Side) (taker : Order)
      (bound : Price)
      → Ends (λ n. Unit {0}) (fillable_quantity slots stores store nodes side taker bound)
  unfolding fillable_quantity
  fillable_quantity-Ends store nodes side taker bound =
      count_levels-Ends nodes taker bound (stores.levels store side) 0

  add_order-Ends :
      (b : OrderBook slots stores) (order : Order)
      → Valid b.store
      → Ends (Keeps b) (add_order slots stores b order)
  unfolding add_order
  add_order-Ends b order v =
      Ends-bind (Keeps b) (ok_or (restable_price order.order_type) (failed not_restable)) _
        (ok_or_failed-Ends (restable_price order.order_type) not_restable)
        (λ price _. Ends-bind (Keeps b) (admit slots stores b order) _ (admit-Ends b order) (λ _ _.
          Ends-bind (Keeps b)
            (guard (is_vacant (map_get order.exchange_id b.index)) (failed exchange_id_duplicated))
            _ (guard-Ends _ exchange_id_duplicated)
            (λ _ _.
              Ends-bind (Keeps b) (ok_or (checked u32_mod (b.next_arrival + 1)) panic) _
                (ok_or_panic-Ends (checked u32_mod (b.next_arrival + 1)))
                (λ next _.
                  Ends-bind (Keeps b) (stored (stores.ensure_level b.store order.side price)) _
                    (stored-Ends _ (stores.ensure_level b.store order.side price)
                      (laws.ensure_level_lem b.store order.side price v))
                    (λ store p.
                      Ends-bind (Keeps b) (ok_or (stores.level store order.side price) panic) _
                        (ok_or_panic-Ends (stores.level store order.side price))
                        (λ level e.
                          Ends-bind (Keeps b)
                            (ok_or
                              (push_back slots level.queue b.nodes
                                (record order { arrival = b.next_arrival }))
                              panic)
                            _
                            (ok_or_panic-Ends (
                              push_back slots level.queue b.nodes
                                (record order { arrival = b.next_arrival })))
                            (λ r _. (
                              put-valid store order.side price level (record level { queue = r.0 })
                                  p.0 e refl,
                              refl,
                              refl,
                            ))))))))

  module _ (b : OrderBook slots stores) where
    settled-Keeps :
        {A : Type 0} (b' : OrderBook slots stores) (m : Result Fault (OrderBook slots stores))
        (a : A)
        → Keeps b b'
        → Ends (Keeps b') m
        → Ends (λ r. Keeps b r.0) (settled slots stores b' m a)
    unfolding settled
    settled-Keeps b' (ok c) a k h = (h.0, h.1 ∙ k.1, h.2 ∙ k.2)
    settled-Keeps b' (err (failed e)) a k h = k
    settled-Keeps b' (err panic) a k h = tt
    settled-Keeps b' (err out_of_fuel) a k h = absurd h

    remainder-Keeps :
        (b' : OrderBook slots stores) (s : Sweep slots stores) (tif : TimeInForce)
        → Keeps b b'
        → Ends (λ r. Keeps b r.0) (remainder slots stores b' s tif)
    unfolding remainder
    remainder-Keeps b' s gtc k =
        settled-Keeps b' (add_order slots stores b' s.taker) _ k (add_order-Ends b' s.taker k.0)
    remainder-Keeps b' s ioc k = k
    remainder-Keeps b' s fok k = k

    after_sweep-Keeps :
        (s : Sweep slots stores) → Valid s.store → Keeps b (after_sweep slots stores b s)
    unfolding after_sweep
    after_sweep-Keeps s v = (v, refl, refl)

    process_limit_order-Keeps :
        (order : Order) (bound : Price) (tif : TimeInForce)
        → Valid b.store
        → Ends (λ r. Keeps b r.0) (process_limit_order slots stores b order bound tif)
    unfolding process_limit_order
    process_limit_order-Keeps order bound tif v =
        Ends-bind
          (λ (r : OrderBook slots stores × Result OrderBookError MatchingResult). Keeps b r.0)
          (fill_against slots stores b order (some bound)) _
          (fill_against-Ends slots stores Valid laws b order (some bound) v)
          (λ s w. elim (Bool-cases (is_zero s.taker.remaining_quantity)) [
            | inl e ↦ rw (e, Ends) (after_sweep-Keeps s w)
            | inr e ↦
                rw (e, Ends)
                  (remainder-Keeps (after_sweep slots stores b s) s tif (after_sweep-Keeps s w))
          ])

    process_market_order-Keeps :
        (order : Order)
        → Valid b.store
        → Ends (λ r. Keeps b r.0) (process_market_order slots stores b order)
    unfolding process_market_order
    process_market_order-Keeps order v =
        Ends-bind
          (λ (r : OrderBook slots stores × Result OrderBookError MatchingResult). Keeps b r.0)
          (fill_against slots stores b order none) _
          (fill_against-Ends slots stores Valid laws b order none v) (λ s w. after_sweep-Keeps s w)

    process_fok_limit_order-Keeps :
        (order : Order) (bound : Price)
        → Valid b.store
        → Ends (λ r. Keeps b r.0) (process_fok_limit_order slots stores b order bound)
    unfolding process_fok_limit_order
    process_fok_limit_order-Keeps order bound v =
        Ends-bind
          (λ (r : OrderBook slots stores × Result OrderBookError MatchingResult). Keeps b r.0)
          (fillable_quantity slots stores b.store b.nodes (opposite order.side) order bound) _
          (fillable_quantity-Ends b.store b.nodes (opposite order.side) order bound)
          (λ available _. elim (Bool-cases (ltb available order.remaining_quantity)) [
            | inl e ↦ rw (e, Ends) (v, refl, refl)
            | inr e ↦
                rw (e, Ends)
                  (Ends-bind
                    (λ (r : OrderBook slots stores × Result OrderBookError MatchingResult).
                      Keeps b r.0)
                    (fill_against slots stores b order (some bound)) _
                    (fill_against-Ends slots stores Valid laws b order (some bound) v)
                    (λ s w. after_sweep-Keeps s w))
          ])

    reported-Keeps :
        (id : ExchangeId) (r : OrderBook slots stores × Result OrderBookError MatchingResult)
        → Keeps b r.0
        → Keeps b (reported slots stores id r).0
    unfolding reported
    reported-Keeps id (b', err e) k = k
    reported-Keeps id (b', ok r) k = elim (Option-cases (last_price r.trades)) [
      | inl e ↦ rw (e, reported) k
      | inr (p, e) ↦ rw (e, reported) k
    ]

    reported-Ends :
        (id : ExchangeId) (m : Outcome slots stores MatchingResult)
        → Ends (λ r. Keeps b r.0) m
        → Ends (λ r. Keeps b r.0) (m >>= λ r. ok (reported slots stores id r))
    reported-Ends id m h =
        Ends-bind (λ (r : OrderBook slots stores × Result OrderBookError Execution). Keeps b r.0) m
          _ h (reported-Keeps id)

  -- An order that is no stop, executed.
  pub execute_limit-Keeps :
      (fuel : ℕ) (b : OrderBook slots stores) (order : Order) (price : Price) (tif : TimeInForce)
      → order.order_type ≡ limit price tif
      → Valid b.store
      → Ends (λ r. Keeps b r.0) (execute_loop slots stores (suc fuel) b order)
  unfolding execute_loop
  execute_limit-Keeps fuel b order price gtc e v =
      rw (e, Ends)
        (reported-Ends b order.exchange_id _ (process_limit_order-Keeps b order price gtc v))
  execute_limit-Keeps fuel b order price ioc e v =
      rw (e, Ends)
        (reported-Ends b order.exchange_id _ (process_limit_order-Keeps b order price ioc v))
  execute_limit-Keeps fuel b order price fok e v =
      rw (e, Ends)
        (reported-Ends b order.exchange_id _ (process_fok_limit_order-Keeps b order price v))

  pub execute_market-Keeps :
      (fuel : ℕ) (b : OrderBook slots stores) (order : Order)
      → order.order_type ≡ market
      → Valid b.store
      → Ends (λ r. Keeps b r.0) (execute_loop slots stores (suc fuel) b order)
  unfolding execute_loop
  execute_market-Keeps fuel b order e v =
      rw (e, Ends) (reported-Ends b order.exchange_id _ (process_market_order-Keeps b order v))
