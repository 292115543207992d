-- ===== src/Matching/Sound/Active.antt =====
-- An order that is no stop, executed by src/matching.rs on a book whose parts agree: no panic, and the
-- book's parts go on to agree.
use order_book.Prelude.{
  ℕ, suc, ◌+◌, ◌<◌, ◌≤◌, refl, ◌∙◌, [], ◌∷◌, Option, none, some, Result, ok, err, ok_or, ◌>>=◌,
  arith, All, Bool-cases, Option-cases, inl, inr, ltb, map, u32_mod,
}
use order_book.Side.{opposite}
use order_book.Instrument.{Price, Qty, is_zero}
use order_book.Types.{Order, ExchangeId, TimeInForce, gtc, ioc, fok}
use order_book.OrderQueue.{SlotMap, IsSlotMap, OrderArena}
use order_book.OrderQueue.Chain.{Entries}
use order_book.Storage.{OrderBookStore}
use order_book.Storage.Ladder.{IsStore, Ladder}
use order_book.OrderBook.{OrderBook, OrderBookError, Fault, failed, panic, out_of_fuel, add_order}
use order_book.OrderBook.Returns.{Returns, Returns-map, Runs, Runs-bind}
use order_book.OrderBook.Held.{SameStops, SameStops-refl, SameStops-trans, Beside}
use order_book.OrderBook.Levels.{Holds, book-Holds, iter-IsQueue}
use order_book.OrderBook.Reindex.{same_index-IsBook}
use order_book.OrderBook.Rest.{add_order-Rests}
use order_book.OrderBook.Runs.{Agrees}
use order_book.Matching.{within_limit, MatchingResult}
use order_book.Matching.Sweep.{Sweep, fillable_quantity, count_levels, count_orders}
use order_book.Matching.Engine.{
  Outcome, fill_against, after_sweep, settled, remainder, process_limit_order,
  process_fok_limit_order, process_market_order, reported, last_price, execute_loop,
}
use order_book.Matching.Activate.{IsActive}
use order_book.Matching.Safe.{fill_against-IsBook}
use order_book.Matching.Safe.Level.{IsInRange}

module _ (slots : SlotMap) (slot_laws : IsSlotMap slots) (stores : OrderBookStore slots.Key)
    (Valid : stores.Store → Type 0) (laws : IsStore slots.Key stores Valid) where
  open slots use {Key}

  -- The book settles in one whose parts agree, with no more than `n` orders at rest that were not.
  abbrev pub Settles : ℕ → OrderBook slots stores → OrderBook slots stores → Type 0
  Settles n b b' =
      Agrees slots stores slot_laws Valid laws b'
      × SameStops b.index b'.index
      × (b'.next_arrival ≤ b.next_arrival + n)
      × Beside slots stores b b'

  count_levels-Runs :
      (nodes : OrderArena slots) (c : Price → Entries slots) (taker : Order) (bound : Price)
      (ls : Ladder Key) (available : Qty)
      → All (Holds slots nodes (opposite taker.side) c) ls
      → Runs (λ q. Unit {0}) (count_levels slots stores nodes taker bound available ls)
  unfolding count_levels
  count_levels-Runs nodes c taker bound [] available h = tt
  count_levels-Runs nodes c taker bound (l ∷ ls) available h =
      elim (Bool-cases (within_limit taker.side l.price bound)) [
        | inr e ↦ rw (e, Runs) tt
        | inl e ↦
            let os = map (λ x. x.1) (c l.price) in
            elim (Bool-cases
              (count_orders taker.client_id taker.remaining_quantity available os).1) [
                | inl e' ↦
                    rw
                      (
                        e,
                        iter-IsQueue slots nodes l.queue (c l.price) h.0.1,
                        ok_or,
                        ◌>>=◌,
                        e',
                        Runs,
                      )
                      tt
                | inr e' ↦
                    rw
                      (
                        e,
                        iter-IsQueue slots nodes l.queue (c l.price) h.0.1,
                        ok_or,
                        ◌>>=◌,
                        e',
                        Runs,
                      )
                      (count_levels-Runs nodes c taker bound ls _ h.1)
              ]
      ]

  fillable_quantity-Runs :
      (b : OrderBook slots stores) (taker : Order) (bound : Price)
      → Agrees slots stores slot_laws Valid laws b
      → Runs
          (λ q. Unit {0})
          (fillable_quantity slots stores b.store b.nodes (opposite taker.side) taker bound)
  unfolding fillable_quantity
  fillable_quantity-Runs b taker bound (c, v) =
      count_levels-Runs b.nodes (c (opposite taker.side)) taker bound
        (stores.levels b.store (opposite taker.side)) 0
        (book-Holds slots stores Valid laws b c (opposite taker.side) v)

  module _ (b : OrderBook slots stores) (agrees : Agrees slots stores slot_laws Valid laws b)
      (range : IsInRange b.matcher) (room : b.next_arrival + 1 < u32_mod) where
    -- What an operation returns, whether or not it fails.
    abbrev Settled : {A : Type 0} → OrderBook slots stores × Result OrderBookError A → Type 0
    Settled r = Settles 1 b r.0

    fill_against-Runs :
        (order : Order) (bound : Option Price)
        → Runs
            (λ s. Settles 0 b (after_sweep slots stores b s))
            (fill_against slots stores b order bound)
    unfolding after_sweep
    fill_against-Runs order bound =
        let (s, e, (c, built, clean, parked)) =
          fill_against-IsBook slots slot_laws stores Valid laws b agrees.0 order bound agrees.1
            range in
        rw (e, Runs) ((c, built), parked, omega arith, (refl, refl, refl))

    one_more : (b' : OrderBook slots stores) → Settles 0 b b' → Settles 1 b b'
    one_more b' h = (h.0, h.1, omega (arith, h.2), h.3)

    settled-Runs :
        {A : Type 0} (b' : OrderBook slots stores) (m : Result Fault (OrderBook slots stores))
        (a : A)
        → Settles 0 b b'
        → Returns (Settles 1 b') m
        → Runs Settled (settled slots stores b' m a)
    unfolding settled
    settled-Runs b' (ok d) a k h = (
      h.0,
      SameStops-trans b.index b'.index d.index k.1 h.1,
      omega (arith, h.2, k.2),
      (h.3.0 ∙ k.3.0, h.3.1 ∙ k.3.1, h.3.2 ∙ k.3.2),
    )
    settled-Runs b' (err (failed e)) a k h = one_more b' k
    settled-Runs b' (err panic) a k h = absurd h
    settled-Runs b' (err out_of_fuel) a k h = absurd h

    remainder-Runs :
        (b' : OrderBook slots stores) (s : Sweep slots stores) (tif : TimeInForce)
        → Settles 0 b b'
        → Runs Settled (remainder slots stores b' s tif)
    unfolding remainder
    remainder-Runs b' s gtc k = settled-Runs b' (add_order slots stores b' s.taker) _ k (
        Returns-map (Settles 1 b') (add_order slots stores b' s.taker)
          (λ d (price, key, at, built, parked, next, beside).
            ((_, built), parked, omega (arith, next), beside))
          (add_order-Rests slots slot_laws stores Valid laws b' k.0.0 s.taker k.0.1
            (omega (arith, k.2, room))))
    remainder-Runs b' s ioc k = one_more b' k
    remainder-Runs b' s fok k = one_more b' k

    process_limit_order-Runs :
        (order : Order) (bound : Price) (tif : TimeInForce)
        → Runs Settled (process_limit_order slots stores b order bound tif)
    unfolding process_limit_order
    process_limit_order-Runs order bound tif =
        Runs-bind Settled (fill_against slots stores b order (some bound)) _
          (fill_against-Runs order (some bound))
          (λ s k. elim (Bool-cases (is_zero s.taker.remaining_quantity)) [
            | inl e ↦ rw (e, Runs) (one_more (after_sweep slots stores b s) k)
            | inr e ↦ rw (e, Runs) (remainder-Runs (after_sweep slots stores b s) s tif k)
          ])

    process_market_order-Runs :
        (order : Order) → Runs Settled (process_market_order slots stores b order)
    unfolding process_market_order
    process_market_order-Runs order =
        Runs-bind Settled (fill_against slots stores b order none) _ (fill_against-Runs order none)
          (λ s k. one_more (after_sweep slots stores b s) k)

    process_fok_limit_order-Runs :
        (order : Order) (bound : Price)
        → Runs Settled (process_fok_limit_order slots stores b order bound)
    unfolding process_fok_limit_order
    process_fok_limit_order-Runs order bound =
        Runs-bind Settled
          (fillable_quantity slots stores b.store b.nodes (opposite order.side) order bound) _
          (fillable_quantity-Runs b order bound agrees)
          (λ available _. elim (Bool-cases (ltb available order.remaining_quantity)) [
            | inl e ↦ rw (e, Runs) (agrees, SameStops-refl b.index, omega arith, (refl, refl, refl))
            | inr e ↦
                rw (e, Runs)
                  (Runs-bind Settled (fill_against slots stores b order (some bound)) _
                    (fill_against-Runs order (some bound))
                    (λ s k. one_more (after_sweep slots stores b s) k))
          ])

    reported-Settled :
        (id : ExchangeId) (r : OrderBook slots stores × Result OrderBookError MatchingResult)
        → Settled r
        → Settled (reported slots stores id r)
    unfolding reported
    reported-Settled id (b', err e) k = k
    reported-Settled id (b', ok r) k = elim (Option-cases (last_price r.trades)) [
      | inl e ↦ rw (e, reported) k
      | inr (p, e) ↦
          rw (e, reported)
            (
              (
                k.0.0,
                same_index-IsBook slots stores Valid laws b' k.0.0 k.0.1 b'.stop_bids b'.stop_asks
                    (some p) b'.next_seq,
              ),
              k.1,
              k.2,
              k.3,
            )
    ]

    reported-Runs :
        (id : ExchangeId) (m : Outcome slots stores MatchingResult)
        → Runs Settled m
        → Runs Settled (m >>= λ r. ok (reported slots stores id r))
    reported-Runs id m h = Runs-bind Settled m _ h (reported-Settled id)

    -- An order that is no stop, executed.
    pub execute_active-Runs :
        (fuel : ℕ) (order : Order)
        → IsActive order.order_type
        → Runs (λ r. Settles 1 b r.0) (execute_loop slots stores (suc fuel) b order)
    unfolding execute_loop
    execute_active-Runs fuel order (inl e) =
        rw (e, Runs) (reported-Runs order.exchange_id _ (process_market_order-Runs order))
    execute_active-Runs fuel order (inr (price, gtc, e)) =
        rw (e, Runs) (reported-Runs order.exchange_id _ (process_limit_order-Runs order price gtc))
    execute_active-Runs fuel order (inr (price, ioc, e)) =
        rw (e, Runs) (reported-Runs order.exchange_id _ (process_limit_order-Runs order price ioc))
    execute_active-Runs fuel order (inr (price, fok, e)) =
        rw (e, Runs) (reported-Runs order.exchange_id _ (process_fok_limit_order-Runs order price))
