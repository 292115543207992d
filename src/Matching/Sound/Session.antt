-- ===== src/Matching/Sound/Session.antt =====
-- A session of src/matching.rs and src/orderbook.rs: a new book, orders submitted and rested, ids
-- cancelled.
use order_book.Prelude.{
  ℕ, suc, ◌+◌, ◌<◌, ◌≡◌, subst, sym, ◌∙◌, ok, ok_inj, Result, arith, u32_mod, some, none, List, ◌∷◌,
  ◌++◌, map_get, nat_eq,
}
use order_book.Instrument.{InstrumentSpec, Price}
use order_book.Allocation.{MatchingAlgorithm}
use order_book.Types.{ExchangeId, Order}
use order_book.OrderQueue.{SlotMap, IsSlotMap}
use order_book.Storage.{OrderBookStore}
use order_book.Storage.Ladder.{IsStore}
use order_book.OrderBook.{OrderBook, OrderBookError, try_new, add_order, cancel_order}
use order_book.OrderBook.{OrderLocation, stop_book, order_location, get_order}
use order_book.OrderBook.Runs.{Agrees-cancels}
use order_book.Matching.Sound.Finds.{stops_of, IsSound-finds_stop}
use order_book.Side.{Side}
use order_book.OrderBook.Returns.{Returns, Returns-ok, Returns-map}
use order_book.Matching.{ExecutionReport}
use order_book.Matching.Engine.{submit}
use order_book.Matching.Safe.Level.{IsInRange}
use order_book.Matching.Sound.{submit-IsSound}
use order_book.Matching.Sound.Parks.{IsSound, HasRoom}
use order_book.Matching.Sound.Cancels.{try_new-HasRoom, add_order-HasRoom, cancel_order-HasRoom}

module _ (slots : SlotMap) (stores : OrderBookStore slots.Key) where
  -- The books of a session in which `n` orders have been submitted or rested. A submission that
  -- fails leaves a book too.
  pub data Session (spec : InstrumentSpec) (matcher : MatchingAlgorithm)
      : ℕ → OrderBook slots stores → Type 0 where
    opened :
        {b : OrderBook slots stores}
        → try_new slots stores spec matcher ≡ ok b
        → Session spec matcher 0 b
    submitted :
        {n : ℕ} {b b' : OrderBook slots stores} {report : Result OrderBookError ExecutionReport}
        (order : Order)
        → Session spec matcher n b
        → submit slots stores b order ≡ ok (b', report)
        → Session spec matcher (suc n) b'
    added :
        {n : ℕ} {b b' : OrderBook slots stores} (order : Order)
        → Session spec matcher n b
        → add_order slots stores b order ≡ ok b'
        → Session spec matcher (suc n) b'
    cancelled :
        {n : ℕ} {b b' : OrderBook slots stores} (id : ExchangeId)
        → Session spec matcher n b
        → cancel_order slots stores b id ≡ ok b'
        → Session spec matcher n b'

  module _ (slot_laws : IsSlotMap slots) (Valid : stores.Store → Type 0)
      (laws : IsStore slots.Key stores Valid) (spec : InstrumentSpec) (matcher : MatchingAlgorithm)
      (range : IsInRange matcher) where
    Session-HasRoom :
        (k n : ℕ) (b : OrderBook slots stores)
        → Session spec matcher n b
        → n + k + 1 < u32_mod
        → HasRoom slots slot_laws stores Valid laws k b
    Session-HasRoom k n b (opened e) room =
        try_new-HasRoom slots slot_laws stores Valid laws k spec matcher b range (omega arith) e
    Session-HasRoom k n b' (submitted {n = m} {b = b} {report = report} order s e) room =
        let (r, done, v) =
          submit-IsSound slots slot_laws stores Valid laws k b order
            (Session-HasRoom (suc k) m b s (omega arith)) in
        subst
          (λ (x : OrderBook slots stores × Result OrderBookError ExecutionReport).
            HasRoom slots slot_laws stores Valid laws k x.0)
          (ok_inj (sym done ∙ e)) v
    Session-HasRoom k n b' (added {n = m} {b = b} order s e) room =
        Returns-ok _ (add_order slots stores b order) b'
          (add_order-HasRoom slots slot_laws stores Valid laws k b order
            (Session-HasRoom (suc k) m b s (omega arith)))
          e
    Session-HasRoom k n b' (cancelled {b = b} id s e) room =
        Returns-ok _ (cancel_order slots stores b id) b'
          (cancel_order-HasRoom slots slot_laws stores Valid laws k b id
            (Session-HasRoom k n b s room))
          e

    -- In a session of fewer than 2^32 - 2 orders, with a matcher whose fills point into the level
    -- that it is shown, the parts of the book agree, its stops too: each is indexed under its trigger,
    -- and each stop of the index is in its trigger's queue. Whatever order is submitted
    -- next, `submit` returns, without a panic and with the loops' fuel, and `cancel_order` returns
    -- on every id; the parts of the books that they leave agree too.
    pub Session-IsSound :
        (n : ℕ) (b : OrderBook slots stores) (order : Order) (id : ExchangeId)
        → Session spec matcher n b
        → n + 2 < u32_mod
        → IsSound slots slot_laws stores Valid laws b
          × ((r : OrderBook slots stores × Result OrderBookError ExecutionReport) × (submit slots
                  stores b order
                ≡ ok r)
              × IsSound slots slot_laws stores Valid laws r.0)
          × Returns (IsSound slots slot_laws stores Valid laws) (cancel_order slots stores b id)
    Session-IsSound n b order id s room =
        let v = Session-HasRoom 1 n b s (omega arith) in
        let (r, done, w) = submit-IsSound slots slot_laws stores Valid laws 0 b order v in
        (
          v.0,
          (r, done, w.0),
          Returns-map _ (cancel_order slots stores b id) (λ b' x. x.0)
              (cancel_order-HasRoom slots slot_laws stores Valid laws 1 b id v),
        )

    -- In a session of fewer than 2^32 - 2 orders, with a matcher whose fills point into the level
    -- that it is shown, every id that is located, at rest or among the stops, can be cancelled: it is
    -- then nowhere, and the parts of the book that is left agree.
    pub Session-cancels :
        (n : ℕ) (b : OrderBook slots stores) (id : ExchangeId) (place : OrderLocation)
        → Session spec matcher n b
        → n + 2 < u32_mod
        → order_location slots stores b id ≡ some place
        → (b' : OrderBook slots stores) × (cancel_order slots stores b id ≡ ok b')
          × (order_location slots stores b' id ≡ none)
          × IsSound slots slot_laws stores Valid laws b'
    Session-cancels n b id place s room e =
        let v = Session-HasRoom 1 n b s (omega arith) in
        let (b', done, gone) =
          Agrees-cancels slots stores slot_laws Valid laws b id place v.0.agrees e in
        (
          b',
          done,
          gone,
          (Returns-ok _ (cancel_order slots stores b id) b'
              (cancel_order-HasRoom slots slot_laws stores Valid laws 1 b id v) done).0,
        )

    -- In a session of fewer than 2^32 - 2 orders, with a matcher whose fills point into the level
    -- that it is shown, every pending stop is found by its id, and is located under its trigger.
    pub Session-finds_stop :
        (n : ℕ) (b : OrderBook slots stores) (side : Side) (trigger : Price) (xs ys : List Order)
        (o : Order)
        → Session spec matcher n b
        → n + 2 < u32_mod
        → map_get trigger (stops_of slots stores b side) ≡ some (xs ++ o ∷ ys)
        → (get_order slots stores b o.exchange_id ≡ some o)
          × (order_location slots stores b o.exchange_id ≡ some (stop_book side trigger))
    Session-finds_stop n b side trigger xs ys o s room e =
        IsSound-finds_stop slots slot_laws stores Valid laws b side trigger xs ys o
          (Session-HasRoom 1 n b s (omega arith)).0 e
