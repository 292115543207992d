-- ===== src/OrderBook/Cancel.antt =====
-- `cancel_order` of src/orderbook.rs on a book whose parts agree.
pub mod Others
pub mod Resting
use order_book.Prelude.{
  suc, ◌<◌, ◌≡◌, ◌≢◌, ◌⊎◌, inl, inr, refl, sym, ap, ◌∙◌, subst, [], ◌∷◌, ◌++◌, Option, none, some,
  false, ◌==◌, if◌then◌else◌, length, List, map_get, map_remove, map_get-map_remove, text_beq,
  text_beq_iff, text_eq, arith, some_inj, none_not_some, true_not_false, Bool-cases, ok_or, ◌>>=◌,
  ok,
}
use order_book.Side.{Side, ask, bid}
use order_book.Instrument.{Price}
use order_book.Types.Level.{side_beq}
use order_book.Types.{ExchangeId, Order}
use order_book.OrderQueue.{SlotMap, IsSlotMap, OrderArena, LevelQueue}
use order_book.OrderQueue.Chain.{Entries, Keys, Same, IsQueue}
use order_book.OrderQueue.Remove.{remove_key-IsQueue}
use order_book.Storage.{BookLevel, OrderBookStore}
use order_book.Storage.Ladder.{IsStore}
use order_book.Storage.Ladder.Place.{is_place, found, put_at, level-price, remove_place}
use order_book.OrderBook.{
  OrderBook, OrderAddress, at_level, at_stop, cancel_at, cancel_order, Stops, drop_stop,
}
use order_book.OrderBook.Contents.{
  At, At-split, At-right, Apart-elim, Contents, update, update_here, update_away, at_place, Stands,
  Stands-transfer, IsBook, elsewhere, same_address,
}
use order_book.OrderBook.Cancel.Others.{others, others_all}
use order_book.OrderBook.Held.{Beside, not_both}
use order_book.OrderBook.StopQueues.{queue_under, stops_of, left_under, drop_stop_lem}
use order_book.OrderBook.Reindex.{unparked-IsBook}
use order_book.OrderBook.Cancel.Resting.{shrunk, shrunk-others, cancel_at_level}

module _ (slots : SlotMap) (slot_laws : IsSlotMap slots) (stores : OrderBookStore slots.Key)
    (Valid : stores.Store → Type 0) (laws : IsStore slots.Key stores Valid) where
  open slots use {Key, get}

  abbrev IsBookOf : OrderBook slots stores → Contents slots → Type 0
  IsBookOf = IsBook slots stores Valid laws

  -- What a book holds once an id is cancelled: every place without the id's order, and the stops
  -- without the id's stop.
  abbrev pub Cancelled :
      OrderBook slots stores → Contents slots → ExchangeId → OrderAddress Key → Type 0
  Cancelled b c id address =
      (b' : OrderBook slots stores) × (cancel_order slots stores b id ≡ ok b')
      × (c' : Contents slots) × IsBookOf b' c'
      × ((s : Side) (p : Price) → c' s p ≡ others slots id (c s p))
      × ((s : Side) (p : Price)
          → queue_under p (stops_of slots stores b' s)
            ≡ left_under address id s p (queue_under p (stops_of slots stores b s)))

  same_stops :
      (b b' : OrderBook slots stores)
      → Beside slots stores b b'
      → (s : Side) → stops_of slots stores b' s ≡ stops_of slots stores b s
  same_stops b b' h bid = h.1
  same_stops b b' h ask = h.2

  -- Cancelling an order that rests leaves the stops alone.
  pub cancel_resting :
      (b : OrderBook slots stores) (c : Contents slots) (id : ExchangeId) (side : Side)
      (price : Price) (key : Key)
      → IsBookOf b c
      → map_get id b.index ≡ some (at_level side price key)
      → (r : Cancelled b c id (at_level side price key)) × Beside slots stores b r.0
        × (r.0.index ≡ map_remove id b.index)
        × (r.0.next_arrival ≡ b.next_arrival)
  unfolding cancel_order
  cancel_resting b c id side price key v e =
      let (o, h, named) = v.indexed id side price key e in
      let (xs, ys, here) = At-split slots key o (c side price) h in
      let (b', done, index, built, beside, next) =
        cancel_at_level slots slot_laws stores Valid laws b c v id side price key o named xs ys
          here in
      (
        (
          b',
          rw (cancel_order, e, ok_or, ◌>>=◌) done,
          shrunk slots slot_laws stores Valid laws b c v id side price key o named xs ys here,
          built,
          shrunk-others slots slot_laws stores Valid laws b c v id side price key o named xs ys here
              (λ s p j x h. ap (map_get x.exchange_id) (sym index) ∙ built.resting s p j x h),
          λ s p. ap (queue_under p) (same_stops b b' beside s),
        ),
        beside,
        index,
        next,
      )

  -- A pending stop is in no queue.
  stop-others :
      (b : OrderBook slots stores) (c : Contents slots) (id : ExchangeId) (side : Side)
      (trigger : Price)
      → IsBookOf b c
      → map_get id b.index ≡ some (at_stop side trigger)
      → (s : Side) (p : Price) → c s p ≡ others slots id (c s p)
  stop-others b c id side trigger v e s p = sym (
      others_all slots id (c s p) (λ k o h f.
        not_both side trigger s p k
          (some_inj (sym e ∙ ap (λ i. map_get i b.index) (sym f) ∙ v.resting s p k o h))))

  buy_stops_left :
      (b : OrderBook slots stores) (id : ExchangeId) (trigger : Price)
      (index : List (ExchangeId × OrderAddress Key)) (s : Side) (p : Price)
      → queue_under p (
          stops_of slots stores
            (record b { index = index; stop_bids = drop_stop b.stop_bids trigger id })
            s)
        ≡ left_under {Key = Key}
            (at_stop bid trigger)
            id
            s
            p
            (queue_under p (stops_of slots stores b s))
  unfolding side_beq
  buy_stops_left b id trigger index bid p = drop_stop_lem b.stop_bids trigger id p
  buy_stops_left b id trigger index ask p = refl

  sell_stops_left :
      (b : OrderBook slots stores) (id : ExchangeId) (trigger : Price)
      (index : List (ExchangeId × OrderAddress Key)) (s : Side) (p : Price)
      → queue_under p (
          stops_of slots stores
            (record b { index = index; stop_asks = drop_stop b.stop_asks trigger id })
            s)
        ≡ left_under {Key = Key}
            (at_stop ask trigger)
            id
            s
            p
            (queue_under p (stops_of slots stores b s))
  unfolding side_beq
  sell_stops_left b id trigger index ask p = drop_stop_lem b.stop_asks trigger id p
  sell_stops_left b id trigger index bid p = refl

  -- Whatever the index holds can be cancelled: `cancel_order` neither panics nor fails, and it leaves
  -- a book whose parts agree, where every place keeps its other orders, in their order; of a stop
  -- that is cancelled, the trigger keeps its other stops, in their order, and every other trigger
  -- all of its stops, as they all do when an order at rest is cancelled.
  pub cancel_order-IsBook :
      (b : OrderBook slots stores) (c : Contents slots) (id : ExchangeId)
      (address : OrderAddress Key)
      → IsBookOf b c
      → map_get id b.index ≡ some address
      → Cancelled b c id address
  unfolding cancel_order cancel_at
  cancel_order-IsBook b c id (at_level side price key) v e =
      (cancel_resting b c id side price key v e).0
  cancel_order-IsBook b c id (at_stop bid trigger) v e = (
    record b { index = map_remove id b.index; stop_bids = drop_stop b.stop_bids trigger id },
    rw (cancel_order, e, ok_or, ◌>>=◌, cancel_at) refl,
    c,
    unparked-IsBook slots stores Valid laws b c v (drop_stop b.stop_bids trigger id) b.stop_asks
        b.last_trade_price b.next_seq id bid trigger e,
    stop-others b c id bid trigger v e,
    buy_stops_left b id trigger (map_remove id b.index),
  )
  cancel_order-IsBook b c id (at_stop ask trigger) v e = (
    record b { index = map_remove id b.index; stop_asks = drop_stop b.stop_asks trigger id },
    rw (cancel_order, e, ok_or, ◌>>=◌, cancel_at) refl,
    c,
    unparked-IsBook slots stores Valid laws b c v b.stop_bids (drop_stop b.stop_asks trigger id)
        b.last_trade_price b.next_seq id ask trigger e,
    stop-others b c id ask trigger v e,
    sell_stops_left b id trigger (map_remove id b.index),
  )
