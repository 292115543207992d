-- ===== src/Matching/Sound/Parks.antt =====
-- A sound book of src/matching.rs: its parts agree, its stops too; and what parking a stop makes of it.
use order_book.Prelude.{
  ℕ, some, suc, ◌+◌, ◌<◌, ◌≡◌, sym, ap, subst, none, arith, Option-cases, inl, inr, map_get,
  map_insert, nat_eq, text_eq, u32_mod,
}
use order_book.Side.{Side, bid, ask}
use order_book.Instrument.{Price}
use order_book.Types.{ExchangeId, Order}
use order_book.OrderQueue.{SlotMap, IsSlotMap}
use order_book.Storage.{OrderBookStore}
use order_book.Storage.Ladder.{IsStore}
use order_book.OrderBook.{OrderBook, at_stop}
use order_book.OrderBook.Held.{Parked, Index}
use order_book.OrderBook.Reindex.{parked-IsBook, insert_other, insert_back}
use order_book.OrderBook.Runs.{Agrees}
use order_book.Matching.Engine.{push_stop, pending, count_stops, park, with_stop}
use order_book.Matching.Stops.{IsStops, push_stop-IsStops, count-push_stop}
use order_book.Matching.Activate.{Side-cases}
use order_book.Matching.Safe.Level.{IsInRange}
use order_book.OrderBook.Contents.{address_place}
use order_book.Matching.Sound.Kept.{AreThere, AreThere-keep, push_stop-AreThere}
use order_book.Matching.Sound.Stops.{IsParked, IsParked-keep, push_stop-IsParked}
use order_book.Matching.Sound.Active.{Settles}

pub bid_not_ask : bid ≡ ask → ⊥
bid_not_ask h = cc

module _ (slots : SlotMap) (slot_laws : IsSlotMap slots) (stores : OrderBookStore slots.Key)
    (Valid : stores.Store → Type 0) (laws : IsStore slots.Key stores Valid) where
  open slots use {Key}

  -- The parts of the book agree, its stops too, and its matcher fills what it is shown.
  pub record IsSound (b : OrderBook slots stores) : Type 0 where
    pub agrees : Agrees slots stores slot_laws Valid laws b
    pub bids : IsStops b.stop_bids
    pub asks : IsStops b.stop_asks
    pub bids_parked : IsParked bid b.index b.stop_bids
    pub asks_parked : IsParked ask b.index b.stop_asks
    pub bids_there : AreThere bid b.index b.stop_bids
    pub asks_there : AreThere ask b.index b.stop_asks
    pub range : IsInRange b.matcher

  -- A sound book with stamps left for its stops and for `n` orders more.
  abbrev pub HasRoom : ℕ → OrderBook slots stores → Type 0
  HasRoom n b = IsSound b × (b.next_arrival + pending slots stores b + n < u32_mod)

  pub Settles-HasRoom :
      (n : ℕ) (b b' : OrderBook slots stores)
      → HasRoom (suc n) b
      → Settles slots slot_laws stores Valid laws 1 b b'
      → HasRoom n b' × (pending slots stores b' ≡ pending slots stores b)
  Settles-HasRoom n b b' (v, room) (agrees, stops, next, (matcher, bids, asks)) =
      let same : pending slots stores b' ≡ pending slots stores b =
        omega (arith, ap count_stops bids, ap count_stops asks) in
      (
        (
          record {
            agrees = agrees;
            bids = subst IsStops (sym bids) v.bids;
            asks = subst IsStops (sym asks) v.asks;
            bids_parked =
                subst (IsParked bid b'.index) (sym bids)
                  (IsParked-keep bid b.index b'.index b.stop_bids stops.0 v.bids_parked);
            asks_parked =
                subst (IsParked ask b'.index) (sym asks)
                  (IsParked-keep ask b.index b'.index b.stop_asks stops.0 v.asks_parked);
            bids_there = subst (AreThere bid b'.index) (sym bids) (
                AreThere-keep bid b.index b'.index b.stop_bids (λ i k h. stops.1 i bid k h)
                  v.bids_there);
            asks_there = subst (AreThere ask b'.index) (sym asks) (
                AreThere-keep ask b.index b'.index b.stop_asks (λ i k h. stops.1 i ask k h)
                  v.asks_there);
            range = subst IsInRange (sym matcher) v.range;
          },
          omega (arith, same, next, room),
        ),
        same,
      )

  -- The index with the stop that is parked.
  abbrev with_parked : Index Key → Order → Side → Price → Index Key
  with_parked index order side trigger = map_insert order.exchange_id (at_stop side trigger) index

  -- Parking a stop puts none on the other side.
  other_side_back :
      (index : Index Key) (order : Order) (side d : Side) (trigger : Price)
      → (side ≡ d → ⊥)
      → (i : ExchangeId) (k : Price)
      → map_get i (with_parked index order side trigger) ≡ some (at_stop d k)
      → map_get i index ≡ some (at_stop d k)
  other_side_back index order side d trigger apart i k h =
      insert_back index order.exchange_id i (at_stop side trigger) (at_stop d k)
        (λ e. apart (ap (λ a. (address_place a).0) e)) h

  stops_kept :
      (index : Index Key) (order : Order) (side : Side) (trigger : Price)
      → map_get order.exchange_id index ≡ none
      → Parked index (with_parked index order side trigger)
  stops_kept index order side trigger vacant i d p h =
      insert_other index order.exchange_id i (at_stop side trigger) (at_stop d p) vacant h

  buy_stop_parked :
      (n : ℕ) (b : OrderBook slots stores) (order : Order) (trigger : Price)
      → HasRoom (suc n) b
      → map_get order.exchange_id b.index ≡ none
      → HasRoom n (record b {
        index = with_parked b.index order bid trigger;
        stop_bids = push_stop b.stop_bids trigger order;
      })
  buy_stop_parked n b order trigger (v, room) vacant = (
    record {
      agrees = (
        v.agrees.0,
        parked-IsBook slots stores Valid laws b v.agrees.0 v.agrees.1
            (push_stop b.stop_bids trigger order) b.stop_asks b.last_trade_price b.next_seq
            order.exchange_id bid trigger vacant,
      );
      bids = push_stop-IsStops b.stop_bids trigger order v.bids;
      asks = v.asks;
      bids_parked = push_stop-IsParked bid b.index b.stop_bids trigger order vacant v.bids_parked;
      asks_parked =
          IsParked-keep ask b.index (with_parked b.index order bid trigger) b.stop_asks
            (stops_kept b.index order bid trigger vacant) v.asks_parked;
      bids_there = push_stop-AreThere bid b.index b.stop_bids trigger order v.bids_there;
      asks_there =
          AreThere-keep ask b.index (with_parked b.index order bid trigger) b.stop_asks
            (other_side_back b.index order bid ask trigger bid_not_ask) v.asks_there;
      range = v.range;
    },
    omega (arith, room, count-push_stop b.stop_bids trigger order v.bids),
  )

  sell_stop_parked :
      (n : ℕ) (b : OrderBook slots stores) (order : Order) (trigger : Price)
      → HasRoom (suc n) b
      → map_get order.exchange_id b.index ≡ none
      → HasRoom n (record b {
        index = with_parked b.index order ask trigger;
        stop_asks = push_stop b.stop_asks trigger order;
      })
  sell_stop_parked n b order trigger (v, room) vacant = (
    record {
      agrees = (
        v.agrees.0,
        parked-IsBook slots stores Valid laws b v.agrees.0 v.agrees.1 b.stop_bids
            (push_stop b.stop_asks trigger order) b.last_trade_price b.next_seq order.exchange_id
            ask trigger vacant,
      );
      bids = v.bids;
      asks = push_stop-IsStops b.stop_asks trigger order v.asks;
      bids_parked =
          IsParked-keep bid b.index (with_parked b.index order ask trigger) b.stop_bids
            (stops_kept b.index order ask trigger vacant) v.bids_parked;
      asks_parked = push_stop-IsParked ask b.index b.stop_asks trigger order vacant v.asks_parked;
      bids_there =
          AreThere-keep bid b.index (with_parked b.index order ask trigger) b.stop_bids
            (other_side_back b.index order ask bid trigger (λ x. bid_not_ask (sym x))) v.bids_there;
      asks_there = push_stop-AreThere ask b.index b.stop_asks trigger order v.asks_there;
      range = v.range;
    },
    omega (arith, room, count-push_stop b.stop_asks trigger order v.asks),
  )

  with_stop-HasRoom :
      (n : ℕ) (b : OrderBook slots stores) (order : Order) (trigger : Price)
      → HasRoom (suc n) b
      → map_get order.exchange_id b.index ≡ none
      → HasRoom n (
          with_stop slots stores
            (record b { index = with_parked b.index order order.side trigger })
            order
            trigger)
  unfolding with_stop
  with_stop-HasRoom n b order trigger v vacant = elim (Side-cases order.side) [
    | inl e ↦
        rw (e, with_stop)
          (subst
            (λ s. HasRoom n (record b {
              index = with_parked b.index order s trigger;
              stop_bids = push_stop b.stop_bids trigger order;
            }))
            (sym e) (buy_stop_parked n b order trigger v vacant))
    | inr e ↦
        rw (e, with_stop)
          (subst
            (λ s. HasRoom n (record b {
              index = with_parked b.index order s trigger;
              stop_asks = push_stop b.stop_asks trigger order;
            }))
            (sym e) (sell_stop_parked n b order trigger v vacant))
  ]

  pub park-HasRoom :
      (n : ℕ) (b : OrderBook slots stores) (order : Order) (trigger : Price)
      → HasRoom (suc n) b
      → HasRoom n (park slots stores b order trigger).0
  unfolding park
  park-HasRoom n b order trigger v = elim (Option-cases (map_get order.exchange_id b.index)) [
    | inl e ↦ rw (e, park) (with_stop-HasRoom n b order trigger v e)
    | inr (a, e) ↦ rw (e, park) (v.0, omega (arith, v.1))
  ]
