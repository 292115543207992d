-- ===== src/Matching/Sound/Pops.antt =====
-- `pop_triggered_stop` of src/matching.rs on a book whose parts agree.
use order_book.Prelude.{
  ℕ, map_remove, suc, ◌≡◌, sym, List, Option, none, some, Result, ok, err, arith, Option-cases, inl,
  inr, map_get, nat_eq, text_eq, tree_first, tree_last,
}
use order_book.Side.{Side, bid, ask}
use order_book.Instrument.{Price}
use order_book.Types.{Order}
use order_book.OrderQueue.{SlotMap, IsSlotMap}
use order_book.Storage.{OrderBookStore}
use order_book.Storage.Ladder.{IsStore}
use order_book.OrderBook.{OrderBook, Fault}
use order_book.OrderBook.Returns.{Runs, Runs-bind, Runs-map}
use order_book.OrderBook.Reindex.{unparked-IsBook}
use order_book.Matching.Engine.{
  pop_bid, pop_ask, pop_reached, pop_triggered_stop, take_stop, reached_up, reached_down,
}
use order_book.Matching.Halts.Level.{Ends}
use order_book.Matching.Cascade.{take_stop-Ends, reached_up-present, reached_down-present}
use order_book.Matching.Cascade.Turns.{Popped}
use order_book.OrderBook.{at_stop, Stops}
use order_book.OrderBook.Held.{Index}
use order_book.Matching.Stops.{IsStops}
use order_book.Matching.Sound.Kept.{AreThere, AreThere-remove, take_stop-AreThere}
use order_book.Matching.Sound.Stops.{IsParked, take_stop-IsParked, other_side-IsParked}
use order_book.Matching.Sound.Parks.{HasRoom, bid_not_ask}

-- What runs, and is so when it ends.
Runs-Ends :
    {A : Type 0} (P Q : A → Type 0) (m : Result Fault A)
    → Runs P m
    → Ends Q m
    → Runs (λ a. P a × Q a) m
Runs-Ends P Q (ok a) h k = (h, k)
Runs-Ends P Q (err e) h k = absurd h

Runs-both :
    {A : Type 0} (P Q : A → Type 0) (m : Result Fault A)
    → Runs P m
    → Runs Q m
    → Runs (λ a. P a × Q a) m
Runs-both P Q (ok a) h k = (h, k)
Runs-both P Q (err e) h k = absurd h

-- Taking a stop, with what it leaves in its book and in the index.
taken :
    {Key : Type 0} (side : Side) (index : Index Key) (stops : Stops) (e : Price × List Order)
    → IsStops stops
    → IsParked side index stops
    → AreThere side index stops
    → map_get e.0 stops ≡ some e.1
    → Runs
        (λ r.
          IsParked side (map_remove r.1.exchange_id index) r.0
          × (map_get r.1.exchange_id index ≡ some (at_stop side e.0))
          × AreThere side (map_remove r.1.exchange_id index) r.0)
        (take_stop stops e)
taken side index stops e s v there h =
    let runs = take_stop-IsParked side index stops e s v h in
    Runs-map _ (take_stop stops e) (λ r ((parked, at), left). (parked, at, left))
      (Runs-both _ _ (take_stop stops e) runs (
        take_stop-AreThere side index stops e there h
          (Runs-map _ (take_stop stops e) (λ r x. tt) runs)))

module _ (slots : SlotMap) (slot_laws : IsSlotMap slots) (stores : OrderBookStore slots.Key)
    (Valid : stores.Store → Type 0) (laws : IsStore slots.Key stores Valid) where
  abbrev Room : ℕ → OrderBook slots stores → Type 0
  Room = HasRoom slots slot_laws stores Valid laws

  abbrev Pops : ℕ → OrderBook slots stores → Option (OrderBook slots stores × Order) → Type 0
  Pops n = Popped slots stores (Room (suc n))

  pop_bid-Runs :
      (n : ℕ) (b : OrderBook slots stores) (e : Price × List Order)
      → Room n b
      → map_get e.0 b.stop_bids ≡ some e.1
      → Runs (Pops n b) (pop_bid slots stores b e)
  unfolding pop_bid
  pop_bid-Runs n b e (v, room) h =
      Runs-bind (Pops n b) (take_stop b.stop_bids e) _
        (Runs-Ends _ _ (take_stop b.stop_bids e)
          (taken bid b.index b.stop_bids e v.bids v.bids_parked v.bids_there h)
          (take_stop-Ends b.stop_bids e v.bids h))
        (λ r ((parked, at, there), (stops, fewer)). (
          (
            record {
              agrees = (
                v.agrees.0,
                unparked-IsBook slots stores Valid laws b v.agrees.0 v.agrees.1 r.0 b.stop_asks
                    b.last_trade_price b.next_seq r.1.exchange_id bid e.0 at,
              );
              bids = stops;
              asks = v.asks;
              bids_parked = parked;
              asks_parked =
                  other_side-IsParked ask bid b.index e.0 r.1.exchange_id b.stop_asks
                    (λ x. bid_not_ask (sym x)) at v.asks_parked;
              bids_there = there;
              asks_there = AreThere-remove ask b.index r.1.exchange_id b.stop_asks v.asks_there;
              range = v.range;
            },
            omega (arith, fewer, room),
          ),
          omega (arith, fewer),
        ))

  pop_ask-Runs :
      (n : ℕ) (b : OrderBook slots stores) (e : Price × List Order)
      → Room n b
      → map_get e.0 b.stop_asks ≡ some e.1
      → Runs (Pops n b) (pop_ask slots stores b e)
  unfolding pop_ask
  pop_ask-Runs n b e (v, room) h =
      Runs-bind (Pops n b) (take_stop b.stop_asks e) _
        (Runs-Ends _ _ (take_stop b.stop_asks e)
          (taken ask b.index b.stop_asks e v.asks v.asks_parked v.asks_there h)
          (take_stop-Ends b.stop_asks e v.asks h))
        (λ r ((parked, at, there), (stops, fewer)). (
          (
            record {
              agrees = (
                v.agrees.0,
                unparked-IsBook slots stores Valid laws b v.agrees.0 v.agrees.1 b.stop_bids r.0
                    b.last_trade_price b.next_seq r.1.exchange_id ask e.0 at,
              );
              bids = v.bids;
              asks = stops;
              bids_parked =
                  other_side-IsParked bid ask b.index e.0 r.1.exchange_id b.stop_bids bid_not_ask at
                    v.bids_parked;
              asks_parked = parked;
              bids_there = AreThere-remove bid b.index r.1.exchange_id b.stop_bids v.bids_there;
              asks_there = there;
              range = v.range;
            },
            omega (arith, fewer, room),
          ),
          omega (arith, fewer),
        ))

  pop_reached-Runs :
      (n : ℕ) (b : OrderBook slots stores) (last : Price)
      → Room n b
      → Runs (Pops n b) (pop_reached slots stores b last)
  unfolding pop_reached
  pop_reached-Runs n b last v = elim (Option-cases (reached_up last (tree_first b.stop_bids))) [
    | inr (up, e) ↦ rw (e, Runs) (pop_bid-Runs n b up v (reached_up-present last b.stop_bids up e))
    | inl e ↦ elim (Option-cases (reached_down last (tree_last b.stop_asks))) [
      | inr (down, e') ↦
          rw (e, e', Runs)
            (pop_ask-Runs n b down v (reached_down-present last b.stop_asks down v.0.asks e'))
      | inl e' ↦ rw (e, e', Runs) tt
    ]
  ]

  -- Over the last price, which is a field of the book.
  reached-Runs :
      (n : ℕ) (b : OrderBook slots stores) (o : Option Price)
      → Room n b
      → Runs (Pops n b) (elim o [ none ↦ ok none | some last ↦ pop_reached slots stores b last ])
  reached-Runs n b none v = tt
  reached-Runs n b (some last) v = pop_reached-Runs n b last v

  pub pop_triggered_stop-Runs :
      (n : ℕ) (b : OrderBook slots stores)
      → Room n b
      → Runs (Pops n b) (pop_triggered_stop slots stores b)
  unfolding pop_triggered_stop
  pop_triggered_stop-Runs n b v = reached-Runs n b b.last_trade_price v
