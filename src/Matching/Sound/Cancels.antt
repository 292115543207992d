-- ===== src/Matching/Sound/Cancels.antt =====
-- `try_new`, `add_order` and `cancel_order` of src/orderbook.rs on a book that also matches: its stops
-- stay indexed too.
use order_book.Prelude.{
  ℕ, none_not_some, suc, ◌+◌, ◌<◌, ◌≡◌, refl, sym, ap, ◌∙◌, subst, [], some, ok, ok_or, guard,
  ◌>>=◌, OnOk, OnOk-bind, OnOk-any, arith, Option-cases, inl, inr, map_get, map_remove, text_eq,
  some_inj, u32_mod,
}
use order_book.Side.{Side, bid, ask}
use order_book.Instrument.{InstrumentSpec, Price}
use order_book.Allocation.{MatchingAlgorithm}
use order_book.Types.{ExchangeId, Order}
use order_book.OrderQueue.{SlotMap, IsSlotMap}
use order_book.Storage.{OrderBookStore}
use order_book.Storage.Ladder.{IsStore}
use order_book.OrderBook.{
  OrderBook, OrderAddress, at_level, at_stop, panic, lots_agree, stored, try_new, add_order,
  cancel_order, cancel_at, drop_stop,
}
use order_book.OrderBook.Returns.{Returns, Returns-map}
use order_book.OrderBook.Cancel.{cancel_resting}
use order_book.OrderBook.Held.{Parked, not_both}
use order_book.OrderBook.Reindex.{remove_other, unparked-IsBook}
use order_book.OrderBook.Rest.{add_order-Rests}
use order_book.OrderBook.Runs.{cancel_unknown, opened-Agrees}
use order_book.Matching.Engine.{count_stops}
use order_book.Matching.Stops.{drop_stop-IsStops}
use order_book.Matching.Safe.Level.{IsInRange}
use order_book.Matching.Sound.Stops.{IsParked-keep, other_side-IsParked}
use order_book.Matching.Sound.Kept.{AreThere-remove, drop_stop-AreThere}
use order_book.Matching.Sound.Drops.{drop_stop-IsParked}
use order_book.Matching.Sound.Parks.{HasRoom, Settles-HasRoom, bid_not_ask}

module _ (slots : SlotMap) (slot_laws : IsSlotMap slots) (stores : OrderBookStore slots.Key)
    (Valid : stores.Store → Type 0) (laws : IsStore slots.Key stores Valid) where
  open slots use {Key}

  abbrev Room : ℕ → OrderBook slots stores → Type 0
  Room = HasRoom slots slot_laws stores Valid laws

  -- A new book, beside its levels.
  abbrev IsNew : MatchingAlgorithm → OrderBook slots stores → Type 0
  IsNew matcher b =
      (b.next_arrival ≡ 1)
      × (b.stop_bids ≡ [])
      × (b.stop_asks ≡ [])
      × (b.matcher ≡ matcher)
      × (b.index ≡ [])

  try_new-IsNew :
      (spec : InstrumentSpec) (matcher : MatchingAlgorithm)
      → OnOk (IsNew matcher) (try_new slots stores spec matcher)
  unfolding try_new
  try_new-IsNew spec matcher =
      OnOk-bind (IsNew matcher)
        (guard (lots_agree slots stores matcher.lot_size spec.lot_size) panic) _
        (OnOk-any (guard (lots_agree slots stores matcher.lot_size spec.lot_size) panic))
        (λ _ _.
          OnOk-bind (IsNew matcher) (stored (stores.try_new spec)) _
            (OnOk-any (stored (stores.try_new spec))) (λ store _. (refl, refl, refl, refl, refl)))

  pub try_new-HasRoom :
      (n : ℕ) (spec : InstrumentSpec) (matcher : MatchingAlgorithm) (b : OrderBook slots stores)
      → IsInRange matcher
      → n + 1 < u32_mod
      → try_new slots stores spec matcher ≡ ok b
      → Room n b
  unfolding map_get
  try_new-HasRoom n spec matcher b range room e =
      let (next, bids, asks, same, index) : IsNew matcher b =
        subst (OnOk (IsNew matcher)) e (try_new-IsNew spec matcher) in
      (
        record {
          agrees = opened-Agrees slots stores slot_laws Valid laws spec matcher b e;
          bids = rw bids tt;
          asks = rw asks tt;
          bids_parked = rw bids tt;
          asks_parked = rw asks tt;
          bids_there = λ i k h. absurd (none_not_some (sym (rw index refl) ∙ h));
          asks_there = λ i k h. absurd (none_not_some (sym (rw index refl) ∙ h));
          range = rw same range;
        },
        omega (arith, room, next, ap count_stops bids, ap count_stops asks),
      )

  pub add_order-HasRoom :
      (n : ℕ) (b : OrderBook slots stores) (order : Order)
      → Room (suc n) b
      → Returns (Room n) (add_order slots stores b order)
  add_order-HasRoom n b order (v, room) =
      Returns-map (Room n) (add_order slots stores b order)
        (λ b' (price, key, at, built, parked, next, beside).
          (Settles-HasRoom slots slot_laws stores Valid laws n b b' (v, room)
            ((_, built), parked, omega (arith, next), beside)).0)
        (add_order-Rests slots slot_laws stores Valid laws b v.agrees.0 order v.agrees.1
          (omega (arith, room)))

  -- The stops stay when an order at rest leaves the index.
  stops_stay :
      (b : OrderBook slots stores) (id : ExchangeId) (side : Side) (price : Price) (key : Key)
      → map_get id b.index ≡ some (at_level side price key)
      → Parked b.index (map_remove id b.index)
  stops_stay b id side price key e i d p h =
      remove_other b.index id i (at_stop d p)
        (λ f. not_both d p side price key (some_inj (sym h ∙ ap (λ j. map_get j b.index) f ∙ e))) h

  cancel_known :
      (n : ℕ) (b : OrderBook slots stores) (id : ExchangeId) (address : OrderAddress Key)
      → Room n b
      → map_get id b.index ≡ some address
      → Returns (Room n) (cancel_order slots stores b id)
  unfolding cancel_order cancel_at
  cancel_known n b id (at_level side price key) (v, room) e =
      let ((b', done, c', built, _, _), (matcher, bids, asks), index, next) =
        cancel_resting slots slot_laws stores Valid laws b v.agrees.0 id side price key v.agrees.1
          e in
      let stay : Parked b.index b'.index =
        subst (Parked b.index) (sym index) (stops_stay b id side price key e) in
      rw (done, Returns)
        (
          record {
            agrees = (c', built);
            bids = rw bids v.bids;
            asks = rw asks v.asks;
            bids_parked =
                rw bids (IsParked-keep bid b.index b'.index b.stop_bids stay v.bids_parked);
            asks_parked =
                rw asks (IsParked-keep ask b.index b'.index b.stop_asks stay v.asks_parked);
            bids_there = rw (bids, index) (AreThere-remove bid b.index id b.stop_bids v.bids_there);
            asks_there = rw (asks, index) (AreThere-remove ask b.index id b.stop_asks v.asks_there);
            range = rw matcher v.range;
          },
          omega (arith, room, next, ap count_stops bids, ap count_stops asks),
        )
  cancel_known n b id (at_stop bid trigger) (v, room) e =
      let (left, fewer) = drop_stop-IsStops b.stop_bids trigger id v.bids in
      rw (cancel_order, e, ok_or, ◌>>=◌, cancel_at, Returns)
        (
          record {
            agrees = (
              v.agrees.0,
              unparked-IsBook slots stores Valid laws b v.agrees.0 v.agrees.1
                  (drop_stop b.stop_bids trigger id) b.stop_asks b.last_trade_price b.next_seq id
                  bid trigger e,
            );
            bids = left;
            asks = v.asks;
            bids_parked =
                drop_stop-IsParked bid b.index trigger id e b.stop_bids v.bids v.bids_parked;
            asks_parked =
                other_side-IsParked ask bid b.index trigger id b.stop_asks
                  (λ x. bid_not_ask (sym x)) e v.asks_parked;
            bids_there = drop_stop-AreThere bid b.index b.stop_bids trigger id v.bids_there;
            asks_there = AreThere-remove ask b.index id b.stop_asks v.asks_there;
            range = v.range;
          },
          omega (arith, room, fewer),
        )
  cancel_known n b id (at_stop ask trigger) (v, room) e =
      let (left, fewer) = drop_stop-IsStops b.stop_asks trigger id v.asks in
      rw (cancel_order, e, ok_or, ◌>>=◌, cancel_at, Returns)
        (
          record {
            agrees = (
              v.agrees.0,
              unparked-IsBook slots stores Valid laws b v.agrees.0 v.agrees.1 b.stop_bids
                  (drop_stop b.stop_asks trigger id) b.last_trade_price b.next_seq id ask trigger e,
            );
            bids = v.bids;
            asks = left;
            bids_parked =
                other_side-IsParked bid ask b.index trigger id b.stop_bids bid_not_ask e
                  v.bids_parked;
            asks_parked =
                drop_stop-IsParked ask b.index trigger id e b.stop_asks v.asks v.asks_parked;
            bids_there = AreThere-remove bid b.index id b.stop_bids v.bids_there;
            asks_there = drop_stop-AreThere ask b.index b.stop_asks trigger id v.asks_there;
            range = v.range;
          },
          omega (arith, room, fewer),
        )

  pub cancel_order-HasRoom :
      (n : ℕ) (b : OrderBook slots stores) (id : ExchangeId)
      → Room n b
      → Returns (Room n) (cancel_order slots stores b id)
  cancel_order-HasRoom n b id v = elim (Option-cases (map_get id b.index)) [
    | inl e ↦ rw (cancel_unknown slots stores slot_laws Valid laws b id e, Returns) tt
    | inr (a, e) ↦ cancel_known n b id a v e
  ]
