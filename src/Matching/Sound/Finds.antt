-- ===== src/Matching/Sound/Finds.antt =====
-- The lookups of src/orderbook.rs at a pending stop: `get_order` and `order_location` find it.
use order_book.Prelude.{
  ◌≡◌, refl, sym, List, [], ◌∷◌, ◌++◌, some, All, Bool-cases, inl, inr, map_get, nat_eq, text_eq,
  text_beq, text_beq_iff,
}
use order_book.Side.{Side, ask, bid}
use order_book.Instrument.{Price}
use order_book.Types.{Order}
use order_book.OrderQueue.{SlotMap, IsSlotMap}
use order_book.Storage.{OrderBookStore}
use order_book.Storage.Ladder.{IsStore}
use order_book.OrderBook.{
  OrderBook, at_stop, stop_book, Stops, find_order, find_at, get_order, order_location, location,
}
use order_book.Matching.Sound.Stops.{Distinct, IsParked, queue_at}
use order_book.Matching.Sound.Parks.{IsSound}

All-middle :
    (P : Order → Type 0) (xs : List Order) (o : Order) (ys : List Order)
    → All P (xs ++ o ∷ ys)
    → P o
All-middle P [] o ys h = h.0
All-middle P (x ∷ xs) o ys h = All-middle P xs o ys h.1

-- Among stops whose ids differ, the search finds the one that has the id.
find_order-Distinct :
    (xs : List Order) (o : Order) (ys : List Order)
    → Distinct (xs ++ o ∷ ys)
    → find_order o.exchange_id (xs ++ o ∷ ys) ≡ some o
unfolding find_order
find_order-Distinct [] o ys d = rw ((text_beq_iff o.exchange_id o.exchange_id).1 refl) refl
find_order-Distinct (x ∷ xs) o ys d = elim (Bool-cases (text_beq x.exchange_id o.exchange_id)) [
  | inl t ↦ absurd (All-middle _ xs o ys d.0 (sym ((text_beq_iff x.exchange_id o.exchange_id).0 t)))
  | inr t ↦ rw t (find_order-Distinct xs o ys d.1)
]

module _ (slots : SlotMap) (stores : OrderBookStore slots.Key) where
  -- The pending stops of a side.
  abbrev pub stops_of : OrderBook slots stores → Side → Stops
  stops_of b bid = b.stop_bids
  stops_of b ask = b.stop_asks

module _ (slots : SlotMap) (slot_laws : IsSlotMap slots) (stores : OrderBookStore slots.Key)
    (Valid : stores.Store → Type 0) (laws : IsStore slots.Key stores Valid) where
  stops_of-IsParked :
      (b : OrderBook slots stores) (side : Side)
      → IsSound slots slot_laws stores Valid laws b
      → IsParked side b.index (stops_of slots stores b side)
  stops_of-IsParked b bid v = v.bids_parked
  stops_of-IsParked b ask v = v.asks_parked

  found_at :
      (b : OrderBook slots stores) (side : Side) (trigger : Price) (q : List Order) (o : Order)
      → map_get trigger (stops_of slots stores b side) ≡ some q
      → find_order o.exchange_id q ≡ some o
      → find_at slots stores b o.exchange_id (at_stop side trigger) ≡ some o
  unfolding find_at
  found_at b bid trigger q o e f = rw (find_at, e) f
  found_at b ask trigger q o e f = rw (find_at, e) f

  -- A pending stop of a sound book is found by its id.
  pub IsSound-finds_stop :
      (b : OrderBook slots stores) (side : Side) (trigger : Price) (xs ys : List Order) (o : Order)
      → IsSound slots slot_laws stores Valid laws b
      → map_get trigger (stops_of slots stores b side) ≡ some (xs ++ o ∷ ys)
      → (get_order slots stores b o.exchange_id ≡ some o)
        × (order_location slots stores b o.exchange_id ≡ some (stop_book side trigger))
  unfolding get_order order_location location
  IsSound-finds_stop b side trigger xs ys o v e =
      let (here, apart, _) =
        queue_at side b.index trigger (xs ++ o ∷ ys) (stops_of slots stores b side)
          (stops_of-IsParked b side v) e in
      let at = All-middle _ xs o ys here in
      (
        rw (get_order, at)
            (found_at b side trigger (xs ++ o ∷ ys) o e (find_order-Distinct xs o ys apart)),
        rw (order_location, at) refl,
      )
