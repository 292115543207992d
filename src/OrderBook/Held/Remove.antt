-- ===== src/OrderBook/Held/Remove.antt =====
-- One order leaves a queue of src/orderbook.rs and the index.
use order_book.Prelude.{
  ◌≡◌, ◌⊎◌, inl, inr, refl, ap, ◌++◌, ◌∷◌, none, arith, Bool-cases, map_get, map_remove,
  map_get-map_remove, text_beq, text_beq_iff, text_eq, sym,
}
use order_book.Side.{Side}
use order_book.Instrument.{Price}
use order_book.Types.{ExchangeId, Order}
use order_book.OrderQueue.{SlotMap, OrderArena, LevelQueue}
use order_book.OrderQueue.Chain.{Entries, Same, IsQueue}
use order_book.Storage.{OrderBookStore}
use order_book.Storage.Ladder.{IsStore}
use order_book.OrderBook.{OrderBook}
use order_book.OrderBook.Contents.{At, At-right, Contents}
use order_book.OrderBook.Held.{Index, Held}
use order_book.OrderBook.Held.Change.{Held-change}
use order_book.OrderBook.Cancel.Others.{At-remove, At-insert, taken_out, length-middle}

module _ (slots : SlotMap) (stores : OrderBookStore slots.Key) (Valid : stores.Store → Type 0)
    (laws : IsStore slots.Key stores Valid) (b : OrderBook slots stores) (c : Contents slots)
    (side : Side) (price : Price) where
  open slots use {Key}

  module _ (nodes nodes' : OrderArena slots) (index : Index Key) (q q' : LevelQueue Key)
      (xs ys : Entries slots) (k : Key) (o : Order)
      (v : Held slots stores Valid laws b c side price nodes index q (xs ++ (k, o) ∷ ys)) where
    removed_ids :
        (i : ExchangeId)
        → (map_get i (map_remove o.exchange_id index) ≡ map_get i index)
          ⊎ ((map_get i (map_remove o.exchange_id index) ≡ none)
              × ((j : Key) × (x : Order) × At slots j x (xs ++ (k, o) ∷ ys)
                  × (x.exchange_id ≡ i)
                  × ((y : Order) → At slots j y (xs ++ ys) → ⊥)))
    removed_ids i = elim (Bool-cases (text_beq i o.exchange_id)) [
      | inr t ↦ inl (rw (map_get-map_remove i o.exchange_id index, t) refl)
      | inl t ↦ inr (
        rw (map_get-map_remove i o.exchange_id index, t) refl,
        (
          k,
          o,
          At-right slots k o xs ((k, o) ∷ ys) (inl refl),
          sym ((text_beq_iff i o.exchange_id).0 t),
          λ y h. taken_out slots k o y xs ys v.queue.keys h,
        ),
      )
    ]

    pub Held-remove :
        IsQueue slots nodes' q' (xs ++ ys)
        → Same slots nodes nodes' (xs ++ (k, o) ∷ ys)
        → Held slots stores Valid laws b c side price nodes'
            (map_remove o.exchange_id index)
            q'
            (xs ++ ys)
    Held-remove queue same =
        Held-change slots stores Valid laws b c side price nodes index q (xs ++ (k, o) ∷ ys) v
          nodes' (map_remove o.exchange_id index) q' (xs ++ ys) queue same
          (λ j x h. (x, At-insert slots k j o x xs ys h, refl))
          (λ j x h. elim (At-remove slots k j o x xs ys h) [
            | inl gone ↦ inr (
                rw
                  (
                    map_get-map_remove x.exchange_id o.exchange_id index,
                    (text_beq_iff x.exchange_id o.exchange_id).1
                        (ap (λ (y : Order). y.exchange_id) (sym gone.1)),
                  )
                  refl)
            | inr kept ↦ inl (x, kept, refl)
          ])
          removed_ids (omega (arith, length-middle slots xs ys (k, o)))
