-- ===== src/OrderBook/Runs.antt =====
-- The books that `try_new`, `add_order` and `cancel_order` of src/orderbook.rs lead to.
use order_book.Prelude.{
  ◌+◌, ◌<◌, ◌≡◌, refl, sym, ap, subst, ◌∙◌, [], none, some, ok, err, ok_or, guard, OnOk, OnOk-bind,
  ◌>>=◌, u32_mod, map_get, text_eq, arith, Option-cases, inl, inr, none_not_some, err_not_ok,
  ok_inj, OnOk-any, if◌then◌else◌, text_beq, text_beq_iff,
}
use order_book.Side.{Side}
use order_book.Instrument.{InstrumentSpec, Price}
use order_book.Allocation.{MatchingAlgorithm}
use order_book.Types.{ExchangeId, Order}
use order_book.OrderQueue.{SlotMap, IsSlotMap}
use order_book.Storage.{OrderBookStore}
use order_book.Storage.Ladder.{IsStore, find_level}
use order_book.OrderBook.{
  OrderBook, OrderLocation, book, location, order_location, get_order, find_at, failed, panic,
  lots_agree, stored, try_new, add_order, cancel_order, order_not_found,
}
use order_book.OrderBook.Returns.{Returns-ok, OnOk-stored}
use order_book.OrderBook.Contents.{At, At-live, Contents, IsBook}
use order_book.OrderBook.Index.{Gone, cancel_order-Gone}
use order_book.OrderBook.Rest.{add_order-IsBook}
use order_book.OrderBook.Cancel.{cancel_order-IsBook}

module _ (slots : SlotMap) (stores : OrderBookStore slots.Key) where
  -- The books of a new book's life: orders rest while the arrival counter has a stamp left, and ids
  -- are cancelled, whether or not they are there.
  pub data Reaches (spec : InstrumentSpec) (matcher : MatchingAlgorithm)
      : OrderBook slots stores → Type 0 where
    opened :
        {b : OrderBook slots stores}
        → try_new slots stores spec matcher ≡ ok b
        → Reaches spec matcher b
    added :
        {b b' : OrderBook slots stores} (order : Order)
        → Reaches spec matcher b
        → b.next_arrival + 1 < u32_mod
        → add_order slots stores b order ≡ ok b'
        → Reaches spec matcher b'
    cancelled :
        {b b' : OrderBook slots stores} (id : ExchangeId)
        → Reaches spec matcher b
        → cancel_order slots stores b id ≡ ok b'
        → Reaches spec matcher b'

  module _ (slot_laws : IsSlotMap slots) (Valid : stores.Store → Type 0)
      (laws : IsStore slots.Key stores Valid) where
    -- The parts of the book agree.
    abbrev pub Agrees : OrderBook slots stores → Type 0
    Agrees b = (c : Contents slots) × IsBook slots stores Valid laws b c

    pub cancel_unknown :
        (b : OrderBook slots stores) (id : ExchangeId)
        → map_get id b.index ≡ none
        → cancel_order slots stores b id ≡ err (failed order_not_found)
    unfolding cancel_order
    cancel_unknown b id f = rw (cancel_order, f, ok_or, ◌>>=◌) refl

    pub opened-Agrees :
        (spec : InstrumentSpec) (matcher : MatchingAlgorithm) (b : OrderBook slots stores)
        → try_new slots stores spec matcher ≡ ok b
        → Agrees b
    unfolding try_new map_get find_level
    opened-Agrees spec matcher b e = subst (OnOk Agrees) e (
        OnOk-bind Agrees (guard (lots_agree slots stores matcher.lot_size spec.lot_size) panic) _
          (OnOk-any (guard (lots_agree slots stores matcher.lot_size spec.lot_size) panic))
          (λ _ _.
            OnOk-bind Agrees (stored (stores.try_new spec)) _
              (OnOk-stored _ (stores.try_new spec) (laws.try_new_lem spec))
              (λ store h. (
                λ s p. [],
                record {
                  valid = h.0;
                  stands = λ s p. rw (h.1 s) refl;
                  indexed = λ id s p k f. absurd (none_not_some f);
                  resting = λ s p k o a. absurd a;
                  short = λ s p. omega arith;
                },
              ))))

    -- Every book that resting and cancelling lead to from a new one has parts that agree: the
    -- levels' queues, the arena and the index describe the same resting orders.
    pub Reaches-Agrees :
        (spec : InstrumentSpec) (matcher : MatchingAlgorithm) (b : OrderBook slots stores)
        → Reaches spec matcher b
        → Agrees b
    Reaches-Agrees spec matcher b (opened e) = opened-Agrees spec matcher b e
    Reaches-Agrees spec matcher b' (added {b = b} order r room e) =
        let (c, v) = Reaches-Agrees spec matcher b r in
        let (price, k, _, v') =
          Returns-ok _ (add_order slots stores b order) b'
            (add_order-IsBook slots slot_laws stores Valid laws b c order v room) e in
        (_, v')
    Reaches-Agrees spec matcher b' (cancelled {b = b} id r e) =
        let (c, v) = Reaches-Agrees spec matcher b r in
        elim (Option-cases (map_get id b.index)) [
          | inl f ↦ absurd (err_not_ok (sym (cancel_unknown b id f) ∙ e))
          | inr (a, f) ↦
              let (b'', done, c', v', _, _) =
                cancel_order-IsBook slots slot_laws stores Valid laws b c id a v f in
              subst Agrees (ok_inj (sym done ∙ e)) (c', v')
        ]

    -- An id that is located can be cancelled, and is then nowhere.
    pub Agrees-cancels :
        (b : OrderBook slots stores) (id : ExchangeId) (place : OrderLocation)
        → Agrees b
        → order_location slots stores b id ≡ some place
        → (b' : OrderBook slots stores) × (cancel_order slots stores b id ≡ ok b')
          × (order_location slots stores b' id ≡ none)
    unfolding order_location
    Agrees-cancels b id place (c, v) e = elim (Option-cases (map_get id b.index)) [
      | inl f ↦ absurd (none_not_some (sym (rw (order_location, f) refl) ∙ e))
      | inr (a, f) ↦
          let (b', done, _, _, _, _) =
            cancel_order-IsBook slots slot_laws stores Valid laws b c id a v f in
          let gone : order_location slots stores b' id
              ≡ (if text_beq id id then none else order_location slots stores b id) =
            subst (OnOk (Gone slots stores b id)) done (cancel_order-Gone slots stores b id) id in
          (b', done, gone ∙ rw ((text_beq_iff id id).1 refl) refl)
    ]

    -- In a book that resting and cancelling lead to, every id of the index can be cancelled, and is
    -- then nowhere.
    pub Reaches-cancels :
        (spec : InstrumentSpec) (matcher : MatchingAlgorithm) (b : OrderBook slots stores)
        (id : ExchangeId) (place : OrderLocation)
        → Reaches spec matcher b
        → order_location slots stores b id ≡ some place
        → (b' : OrderBook slots stores) × (cancel_order slots stores b id ≡ ok b')
          × (order_location slots stores b' id ≡ none)
    Reaches-cancels spec matcher b id place r e =
        Agrees-cancels b id place (Reaches-Agrees spec matcher b r) e

    -- Every order that rests is found by its id, and with it the node's order.
    pub get_order-At :
        (b : OrderBook slots stores) (c : Contents slots) (s : Side) (p : Price) (k : slots.Key)
        (o : Order)
        → IsBook slots stores Valid laws b c
        → At slots k o (c s p)
        → (get_order slots stores b o.exchange_id ≡ some o)
          × (order_location slots stores b o.exchange_id ≡ some (book s p))
    unfolding get_order find_at order_location location
    get_order-At b c s p k o v h =
        let (node, e, same) = At-live slots stores Valid laws b c v s p k o h in
        let at = v.resting s p k o h in
        (rw (get_order, at, find_at, e) (ap some same), rw (order_location, at) refl)
