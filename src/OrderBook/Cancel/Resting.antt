-- ===== src/OrderBook/Cancel/Resting.antt =====
-- `cancel_order` of src/orderbook.rs at an order that rests: what is left agrees.
use order_book.Prelude.{
  ◌≡◌, inl, inr, refl, sym, ap, ◌∙◌, subst, ◌∷◌, ◌++◌, Option, none, some, map_get, map_remove,
  text_eq, Bool-cases, ok_or, ◌>>=◌, ok,
}
use order_book.Side.{Side}
use order_book.Instrument.{Price}
use order_book.Types.{ExchangeId, Order}
use order_book.OrderQueue.{SlotMap, IsSlotMap}
use order_book.OrderQueue.Chain.{Entries, IsQueue}
use order_book.OrderQueue.Remove.{remove_key-IsQueue}
use order_book.Storage.{BookLevel, OrderBookStore}
use order_book.Storage.Ladder.{IsStore}
use order_book.Storage.Ladder.Place.{is_place, found}
use order_book.OrderBook.{OrderBook, at_level, cancel_at}
use order_book.OrderBook.Contents.{
  At, Contents, update, update_here, update_away, at_place, Stands, IsBook,
}
use order_book.OrderBook.Reindex.{removed_not}
use order_book.OrderBook.Held.{Beside, Held, IsBook-Held, written_back, written_back-IsBook}
use order_book.OrderBook.Held.Remove.{Held-remove}
use order_book.OrderBook.Cancel.Others.{others, others_all, others_middle, middle_not_nil}

module _ (slots : SlotMap) (slot_laws : IsSlotMap slots) (stores : OrderBookStore slots.Key)
    (Valid : stores.Store → Type 0) (laws : IsStore slots.Key stores Valid) where
  open slots use {Key, get}

  abbrev IsBookOf : OrderBook slots stores → Contents slots → Type 0
  IsBookOf = IsBook slots stores Valid laws

  module _ (b : OrderBook slots stores) (c : Contents slots) (v : IsBookOf b c) (id : ExchangeId)
      (side : Side) (price : Price) (key : Key) (o : Order) (named : o.exchange_id ≡ id)
      (xs ys : Entries slots) (here : c side price ≡ xs ++ (key, o) ∷ ys) where
    abbrev pub shrunk : Contents slots
    shrunk = update slots c side price (xs ++ ys)

    standing :
        (l : Option (BookLevel Key)) (es : Entries slots)
        → Stands slots stores Valid laws b.nodes l es
        → es ≡ xs ++ (key, o) ∷ ys
        → (m : BookLevel Key) × (l ≡ some m) × IsQueue slots b.nodes m.queue (xs ++ (key, o) ∷ ys)
    standing none es h e = absurd (middle_not_nil slots xs ys (key, o) (sym e ∙ h))
    standing (some m) es h e = (m, refl, subst (IsQueue slots b.nodes m.queue) e h.1)

    -- The level that the order stands at.
    level_here :
        (m : BookLevel Key) × (found Key stores Valid laws b.store side price ≡ some m)
        × IsQueue slots b.nodes m.queue (xs ++ (key, o) ∷ ys)
    level_here =
        standing (found Key stores Valid laws b.store side price) (c side price)
          (v.stands side price) here

    -- Only the order itself has the id.
    pub shrunk-others :
        ((s : Side) (p : Price) (j : Key) (x : Order)
          → At slots j x (shrunk s p)
          → map_get x.exchange_id (map_remove id b.index) ≡ some (at_level s p j))
        → (s : Side) (p : Price) → shrunk s p ≡ others slots id (c s p)
    shrunk-others resting s p = elim (Bool-cases (is_place side price s p)) [
      | inl q ↦
          update_here slots c side price (xs ++ ys) s p q
          ∙ sym (
              others_middle slots id key o xs ys named (λ j x h f.
                removed_not b.index id x.exchange_id (at_level s p j)
                  (resting s p j x (
                    subst (At slots j x) (sym (update_here slots c side price (xs ++ ys) s p q)) h))
                  f))
          ∙ ap (others slots id) (sym (at_place slots c side price s p q ∙ here))
      | inr q ↦
          update_away slots c side price (xs ++ ys) s p q
          ∙ sym (
              others_all slots id (c s p) (λ j x h f.
                removed_not b.index id x.exchange_id (at_level s p j)
                  (resting s p j x (
                    subst (At slots j x) (sym (update_away slots c side price (xs ++ ys) s p q)) h))
                  f))
    ]

    -- Cancelling the order at this address succeeds.
    pub cancel_at_level :
        (b' : OrderBook slots stores) × (cancel_at slots stores
            (record b { index = map_remove id b.index })
            id
            (at_level side price key)
          ≡ ok b')
        × (b'.index ≡ map_remove id b.index)
        × IsBookOf b' shrunk
        × Beside slots stores b b'
        × (b'.next_arrival ≡ b.next_arrival)
    unfolding cancel_at
    cancel_at_level =
        let (m, e, stood) = level_here in
        let (q, nodes, removed, _, queued, same) =
          remove_key-IsQueue slots slot_laws b.nodes m.queue xs ys key o stood in
        let level_eq = laws.level_lem b.store side price v.valid ∙ e in
        let held : Held slots stores Valid laws b c side price b.nodes b.index m.queue
            (xs ++ (key, o) ∷ ys) =
          subst (Held slots stores Valid laws b c side price b.nodes b.index m.queue) here
            (IsBook-Held slots stores Valid laws b c side price m v e) in
        let left : Held slots stores Valid laws b c side price nodes (map_remove id b.index) q
            (xs ++ ys) =
          subst
            (λ i.
              Held slots stores Valid laws b c side price nodes (map_remove i b.index) q (xs ++ ys))
            named
            (Held-remove slots stores Valid laws b c side price b.nodes nodes b.index m.queue q xs
              ys key o held queued same) in
        (
          written_back slots stores Valid laws b c side price m nodes (map_remove id b.index) q,
          rw (cancel_at, level_eq, ok_or, ◌>>=◌, removed) refl,
          refl,
          written_back-IsBook slots stores Valid laws b c side price m nodes (map_remove id b.index)
              q (xs ++ ys) v.valid e left,
          (refl, refl, refl),
          refl,
        )
