-- ===== src/OrderBook/Rest.antt =====
-- `add_order` of src/orderbook.rs on a book whose parts agree.
pub mod Grown
use order_book.Prelude.{
  ℕ, ◌+◌, ◌<◌, ◌≡◌, ◌⊎◌, inl, inr, refl, sym, ap, ◌∙◌, subst, [], ◌∷◌, ◌++◌, Option, none, some,
  true, if◌then◌else◌, length, length-append, u32_mod, u64_mod, map_get, map_insert,
  map_get-map_insert, text_beq, text_beq_iff, text_eq, arith, some_inj, none_not_some, Bool-cases,
  checked, ok_or, guard, ◌>>=◌, ok,
}
use order_book.Side.{Side}
use order_book.Instrument.{Price}
use order_book.Types.{ExchangeId, Order}
use order_book.OrderQueue.{SlotMap, IsSlotMap, OrderArena, LevelQueue, push_back}
use order_book.OrderQueue.Chain.{Entries, Same, IsQueue}
use order_book.OrderQueue.Push.{push_back-IsQueue}
use order_book.Storage.{BookLevel, OrderBookStore}
use order_book.Storage
use order_book.Storage.Ladder.{IsStore}
use order_book.Storage.Ladder.Place.{
  is_place, is_place_refl, found, put_at, level-price, ensure_place, ensured,
}
use order_book.OrderBook.{
  OrderBook, OrderAddress, at_level, at_stop, failed, panic, not_restable, exchange_id_duplicated,
  restable_price, admit, admit_order, is_vacant, stored, add_order,
}
use order_book.OrderBook.Held.{SameStops, Beside, not_both}
use order_book.OrderBook.Reindex.{insert_other, insert_back}
use order_book.OrderBook.Rest.Grown.{
  stamped, grown, joined, level_found, level_joined, rested, rested-IsBook,
}
use order_book.OrderBook.Returns.{
  Returns, Returns-bind, Returns-map, Returns-failed, Returns-guard, Returns-some, Returns-admitted,
  Returns-stored,
}
use order_book.OrderBook.Contents.{
  At, At-append, At-left, At-right, Contents, update, Stands, Stands-transfer, IsBook, elsewhere,
  at_place, update_here, update_away, same_address, place_address,
}

module _ (slots : SlotMap) (slot_laws : IsSlotMap slots) (stores : OrderBookStore slots.Key)
    (Valid : stores.Store → Type 0) (laws : IsStore slots.Key stores Valid) where
  open slots use {Key, get}

  abbrev IsBookOf : OrderBook slots stores → Contents slots → Type 0
  IsBookOf = IsBook slots stores Valid laws

  admit-Returns :
      (b : OrderBook slots stores) (order : Order)
      → Returns (λ u. Unit {0}) (admit slots stores b order)
  unfolding admit
  admit-Returns b order = Returns-admitted (admit_order b.spec order)

  is_vacant-none : {A : Type 0} (o : Option A) → is_vacant o ≡ true → o ≡ none
  unfolding is_vacant
  is_vacant-none none h = refl
  is_vacant-none (some a) h = cc

  module _ (b : OrderBook slots stores) (c : Contents slots) (v : IsBookOf b c) (order : Order)
      (price : Price) (vacant : map_get order.exchange_id b.index ≡ none) where
    -- The book with the order at rest, the rest of the book as it was.
    abbrev Grown : ℕ → OrderBook slots stores → Type 0
    Grown next b' =
        (k : Key) × IsBookOf b' (grown slots stores Valid laws b c order price k)
        × SameStops b.index b'.index
        × (b'.next_arrival ≡ next)
        × Beside slots stores b b'

    -- The last steps of `add_order`, from the store with the order's level on.
    rest-IsBook :
        (next : ℕ)
        → b.next_arrival < next
        → next < u64_mod
        → Returns (Grown next) (
            stored (stores.ensure_level b.store order.side price) >>= λ store.
            ok_or (stores.level store order.side price) panic >>= λ level.
            ok_or
              (push_back slots level.queue b.nodes
                (stamped slots stores Valid laws b c order price))
              panic
            >>= λ r. ok (rested slots stores Valid laws b c order price store next level r))
    rest-IsBook next lt small =
        let Q : OrderBook slots stores → Type 0 = Grown next in
        let es = c order.side price in
        let (q', nodes, k, pushed, fresh, queued, same) =
          push_back-IsQueue slots slot_laws b.nodes
            (level_joined slots stores Valid laws b c order price).queue es
            (stamped slots stores Valid laws b c order price)
            (joined slots stores Valid laws b c order price v vacant
              (level_found slots stores Valid laws b c order price) es (v.stands order.side price))
            (omega (arith, v.short order.side price)) in
        Returns-bind Q (stored (stores.ensure_level b.store order.side price)) _
          (Returns-stored _ (stores.ensure_level b.store order.side price)
            (ensure_place Key stores Valid laws b.store order.side price v.valid))
          (λ store h.
            let level_eq : stores.level store order.side price
                ≡ some (level_joined slots stores Valid laws b c order price) =
              laws.level_lem store order.side price h.0
              ∙ h.1 order.side price
              ∙ rw (is_place_refl order.side price) refl in
            Returns-bind Q (ok_or (stores.level store order.side price) panic) _
              (Returns-some (stores.level store order.side price)
                (level_joined slots stores Valid laws b c order price) level_eq)
              (λ level at.
                Returns-bind Q
                  (ok_or
                    (push_back slots level.queue b.nodes
                      (stamped slots stores Valid laws b c order price))
                    panic)
                  _
                  (Returns-some
                    (push_back slots level.queue b.nodes
                      (stamped slots stores Valid laws b c order price))
                    (q', nodes, k)
                    (ap
                        (λ (l : BookLevel Key).
                          push_back slots l.queue b.nodes
                            (stamped slots stores Valid laws b c order price))
                        at
                      ∙ pushed))
                  (λ r is.
                    let kept : (j : Key)
                        → SameStops b.index
                            (map_insert order.exchange_id (at_level order.side price j) b.index) =
                      λ j. (
                        λ i d p e.
                            insert_other b.index order.exchange_id i (at_level order.side price j)
                              (at_stop d p) vacant e,
                        λ i d p e.
                            insert_back b.index order.exchange_id i (at_level order.side price j)
                              (at_stop d p) (λ x. not_both d p order.side price j (sym x)) e,
                      ) in
                    let built =
                      rested-IsBook slots stores Valid laws b c order price v vacant store next q'
                        nodes k h.0 h.1 level_eq lt fresh queued same in
                    subst (λ l. Q (rested slots stores Valid laws b c order price store next l r))
                      (sym at)
                      (subst
                        (λ x. Q (
                          rested slots stores Valid laws b c order price store next
                            (level_joined slots stores Valid laws b c order price) x))
                        (sym is) (k, built, kept k, refl, (refl, refl, refl))))))

  -- `add_order` with what it leaves of the rest of the book.
  pub add_order-Rests :
      (b : OrderBook slots stores) (c : Contents slots) (order : Order)
      → IsBookOf b c
      → b.next_arrival + 1 < u32_mod
      → Returns
          (λ b'.
            (price : Price) × (k : Key) × (restable_price order.order_type ≡ some price)
            × IsBookOf b' (
                update slots c order.side price
                  (c order.side price ++ (k, record order { arrival = b.next_arrival }) ∷ []))
            × SameStops b.index b'.index
            × (b'.next_arrival ≡ b.next_arrival + 1)
            × Beside slots stores b b')
          (add_order slots stores b order)
  unfolding add_order
  add_order-Rests b c order v room =
      let Q : OrderBook slots stores → Type 0 = λ b'.
        (price : Price) × (k : Key) × (restable_price order.order_type ≡ some price)
        × IsBookOf b' (
            update slots c order.side price
              (c order.side price ++ (k, record order { arrival = b.next_arrival }) ∷ []))
        × SameStops b.index b'.index
        × (b'.next_arrival ≡ b.next_arrival + 1)
        × Beside slots stores b b' in
      Returns-bind Q (ok_or (restable_price order.order_type) (failed not_restable)) _
        (Returns-failed (restable_price order.order_type) not_restable)
        (λ price at. Returns-bind Q (admit slots stores b order) _ (admit-Returns b order) (λ _ _.
          Returns-bind Q
            (guard (is_vacant (map_get order.exchange_id b.index)) (failed exchange_id_duplicated))
            _ (Returns-guard _ exchange_id_duplicated)
            (λ _ free.
              Returns-bind Q (ok_or (checked u32_mod (b.next_arrival + 1)) panic) _
                (Returns-some (checked u32_mod (b.next_arrival + 1)) (b.next_arrival + 1)
                  (ground arith))
                (λ next is.
                  let rests =
                    rest-IsBook b c v order price (is_vacant-none _ free) next (omega arith)
                      (omega arith) in
                  Returns-map Q _ (λ b' h. (price, h.0, at, h.1, h.2, h.3 ∙ is, h.4)) rests))))

  -- `add_order` on a book whose parts agree, and whose arrival counter has a stamp left, never
  -- panics: it returns an error, or a book whose parts agree and where the order is last at its side
  -- and price, nothing else moved.
  pub add_order-IsBook :
      (b : OrderBook slots stores) (c : Contents slots) (order : Order)
      → IsBookOf b c
      → b.next_arrival + 1 < u32_mod
      → Returns
          (λ b'.
            (price : Price) × (k : Key) × (restable_price order.order_type ≡ some price)
            × IsBookOf b' (
                update slots c order.side price
                  (c order.side price ++ (k, record order { arrival = b.next_arrival }) ∷ [])))
          (add_order slots stores b order)
  add_order-IsBook b c order v room =
      Returns-map _ (add_order slots stores b order)
        (λ b' (price, k, at, built, _, _, _). (price, k, at, built))
        (add_order-Rests b c order v room)
