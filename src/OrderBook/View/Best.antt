-- ===== src/OrderBook/View/Best.antt =====
-- The best levels of src/orderbook.rs, owned: what they show of what the book holds.
use mathlib.Core.Option
use order_book.Prelude.{
  ◌<◌, ◌≡◌, ◌⊎◌, inl, inr, refl, sym, subst, ◌∙◌, [], ◌∷◌, Option, none, some, true, ◌==◌, length,
  All, map, Bool-cases, none_not_some, ==→eq,
}
use order_book.Side.{Side, ask, bid}
use order_book.Instrument.{Price}
use order_book.Types.{PriceLevel}
use order_book.OrderQueue.{SlotMap, OrderArena}
use order_book.OrderQueue.Chain.{Entries}
use order_book.Storage.{BookLevel, OrderBookStore}
use order_book.Storage.Ladder.{Ladder, IsStore, Sorted, better, find_level, first_level}
use order_book.Storage.Ladder.Find.{find_level-tail}
use order_book.OrderBook.{OrderBook}
use order_book.OrderBook.Contents.{Contents, IsBook}
use order_book.OrderBook.Levels.{Holds, book-Holds, Stands-found, find_level-All, iter-IsQueue}
use order_book.OrderBook.View.{
  new, orders, to_owned, owned, best_level, best_bid_level, best_ask_level,
}

module _ (slots : SlotMap) where
  open slots use {Key}

  -- No level when nothing rests, and otherwise the orders of the best occupied price, oldest first.
  abbrev pub IsBestLevel : Side → (Price → Entries slots) → Option PriceLevel → Type 0
  IsBestLevel side c none = (p : Price) → 0 < length (c p) → ⊥
  IsBestLevel side c (some level) =
      (0 < length (c level.price))
      × (level.orders ≡ map (λ e. e.1) (c level.price))
      × ((p : Price) → 0 < length (c p) → (p ≡ level.price) ⊎ (better side level.price p ≡ true))

  first-IsBestLevel :
      (nodes : OrderArena slots) (side : Side) (c : Price → Entries slots) (ls : Ladder Key)
      → Sorted Key side ls
      → All (Holds slots nodes side c) ls
      → ((p : Price) → 0 < length (c p) → (m : BookLevel Key) × (find_level Key p ls ≡ some m))
      → (o : Option PriceLevel) × (owned slots
            (Option.map (λ l. new slots l nodes) (first_level Key ls))
          ≡ some o)
        × IsBestLevel side c o
  unfolding owned to_owned orders new find_level
  first-IsBestLevel nodes side c [] h holds f =
      (none, refl, λ p k. let (m, e) = f p k in none_not_some e)
  first-IsBestLevel nodes side c (l ∷ ls) h holds f = (
    some (record { price = l.price; side = l.side; orders = map (λ e. e.1) (c l.price) }),
    rw (iter-IsQueue slots nodes l.queue (c l.price) holds.0.1) refl,
    (
      holds.0.0,
      refl,
      λ p k. elim (Bool-cases (p == l.price)) [
        | inl t ↦ inl (==→eq p l.price t)
        | inr t ↦
            let (m, e) = f p k in
            let (ahead, at) =
              find_level-All slots (λ x. better side l.price x.price ≡ true) p ls m h.0
                (sym (find_level-tail Key p l ls t) ∙ e) in
            inr (subst (λ q. better side l.price q ≡ true) at ahead)
      ],
    ),
  )

  module _ (stores : OrderBookStore Key) (Valid : stores.Store → Type 0)
      (laws : IsStore Key stores Valid) where
    best_level-owned :
        (b : OrderBook slots stores) (c : Contents slots) (side : Side)
        → IsBook slots stores Valid laws b c
        → (o : Option PriceLevel) × (owned slots (best_level slots stores b side) ≡ some o)
          × IsBestLevel side (c side) o
    unfolding best_level
    best_level-owned b c side v = rw (laws.best_level_lem b.store side v.valid) (
        first-IsBestLevel b.nodes side (c side) (stores.levels b.store side)
          (laws.sorted b.store side v.valid) (book-Holds slots stores Valid laws b c side v)
          (λ p k. Stands-found slots stores Valid laws b.nodes _ (c side p) (v.stands side p) k))

    -- The owned best level of either side of a book whose parts agree is there exactly when an
    -- order rests on that side, and has the orders of the best occupied price, oldest first.
    pub best_levels-IsBestLevel :
        (b : OrderBook slots stores) (c : Contents slots)
        → IsBook slots stores Valid laws b c
        → ((o : Option PriceLevel) × (best_bid_level slots stores b ≡ some o)
            × IsBestLevel bid (c bid) o)
          × ((o : Option PriceLevel) × (best_ask_level slots stores b ≡ some o)
              × IsBestLevel ask (c ask) o)
    unfolding best_bid_level best_ask_level
    best_levels-IsBestLevel b c v = (best_level-owned b c bid v, best_level-owned b c ask v)
