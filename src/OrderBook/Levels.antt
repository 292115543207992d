-- ===== src/OrderBook/Levels.antt =====
-- The levels of src/orderbook.rs's store, side by side with what the book holds: each level has the
-- orders of its price.
use order_book.Prelude.{
  ◌<◌, ◌≡◌, inl, inr, refl, sym, ap, subst, ◌∙◌, [], ◌∷◌, Option, none, some, true, ◌==◌, length,
  All, map, arith, Bool-cases, none_not_some, some_inj, ==→eq,
}
use order_book.Side.{Side}
use order_book.Instrument.{Price}
use order_book.OrderQueue.{SlotMap, OrderArena, LevelQueue, iter}
use order_book.OrderQueue.Chain.{Entries, IsQueue}
use order_book.OrderQueue.Walk.{iter_with_keys-IsQueue}
use order_book.Storage.{BookLevel, OrderBookStore}
use order_book.Storage.Ladder.{Ladder, IsStore, Sorted, better, find_level}
use order_book.Storage.Ladder.Find.{find_level-head, find_level-tail, find_level-worse}
use order_book.OrderBook.{OrderBook}
use order_book.OrderBook.Contents.{Contents, Stands, IsBook}

module _ (slots : SlotMap) where
  open slots use {Key}

  pub iter-IsQueue :
      (a : OrderArena slots) (q : LevelQueue Key) (es : Entries slots)
      → IsQueue slots a q es
      → iter slots q a ≡ some (map (λ e. e.1) es)
  unfolding iter
  iter-IsQueue a q es v = rw (iter_with_keys-IsQueue slots a q es v) refl

  -- What holds of all levels holds of one that is found.
  pub find_level-All :
      (P : BookLevel Key → Type 0) (p : Price) (ls : Ladder Key) (m : BookLevel Key)
      → All P ls
      → find_level Key p ls ≡ some m
      → P m × (m.price ≡ p)
  unfolding find_level
  find_level-All P p [] m h e = absurd (none_not_some e)
  find_level-All P p (l ∷ ls) m h e = elim (Bool-cases (p == l.price)) [
    | inl t ↦
        let same : l ≡ m = some_inj (sym (rw t refl) ∙ e) in
        (subst P same h.0, ap (λ (x : BookLevel Key). x.price) (sym same) ∙ sym (==→eq p l.price t))
    | inr t ↦ find_level-All P p ls m h.1 (sym (rw t refl) ∙ e)
  ]

  -- What is found behind the first level is found.
  find_level-later :
      (side : Side) (p : Price) (l m : BookLevel Key) (ls : Ladder Key)
      → Sorted Key side (l ∷ ls)
      → find_level Key p ls ≡ some m
      → find_level Key p (l ∷ ls) ≡ some m
  find_level-later side p l m ls h e = elim (Bool-cases (p == l.price)) [
    | inl t ↦ absurd (
        none_not_some (
          sym (
            find_level-worse Key side p ls (
              subst (λ q. All (λ (x : BookLevel Key). better side q x.price ≡ true) ls)
                (sym (==→eq p l.price t)) h.0))
          ∙ e))
    | inr t ↦ find_level-tail Key p l ls t ∙ e
  ]

  module _ (nodes : OrderArena slots) (side : Side) (c : Price → Entries slots) where
    -- The orders of a level are those of its price, and they are some.
    abbrev pub Holds : BookLevel Key → Type 0
    Holds l = (0 < length (c l.price)) × IsQueue slots nodes l.queue (c l.price)

    Holds-All :
        (ls : Ladder Key)
        → Sorted Key side ls
        → ((p : Price) (m : BookLevel Key)
            → find_level Key p ls ≡ some m
            → (0 < length (c p)) × IsQueue slots nodes m.queue (c p))
        → All Holds ls
    Holds-All [] h f = tt
    Holds-All (l ∷ ls) h f = (
      f l.price l (find_level-head Key l ls),
      Holds-All ls h.1 (λ p m e. f p m (find_level-later side p l m ls h e)),
    )

  module _ (stores : OrderBookStore Key) (Valid : stores.Store → Type 0)
      (laws : IsStore Key stores Valid) where
    found-Stands :
        (nodes : OrderArena slots) (o : Option (BookLevel Key)) (es : Entries slots)
        (m : BookLevel Key)
        → Stands slots stores Valid laws nodes o es
        → o ≡ some m
        → (0 < length es) × IsQueue slots nodes m.queue es
    found-Stands nodes o es m h e = subst (λ x. Stands slots stores Valid laws nodes x es) e h

    pub Stands-found :
        (nodes : OrderArena slots) (o : Option (BookLevel Key)) (es : Entries slots)
        → Stands slots stores Valid laws nodes o es
        → 0 < length es
        → (m : BookLevel Key) × (o ≡ some m)
    Stands-found nodes none es h k = absurd (omega (arith, ap length h))
    Stands-found nodes (some m) es h k = (m, refl)

    -- The levels of one side of a book whose parts agree.
    pub book-Holds :
        (b : OrderBook slots stores) (c : Contents slots) (side : Side)
        → IsBook slots stores Valid laws b c
        → All (Holds b.nodes side (c side)) (stores.levels b.store side)
    book-Holds b c side v =
        Holds-All b.nodes side (c side) (stores.levels b.store side)
          (laws.sorted b.store side v.valid)
          (λ p m e. found-Stands b.nodes _ (c side p) m (v.stands side p) e)
