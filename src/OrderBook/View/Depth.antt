-- ===== src/OrderBook/View/Depth.antt =====
-- The depth and the best levels of src/orderbook.rs: what they show of what the book holds.
use order_book.Prelude.{
  ℕ, zero, suc, ◌+◌, ◌%◌, sum, u64_mod, add_u64, arith, ◌<◌, ◌≡◌, ◌⊎◌, inl, inr, refl, sym, ap,
  subst, ◌∙◌, List, [], ◌∷◌, some, true, ◌==◌, length, All, map, take, Bool-cases, none_not_some,
  ==→eq,
}
use native.Mathlib.Nat.{mod-add-mod}
use order_book.Side.{Side}
use order_book.Instrument.{Price, Qty, sum_qty}
use order_book.Types.{Order}
use order_book.OrderQueue.{SlotMap, OrderArena}
use order_book.OrderQueue.Chain.{Entries}
use order_book.Storage.{BookLevel, OrderBookStore}
use order_book.Storage.Ladder.{Ladder, IsStore, Sorted, better, find_level}
use order_book.Storage.Ladder.Find.{find_level-tail}
use order_book.OrderBook.{OrderBook}
use order_book.OrderBook.Contents.{Contents, IsBook}
use order_book.OrderBook.Levels.{Holds, book-Holds, Stands-found, find_level-All, iter-IsQueue}
use order_book.OrderBook.View.{new, total_quantity, orders, collect_rows, levels, depth}

abbrev pub Rows : Type 0
Rows = List (Price × Qty)

abbrev pub Listed : Price → Rows → Type 0
Listed p [] = ⊥
Listed p (r ∷ rs) = (r.0 ≡ p) ⊎ Listed p rs

-- Best price first, each price once.
abbrev pub Ordered : Side → Rows → Type 0
Ordered side [] = Unit {0}
Ordered side (r ∷ rs) = All (λ (x : Price × Qty). better side r.0 x.0 ≡ true) rs × Ordered side rs

-- Adding up in u64 is adding up, modulo 2^64.
sum_qty_lem :
    (acc : Qty) (qs : List Qty) → acc < u64_mod → sum_qty acc qs ≡ (acc + sum qs) % u64_mod
unfolding sum_qty add_u64
sum_qty_lem acc [] h = omega (arith, h)
sum_qty_lem acc (q ∷ qs) h =
    sum_qty_lem ((acc + q) % u64_mod) qs (omega arith)
    ∙ mod-add-mod (acc + q) u64_mod (sum qs)
    ∙ ap (λ x. x % u64_mod) (omega arith)

module _ (slots : SlotMap) where
  open slots use {Key}

  -- What the entries have left, together.
  abbrev pub total : Entries slots → ℕ
  total es = sum (map (λ (o : Order). o.remaining_quantity) (map (λ e. e.1) es))

  -- The first rows of one side's orders by price: each row an occupied price with its total, and
  -- every other occupied price behind as many rows as were asked for.
  pub record IsDepth (side : Side) (n : ℕ) (c : Price → Entries slots) (rows : Rows) : Type 0 where
    pub ordered : Ordered side rows
    pub totals :
        All (λ (r : Price × Qty). (0 < length (c r.0)) × (r.1 ≡ total (c r.0) % u64_mod)) rows
    pub complete :
        (p : Price)
        → 0 < length (c p)
        → Listed p rows
          ⊎ ((length rows ≡ n) × All (λ (r : Price × Qty). better side r.0 p ≡ true) rows)

  module _ (nodes : OrderArena slots) (side : Side) (c : Price → Entries slots) where
    abbrev row : BookLevel Key → Price × Qty
    row l = (l.price, total (c l.price) % u64_mod)

    rows-collect :
        (n : ℕ) (ls : Ladder Key)
        → All (Holds slots nodes side c) ls
        → collect_rows slots (take n (map (λ l. new slots l nodes) ls)) ≡ some (map row (take n ls))
    unfolding collect_rows total_quantity orders new
    rows-collect zero ls h = refl
    rows-collect (suc n) [] h = refl
    rows-collect (suc n) (l ∷ ls) h =
        rw
          (
            iter-IsQueue slots nodes l.queue (c l.price) h.0.1,
            rows-collect n ls h.1,
            sum_qty_lem 0 (map (λ (o : Order). o.remaining_quantity) (map (λ e. e.1) (c l.price)))
                (omega arith),
          )
          (ap (λ x. some ((l.price, x % u64_mod) ∷ map row (take n ls))) (omega arith))

    rows-All :
        (p : Price) (n : ℕ) (ls : Ladder Key)
        → All (λ (m : BookLevel Key). better side p m.price ≡ true) ls
        → All (λ (x : Price × Qty). better side p x.0 ≡ true) (map row (take n ls))
    rows-All p zero ls h = tt
    rows-All p (suc n) [] h = tt
    rows-All p (suc n) (l ∷ ls) h = (h.0, rows-All p n ls h.1)

    rows-Ordered :
        (n : ℕ) (ls : Ladder Key) → Sorted Key side ls → Ordered side (map row (take n ls))
    rows-Ordered zero ls h = tt
    rows-Ordered (suc n) [] h = tt
    rows-Ordered (suc n) (l ∷ ls) h = (rows-All l.price n ls h.0, rows-Ordered n ls h.1)

    rows-totals :
        (n : ℕ) (ls : Ladder Key)
        → All (Holds slots nodes side c) ls
        → All
            (λ (r : Price × Qty). (0 < length (c r.0)) × (r.1 ≡ total (c r.0) % u64_mod))
            (map row (take n ls))
    rows-totals zero ls h = tt
    rows-totals (suc n) [] h = tt
    rows-totals (suc n) (l ∷ ls) h = ((h.0.0, refl), rows-totals n ls h.1)

    rows_complete :
        (n : ℕ) (ls : Ladder Key) (p : Price) (m : BookLevel Key)
        → Sorted Key side ls
        → find_level Key p ls ≡ some m
        → Listed p (map row (take n ls))
          ⊎ ((length (map row (take n ls)) ≡ n)
              × All (λ (r : Price × Qty). better side r.0 p ≡ true) (map row (take n ls)))
    unfolding find_level
    rows_complete zero ls p m h e = inr (refl, tt)
    rows_complete (suc n) [] p m h e = absurd (none_not_some e)
    rows_complete (suc n) (l ∷ ls) p m h e = elim (Bool-cases (p == l.price)) [
      | inl t ↦ inl (inl (sym (==→eq p l.price t)))
      | inr t ↦
          let later : find_level Key p ls ≡ some m = sym (find_level-tail Key p l ls t) ∙ e in
          elim (rows_complete n ls p m h.1 later) [
            | inl a ↦ inl (inr a)
            | inr a ↦
                let (ahead, at) =
                  find_level-All slots (λ x. better side l.price x.price ≡ true) p ls m h.0 later in
                inr (ap suc a.0, (subst (λ q. better side l.price q ≡ true) at ahead, a.1))
          ]
    ]

  module _ (stores : OrderBookStore Key) (Valid : stores.Store → Type 0)
      (laws : IsStore Key stores Valid) where
    -- The depth of a side of a book whose parts agree never panics. Its rows are occupied prices,
    -- best first, each with what the orders there have left together, modulo 2^64, and an occupied
    -- price that it does not list is worse than every row, of which there are as many as were asked
    -- for.
    pub depth-IsDepth :
        (b : OrderBook slots stores) (c : Contents slots) (side : Side) (n : ℕ)
        → IsBook slots stores Valid laws b c
        → (rows : Rows) × (depth slots stores b side n ≡ some rows) × IsDepth side n (c side) rows
    unfolding depth levels
    depth-IsDepth b c side n v =
        let ls = stores.levels b.store side in
        let h : Sorted Key side ls = laws.sorted b.store side v.valid in
        let holds = book-Holds slots stores Valid laws b c side v in
        (
          map (row b.nodes side (c side)) (take n ls),
          rows-collect b.nodes side (c side) n ls holds,
          record {
            ordered = rows-Ordered b.nodes side (c side) n ls h;
            totals = rows-totals b.nodes side (c side) n ls holds;
            complete = λ p k.
                let (m, e) =
                  Stands-found slots stores Valid laws b.nodes _ (c side p) (v.stands side p) k in
                rows_complete b.nodes side (c side) n ls p m h e;
          },
        )
