-- ===== src/Matching/Fillable.antt =====
-- The check of a fill-or-kill order in src/matching.rs: what `fillable_quantity` counts.
mod Tests
use order_book.Prelude.{
  ◌+◌, ◌<◌, ◌≤◌, ◌≡◌, ◌⊎◌, inl, inr, refl, sym, ap, subst, ◌∙◌, ℕ, List, [], ◌∷◌, some, ok, Bool,
  true, false, if◌then◌else◌, leb, text_beq, All, All-map, map, arith, Bool-cases, u64_mod, ok_or,
  ◌>>=◌, add_u64_lem,
}
use order_book.Side.{Side, ask, bid, opposite}
use order_book.Instrument.{Price, Qty, add_qty}
use order_book.Types.{ClientId, Order}
use order_book.OrderQueue.{SlotMap, OrderArena, iter}
use order_book.OrderQueue.Chain.{Entries}
use order_book.Storage.{BookLevel, OrderBookStore}
use order_book.Storage.Ladder.{Ladder, IsStore, Sorted, better}
use order_book.OrderBook.{OrderBook, Fault, panic}
use order_book.OrderBook.Contents.{Contents, IsBook}
use order_book.OrderBook.Levels.{Holds, book-Holds, iter-IsQueue}
use order_book.Matching.{within_limit}
use order_book.Matching.Sweep.{count_orders, count_levels, fillable_quantity}

-- What the orders of other clients have left, together.
abbrev pub others_left : ClientId → List Order → ℕ
others_left client [] = 0
others_left client (o ∷ os) =
    let rest = others_left client os in
    if text_beq o.client_id client then rest else o.remaining_quantity + rest

-- A count that goes on from `available`, of which there is `total`: it has reached what is needed,
-- or it is all there is.
abbrev Counted : Qty → ℕ → Qty → Type 0
Counted needed total q = (q ≤ total) × ((needed ≤ q) ⊎ (q ≡ total))

-- One order of another client.
count_orders-other :
    (client : ClientId) (needed available : Qty) (o : Order) (os : List Order)
    → text_beq o.client_id client ≡ false
    → available + o.remaining_quantity < u64_mod
    → count_orders client needed available (o ∷ os) ≡ (
        if leb needed (available + o.remaining_quantity)
        then (available + o.remaining_quantity, true)
        else count_orders client needed (available + o.remaining_quantity) os)
unfolding count_orders
count_orders-other client needed available o os t h =
    rw (t, add_u64_lem available o.remaining_quantity h) refl

others_left-other :
    (client : ClientId) (available : Qty) (o : Order) (os : List Order)
    → text_beq o.client_id client ≡ false
    → available + others_left client (o ∷ os)
      ≡ available + o.remaining_quantity + others_left client os
others_left-other client available o os t = rw t (omega arith)

-- One level is counted in full, or until enough is there.
count_orders-Counted :
    (client : ClientId) (needed available : Qty) (os : List Order)
    → available + others_left client os < u64_mod
    → (count_orders client needed available os ≡ (available + others_left client os, false))
      ⊎ ((q : Qty) × (count_orders client needed available os ≡ (q, true))
          × (needed ≤ q)
          × (q ≤ available + others_left client os))
unfolding count_orders
count_orders-Counted client needed available [] h = inl (ap (λ x. (x, false)) (omega arith))
count_orders-Counted client needed available (o ∷ os) h =
    elim (Bool-cases (text_beq o.client_id client)) [
      | inl t ↦
          let same : others_left client (o ∷ os) ≡ others_left client os = rw t refl in
          rw t (
            count_orders-Counted client needed available os
              (subst (λ x. available + x < u64_mod) same h))
      | inr t ↦
          let more = available + o.remaining_quantity in
          let same = others_left-other client available o os t in
          let short : more + others_left client os < u64_mod = subst (λ x. x < u64_mod) same h in
          rw (same, count_orders-other client needed available o os t (omega arith))
            elim (Bool-cases (leb needed more)) [
              | inl e ↦ rw e (inr (more, refl, ground (arith, e), omega arith))
              | inr e ↦ rw e (count_orders-Counted client needed more os short)
            ]
    ]

-- What other clients offer a taker within its limit, over all levels of the other side.
abbrev pub offered : {Key : Type 0} → (Price → List Order) → Order → Price → Ladder Key → ℕ
offered at taker bound [] = 0
offered at taker bound (l ∷ ls) =
    let rest = offered at taker bound ls in
    if within_limit taker.side l.price bound
    then others_left taker.client_id (at l.price) + rest
    else rest

beyond :
    (side : Side) (p q bound : Price)
    → within_limit side p bound ≡ false
    → better (opposite side) p q ≡ true
    → within_limit side q bound ≡ false
unfolding within_limit better opposite
beyond ask p q bound h b = ground arith
beyond bid p q bound h b = ground arith

-- Behind a level that is beyond the limit nothing is offered.
pub offered-beyond :
    {Key : Type 0} (at : Price → List Order) (taker : Order) (bound p : Price) (ls : Ladder Key)
    → within_limit taker.side p bound ≡ false
    → All (λ (m : BookLevel Key). better (opposite taker.side) p m.price ≡ true) ls
    → offered at taker bound ls ≡ 0
offered-beyond at taker bound p [] h b = refl
offered-beyond at taker bound p (l ∷ ls) h b =
    rw (beyond taker.side p l.price bound h b.0) (offered-beyond at taker bound p ls h b.1)

module _ (slots : SlotMap) where
  open slots use {Key}

  module _ (stores : OrderBookStore Key) where
    -- One level within the limit.
    count_levels-within :
        (nodes : OrderArena slots) (taker : Order) (bound : Price) (available : Qty)
        (l : BookLevel Key) (ls : Ladder Key) (os : List Order) (counted : Qty × Bool)
        → within_limit taker.side l.price bound ≡ true
        → iter slots l.queue nodes ≡ some os
        → count_orders taker.client_id taker.remaining_quantity available os ≡ counted
        → count_levels slots stores nodes taker bound available (l ∷ ls) ≡ elim counted.1 [
          | true ↦ ok counted.0
          | false ↦ count_levels slots stores nodes taker bound counted.0 ls
        ]
    unfolding count_levels
    count_levels-within nodes taker bound available l ls os counted t e f =
        rw (count_levels, t, e)
          (ap
            (λ r. elim r.1 [
              | true ↦ ok r.0
              | false ↦ count_levels slots stores nodes taker bound r.0 ls
            ])
            f)

    count_levels-Counted :
        (nodes : OrderArena slots) (c : Price → Entries slots) (taker : Order) (bound : Price)
        (available : Qty) (ls : Ladder Key)
        → Sorted Key (opposite taker.side) ls
        → All (Holds slots nodes (opposite taker.side) c) ls
        → available + offered (λ p. map (λ e. e.1) (c p)) taker bound ls < u64_mod
        → (q : Qty) × (count_levels slots stores nodes taker bound available ls ≡ ok q)
          × Counted taker.remaining_quantity
              (available + offered (λ p. map (λ e. e.1) (c p)) taker bound ls)
              q
    unfolding count_levels
    count_levels-Counted nodes c taker bound available [] h v short =
        (available, refl, (omega arith, inr (omega arith)))
    count_levels-Counted nodes c taker bound available (l ∷ ls) h v short =
        elim (Bool-cases (within_limit taker.side l.price bound)) [
          | inr t ↦
              rw
                (
                  count_levels,
                  t,
                  offered-beyond (λ p. map (λ e. e.1) (c p)) taker bound l.price ls t h.0,
                )
                (available, refl, (omega arith, inr (omega arith)))
          | inl t ↦
              let rest = offered (λ p. map (λ e. e.1) (c p)) taker bound ls in
              let here = others_left taker.client_id (map (λ e. e.1) (c l.price)) in
              let same : available + offered (λ p. map (λ e. e.1) (c p)) taker bound (l ∷ ls)
                  ≡ available + here + rest =
                rw t (omega arith) in
              let fits : available + here + rest < u64_mod = subst (λ x. x < u64_mod) same short in
              let step =
                count_levels-within nodes taker bound available l ls (map (λ e. e.1) (c l.price)) in
              let walk = iter-IsQueue slots nodes l.queue (c l.price) v.0.1 in
              rw same
                elim (count_orders-Counted taker.client_id taker.remaining_quantity available
                  (map (λ e. e.1) (c l.price)) (omega arith)) [
                    | inl full ↦ rw (step (available + here, false) t walk full) (
                        count_levels-Counted nodes c taker bound (available + here) ls h.1 v.1 fits)
                    | inr (q, e, enough, le) ↦
                        rw (step (q, true) t walk e) (q, refl, (omega (arith, le), inl enough))
                  ]
        ]

  module _ (stores : OrderBookStore Key) (Valid : stores.Store → Type 0)
      (laws : IsStore Key stores Valid) where
    -- On a book whose parts agree, where what the other clients offer within the limit fits u64,
    -- the check of a fill-or-kill order never panics, counts no more than they offer, and finds
    -- enough exactly when they offer enough.
    pub fillable_quantity-offered :
        (b : OrderBook slots stores) (c : Contents slots) (taker : Order) (bound : Price)
        → IsBook slots stores Valid laws b c
        → offered
            (λ p. map (λ e. e.1) (c (opposite taker.side) p))
            taker
            bound
            (stores.levels b.store (opposite taker.side))
          < u64_mod
        → (q : Qty) × (fillable_quantity slots stores b.store b.nodes
              (opposite taker.side)
              taker
              bound
            ≡ ok q)
          × (q
              ≤ offered
                  (λ p. map (λ e. e.1) (c (opposite taker.side) p))
                  taker
                  bound
                  (stores.levels b.store (opposite taker.side)))
          × (leb taker.remaining_quantity q
              ≡ leb taker.remaining_quantity (
                  offered
                    (λ p. map (λ e. e.1) (c (opposite taker.side) p))
                    taker
                    bound
                    (stores.levels b.store (opposite taker.side))))
    unfolding fillable_quantity
    fillable_quantity-offered b c taker bound v short =
        let side = opposite taker.side in
        let (q, e, (le, either)) =
          count_levels-Counted stores b.nodes (c side) taker bound 0 (stores.levels b.store side)
            (laws.sorted b.store side v.valid) (book-Holds slots stores Valid laws b c side v)
            (omega (arith, short)) in
        (
          q,
          e,
          omega (arith, le),
          elim either [
            | inl enough ↦ ground (arith, enough, le)
            | inr all ↦ ap (leb taker.remaining_quantity) (omega (arith, all))
          ],
        )
