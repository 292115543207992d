-- ===== src/Matching/Full/Step.antt =====
-- One round of the sweep of src/matching.rs against resting orders of whole lots.
use order_book.Prelude.{
  ℕ, ◌+◌, ◌-◌, ◌∣◌, ◌≤◌, ◌<◌, min, ◌≡◌, refl, sym, ap, ◌∙◌, subst, ◌==◌, List, ◌∷◌, some, true,
  false, Result, ok, err, ◌>>=◌, arith, map, All, All-map, Bool-cases, inl, inr, u64_mod, OnOk,
  dvd-sub, dvd-min, dec_le,
}
use order_book.Side.{Side, opposite}
use order_book.Instrument.{Price}
use order_book.Allocation.{MatchingAlgorithm}
use order_book.Types.{Order}
use order_book.OrderQueue.{SlotMap, IsSlotMap, LevelQueue}
use order_book.Storage.{BookLevel, OrderBookStore}
use order_book.Storage.Ladder.{Ladder, IsStore, Sorted, better}
use order_book.OrderBook.{OrderBook, Fault}
use order_book.OrderBook.Returns.{Runs}
use order_book.OrderBook.Contents.{Contents, IsBook}
use order_book.Matching.{SweepContext, within_limit}
use order_book.Matching.Sweep.{Sweep, store_level, sweep_loop}
use order_book.Matching.Engine.{opening}
use order_book.Matching.Trades.Level.{Advances, Advances-same, Advances-trans}
use order_book.Matching.Fillable.{offered, offered-beyond, others_left}
use order_book.Matching.Halts.Level.{Ends, Stays}
use order_book.Matching.Safe.{Fueled, best-found}
use order_book.Matching.Safe.Fills.{NoSelfTrade}
use order_book.Matching.Safe.Level.{swept, Worked, store_level-IsBook}
use order_book.Matching.Full.Sizes.{AreSized, others_left-IsLots}
use order_book.Matching.Full.Drained.{behind_away, All_both, offered_same, store_level_rest}

module _ (slots : SlotMap) (slot_laws : IsSlotMap slots) (stores : OrderBookStore slots.Key)
    (Valid : stores.Store → Type 0) (laws : IsStore slots.Key stores Valid)
    (b : OrderBook slots stores) (lot : ℕ) (bound : Price) (order : Order) where
  open slots use {Key}

  -- The levels of a side hold orders of whole lots, and offer the taker what it has left to get.
  abbrev pub Offers : Sweep slots stores → Contents slots → Side → Type 0
  Offers s c side =
      All (λ (m : BookLevel Key). AreSized slots lot (c side m.price)) (stores.levels s.store side)
      × (s.taker.remaining_quantity
          ≤ offered (λ p. map (λ e. e.1) (c side p)) s.taker bound (stores.levels s.store side))

  -- What holds of the sweep at the head of its loop.
  pub record Meets (s : Sweep slots stores) (c : Contents slots) : Type 0 where
    pub book : IsBook slots stores Valid laws (swept slots stores b s) c
    pub clean : NoSelfTrade s.trades
    pub fits : s.taker.remaining_quantity < u64_mod
    pub whole : lot ∣ s.taker.remaining_quantity
    pub offers : Offers s c (opposite s.taker.side)
    pub fair : Advances slots stores (some bound) (opening slots stores b order) s

  -- The taker has got all that it asked for.
  abbrev pub Got : Sweep slots stores → Type 0
  Got s =
      (s.taker.remaining_quantity ≡ 0)
      × Advances slots stores (some bound) (opening slots stores b order) s

  module _ (s : Sweep slots stores) (c : Contents slots) (meets : Meets s c) (level : BookLevel Key)
      (rest : Ladder Key) (ladder : stores.levels s.store (opposite s.taker.side) ≡ level ∷ rest)
      (best : stores.best_level s.store (opposite s.taker.side) ≡ some level)
      (inside : within_limit s.taker.side level.price bound ≡ true) where
    abbrev pub far : Side
    far = opposite s.taker.side

    abbrev pub Works : Sweep slots stores × LevelQueue Key → Type 0
    Works =
        Worked slots slot_laws stores Valid laws b c far s level meets.book
          (best-found slots slot_laws stores Valid laws b s far level meets.book.valid best)
          meets.clean

    abbrev pub offer : ℕ
    offer = others_left s.taker.client_id (map (λ e. e.1) (c far level.price))

    at_rest : Contents slots → Ladder Key → ℕ
    at_rest c' ls = offered (λ p. map (λ e. e.1) (c' far p)) s.taker bound ls

    pub sized_here : AreSized slots lot (c far level.price)
    sized_here =
        (subst (All (λ (m : BookLevel Key). AreSized slots lot (c far m.price))) ladder
          meets.offers.0).0

    sized_rest : All (λ (m : BookLevel Key). AreSized slots lot (c far m.price)) rest
    sized_rest =
        (subst (All (λ (m : BookLevel Key). AreSized slots lot (c far m.price))) ladder
          meets.offers.0).1

    behind : All (λ (m : BookLevel Key). better far level.price m.price ≡ true) rest
    behind = (subst (Sorted Key far) ladder (laws.sorted s.store far meets.book.valid)).0

    enough :
        s.taker.remaining_quantity
        ≤ offer + offered (λ p. map (λ e. e.1) (c far p)) s.taker bound rest
    enough =
        let total =
          subst
            (λ ls.
              s.taker.remaining_quantity ≤ offered (λ p. map (λ e. e.1) (c far p)) s.taker bound ls)
            ladder meets.offers.1 in
        rw inside at total

    goes_on :
        (t : Sweep slots stores) (queue : LevelQueue Key)
        → Advances slots stores (some bound) s t
        → Advances slots stores
            (some bound)
            (opening slots stores b order)
            (store_level slots stores t far level queue)
    unfolding store_level
    goes_on t queue step = Advances-trans slots stores (some bound) _ s _ meets.fair (
        Advances-trans slots stores (some bound) s t _ step
          (Advances-same slots stores (some bound) t _ refl refl))

    -- The sweep goes on with the levels behind.
    next-Meets :
        (t : Sweep slots stores) (queue : LevelQueue Key)
        → Works (t, queue)
        → (queue.len == 0) ≡ true
        → Stays slots stores s t
        → Advances slots stores (some bound) s t
        → t.taker.remaining_quantity + min s.taker.remaining_quantity offer
          ≡ s.taker.remaining_quantity
        → (c' : Contents slots) × Meets (store_level slots stores t far level queue) c'
    unfolding store_level
    next-Meets t queue w z stays step left =
        let at = best-found slots slot_laws stores Valid laws b s far level meets.book.valid best in
        let (c', built, clean, _, others) =
          store_level-IsBook slots slot_laws stores Valid laws b c far s level meets.book at
            meets.clean t queue w in
        let (es, keys, u) = w in
        let next = store_level slots stores t far level queue in
        let levels : stores.levels next.store far ≡ rest =
          store_level_rest slots stores Valid laws t far level queue rest
            (subst Valid (sym stays.0) meets.book.valid)
            (ap (λ x. stores.levels x far) stays.0 ∙ ladder) z in
        let same : All (λ (m : BookLevel Key). c' far m.price ≡ c far m.price) rest =
          All-map (λ m h. others m.price (behind_away far level.price m.price h)) rest behind in
        let sized : All (λ (m : BookLevel Key). AreSized slots lot (c' far m.price)) rest =
          All_both (λ m. c' far m.price ≡ c far m.price) (λ m. AreSized slots lot (c far m.price))
            (λ m. AreSized slots lot (c' far m.price)) rest
            (λ m e h. subst (AreSized slots lot) (sym e) h) same sized_rest in
        let unchanged =
          offered_same (λ p. map (λ e. e.1) (c far p)) (λ p. map (λ e. e.1) (c' far p)) s.taker
            t.taker bound rest (sym stays.1) (sym u.client_eq)
            (All-map (λ m h. ap (λ es. map (λ e. e.1) es) (sym h)) rest same) in
        let exact : t.taker.remaining_quantity
            ≡ s.taker.remaining_quantity - min s.taker.remaining_quantity offer =
          omega (arith, left) in
        let more : t.taker.remaining_quantity
            ≤ offered (λ p. map (λ e. e.1) (c' far p)) t.taker bound rest =
          omega (arith, exact, enough, unchanged) in
        (
          c',
          record {
            book = built;
            clean = clean;
            fits = omega (arith, exact, meets.fits);
            whole =
                subst (λ n. lot ∣ n) (sym exact)
                  (dvd-sub lot meets.whole (
                    dvd-min lot meets.whole
                      (others_left-IsLots slots lot s.taker.client_id _ sized_here)));
            offers = subst (Offers next c') (ap opposite (sym stays.1)) (
              subst (All (λ (m : BookLevel Key). AreSized slots lot (c' far m.price))) (sym levels)
                  sized,
              subst
                  (λ ls.
                    t.taker.remaining_quantity
                    ≤ offered (λ p. map (λ e. e.1) (c' far p)) t.taker bound ls)
                  (sym levels) more,
            );
            fair = goes_on t queue step;
          },
        )

    pub swept-Got :
        (fuel : ℕ) (matcher : MatchingAlgorithm) (context : SweepContext)
        (m : Result Fault (Sweep slots stores × LevelQueue Key))
        → Runs Works m
        → Ends (λ r. Stays slots stores s r.0) m
        → OnOk
            (λ r.
              Advances slots stores (some bound) s r.0
              × (r.0.taker.remaining_quantity + min s.taker.remaining_quantity offer
                  ≡ s.taker.remaining_quantity))
            m
        → (offer ≤ s.taker.remaining_quantity → Runs (λ r. r.1.len ≡ 0) m)
        → ((t : Sweep slots stores) (c' : Contents slots)
            → Meets t c'
            → Fueled Got (sweep_loop slots stores fuel matcher context (some bound) t))
        → Fueled Got (
            m >>= λ r. elim (r.1.len == 0) [
              | true ↦
                  sweep_loop slots stores fuel matcher context
                    (some bound)
                    (store_level slots stores r.0 far level r.1)
              | false ↦ ok (store_level slots stores r.0 far level r.1)
            ])
    unfolding store_level
    swept-Got fuel matcher context (err e) w stays left drained again = absurd w
    swept-Got fuel matcher context (ok (t, queue)) w stays (step, left) drained again =
        elim (Bool-cases (queue.len == 0)) [
          | inl z ↦
              let (c', next) = next-Meets t queue w z stays step left in
              rw (z, Fueled) (again (store_level slots stores t far level queue) c' next)
          | inr z ↦ elim (dec_le offer s.taker.remaining_quantity) [
            | yes le ↦ absurd (ground (arith, drained le))
            | no more ↦ rw (z, Fueled) (omega (arith, left, more), goes_on t queue step)
          ]
        ]

  -- A best level beyond the limit means that nothing is offered.
  pub nothing_within :
      (s : Sweep slots stores) (c : Contents slots)
      → Meets s c
      → (level : BookLevel Key) (rest : Ladder Key)
      → stores.levels s.store (opposite s.taker.side) ≡ level ∷ rest
      → within_limit s.taker.side level.price bound ≡ false
      → s.taker.remaining_quantity ≡ 0
  nothing_within s c h level rest ladder e =
      let at : Price → List Order = λ p. map (λ e. e.1) (c (opposite s.taker.side) p) in
      let sorted =
        subst (Sorted Key (opposite s.taker.side)) ladder
          (laws.sorted s.store (opposite s.taker.side) h.book.valid) in
      let none_offered : offered at s.taker bound (level ∷ rest) ≡ 0 =
        rw e (offered-beyond at s.taker bound level.price rest e sorted.0) in
      omega (arith, h.offers.1, ap (offered at s.taker bound) ladder, none_offered)
