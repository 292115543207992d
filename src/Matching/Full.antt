-- ===== src/Matching/Full.antt =====
-- The sweep of src/matching.rs against resting orders of whole lots: it takes all that is offered.
pub mod Fills
pub mod Passes
pub mod Sizes
pub mod Level
pub mod Drained
pub mod Step
pub mod Matchers
use order_book.Prelude.{
  ℕ, zero, suc, ◌+◌, ◌-◌, ◌∣◌, ◌≤◌, ◌<◌, min, ◌≡◌, refl, sym, ap, ◌∙◌, subst, ◌==◌, List, [], ◌∷◌,
  Option, none, some, none_not_some, true, false, Result, ok, err, ◌>>=◌, arith, map, All, All-map,
  Bool-cases, Option-cases, inl, inr, u64_mod, OnOk, dvd-sub, dvd-min, dec_le,
}
use order_book.Side.{Side, opposite}
use order_book.Instrument.{Price, is_zero}
use order_book.Allocation.{MatchingAlgorithm}
use order_book.Types.{Order}
use order_book.OrderQueue.{SlotMap, IsSlotMap, LevelQueue}
use order_book.Storage.{BookLevel, OrderBookStore}
use order_book.Storage.Ladder.{Ladder, IsStore, Sorted, better, first_level}
use order_book.OrderBook.{OrderBook, Fault, failed, panic, out_of_fuel}
use order_book.OrderBook.Returns.{Runs}
use order_book.OrderBook.Contents.{Contents, IsBook}
use order_book.Matching.{SweepContext, within, within_limit}
use order_book.Matching.Sweep.{Sweep, sweep_level, store_level, sweep_loop}
use order_book.Matching.Engine.{fill_against, opening}
use order_book.Matching.Trades.{IsFair, opening-IsFair}
use order_book.Matching.Trades.Level.{Advances, Advances-same, Advances-trans}
use order_book.Matching.Fillable.{offered, offered-beyond, others_left}
use order_book.Matching.Halts.{fill_against-Ends}
use order_book.Matching.Halts.Level.{Ends, Stays, sweep_level-Stays}
use order_book.Matching.Safe.{Fueled, Fueled-Ends, best-found}
use order_book.Matching.Safe.Fills.{NoSelfTrade}
use order_book.Matching.Safe.Level.{
  IsInRange, swept, Worked, sweep_level-Worked, store_level-IsBook,
}
use order_book.Matching.Full.Sizes.{KeepsContract, AreSized, others_left-IsLots}
use order_book.Matching.Full.Level.{here, sweep_level_left, sweep_level_drained}
use order_book.Matching.Full.Drained.{
  behind_away, all_levels, offered-none, All_both, offered_same, first_level_rest, store_level_rest,
}
use order_book.Matching.Full.Step.{Meets, Got, sized_here, swept-Got, nothing_within}

module _ (slots : SlotMap) (slot_laws : IsSlotMap slots) (stores : OrderBookStore slots.Key)
    (Valid : stores.Store → Type 0) (laws : IsStore slots.Key stores Valid)
    (b : OrderBook slots stores) (lot : ℕ) (bound : Price) (order : Order) where
  open slots use {Key}

  sweep_loop-Got :
      (fuel : ℕ) (matcher : MatchingAlgorithm) (context : SweepContext) (s : Sweep slots stores)
      (c : Contents slots)
      → IsInRange matcher
      → KeepsContract lot matcher
      → Meets slots slot_laws stores Valid laws b lot bound order s c
      → Fueled
          (Got slots slot_laws stores Valid laws b lot bound order)
          (sweep_loop slots stores fuel matcher context (some bound) s)
  unfolding sweep_loop within
  sweep_loop-Got zero matcher context s c range keeps h = tt
  sweep_loop-Got (suc fuel) matcher context s c range keeps h =
      elim (Bool-cases (is_zero s.taker.remaining_quantity)) [
        | inl e ↦ rw (e, Fueled) (ground arith, h.fair)
        | inr e ↦ elim (Option-cases (stores.best_level s.store (opposite s.taker.side))) [
          | inl e' ↦
              let none_offered =
                offered-none (λ p. map (λ e. e.1) (c (opposite s.taker.side) p)) s.taker bound
                  (stores.levels s.store (opposite s.taker.side))
                  (sym (laws.best_level_lem s.store (opposite s.taker.side) h.book.valid) ∙ e') in
              rw (e, e', Fueled) (omega (arith, h.offers.1, none_offered), h.fair)
          | inr (level, e') ↦
              let side = opposite s.taker.side in
              let (rest, ladder) =
                first_level_rest Key (stores.levels s.store side) level
                  (sym (laws.best_level_lem s.store side h.book.valid) ∙ e') in
              elim (Bool-cases (within_limit s.taker.side level.price bound)) [
                | inr e'' ↦
                    rw (e, e', e'', Fueled)
                      (
                        nothing_within slots slot_laws stores Valid laws b lot bound order s c h
                            level rest ladder e'',
                        h.fair,
                      )
                | inl e'' ↦
                    let at =
                      best-found slots slot_laws stores Valid laws b s side level h.book.valid e' in
                    let sized =
                      sized_here slots slot_laws stores Valid laws b lot bound order s c h level
                        rest ladder e' e'' in
                    rw (e, e', e'', Fueled)
                      (swept-Got slots slot_laws stores Valid laws b lot bound order s c h level
                        rest ladder e' e'' fuel matcher context
                        (sweep_level slots stores matcher context s level)
                        (sweep_level-Worked slots slot_laws stores Valid laws b c side s level
                          h.book at h.clean matcher context range)
                        (sweep_level-Stays slots stores matcher context s level)
                        (sweep_level_left slots slot_laws stores Valid laws b c side s level h.book
                          at h.clean lot matcher context keeps h.fits h.whole sized (some bound)
                          e'')
                        (sweep_level_drained slots slot_laws stores Valid laws b c side s level
                          h.book at h.clean lot matcher context keeps h.fits h.whole sized)
                        (λ t c' w. sweep_loop-Got fuel matcher context t c' range keeps w))
              ]
        ]
      ]

  -- On a book whose parts agree, with a matcher that keeps the contract and whose fills point into the
  -- level, for an order of a u64 quantity in whole lots, against resting orders of positive such
  -- quantities: a sweep that the other clients offer enough leaves the taker nothing to get.
  pub fill_against-Got :
      (c : Contents slots)
      → IsBook slots stores Valid laws b c
      → IsInRange b.matcher
      → KeepsContract lot b.matcher
      → order.remaining_quantity < u64_mod
      → lot ∣ order.remaining_quantity
      → ((p : Price) → AreSized slots lot (c (opposite order.side) p))
      → order.remaining_quantity
        ≤ offered
            (λ p. map (λ e. e.1) (c (opposite order.side) p))
            order
            bound
            (stores.levels b.store (opposite order.side))
      → (s : Sweep slots stores) × (fill_against slots stores b order (some bound) ≡ ok s)
        × (s.taker.remaining_quantity ≡ 0)
        × IsFair slots stores order (some bound) s
  unfolding fill_against
  fill_against-Got c v range keeps fits whole sized enough =
      let (s, e, (got, fair)) =
        Fueled-Ends (Got slots slot_laws stores Valid laws b lot bound order) (λ s. Valid s.store)
          (fill_against slots stores b order (some bound))
          (sweep_loop-Got _ b.matcher _ _ c range keeps (record {
            book = v;
            clean = tt;
            fits = fits;
            whole = whole;
            offers = (
              all_levels (λ m. AreSized slots lot (c (opposite order.side) m.price)) _
                  (λ m. sized m.price),
              enough,
            );
            fair = Advances-same slots stores (some bound) _ _ refl refl;
          }))
          (fill_against-Ends slots stores Valid laws b order (some bound) v.valid) in
      (s, e, got, opening-IsFair slots stores b order (some bound) s fair)
