-- ===== src/Matching/FillOrKill.antt =====
-- A fill-or-kill limit order of src/matching.rs: killed, with the book as it was, or swept.
pub mod Whole
mod Tests
use order_book.Prelude.{
  ℕ, ◌<◌, ◌≤◌, ◌≡◌, refl, [], some, true, false, ok, ◌>>=◌, leb, ltb, map, arith, u64_mod, All,
  OnOk, OnOk-bind, ◌⊎◌, inl, inr, Bool-cases, subst,
}
use order_book.Side.{opposite}
use order_book.Instrument.{Price}
use order_book.Allocation.Contract.Sound.{IsFrugal}
use order_book.Types.{Order}
use order_book.OrderQueue.{SlotMap, IsSlotMap}
use order_book.Storage.{OrderBookStore}
use order_book.Storage.Ladder.{IsStore}
use order_book.OrderBook.{OrderBook}
use order_book.OrderBook.Contents.{Contents, IsBook}
use order_book.OrderBook.Runs.{Agrees}
use order_book.Matching.{Trade, MatchingResult, within, filled, killed}
use order_book.Matching.Sweep.{Sweep}
use order_book.Matching.Engine.{process_fok_limit_order, fill_against, matched, after_sweep}
use order_book.Matching.Fillable.{offered, fillable_quantity-offered}
use order_book.Matching.Trades.Level.{traded}
use order_book.Matching.Trades.{IsFair, fill_against-trades}
use order_book.Matching.Safe.{fill_against-IsBook}
use order_book.Matching.Safe.Fills.{NoSelfTrade}
use order_book.Matching.Safe.Level.{IsInRange}

lacking : (needed q o : ℕ) → leb needed q ≡ leb needed o → ltb q needed ≡ true → o < needed
lacking needed q o e h = ground arith

enough : (needed q o : ℕ) → leb needed q ≡ leb needed o → ltb q needed ≡ false → needed ≤ o
enough needed q o e h = ground arith

module _ (slots : SlotMap) (slot_laws : IsSlotMap slots) (stores : OrderBookStore slots.Key)
    (Valid : stores.Store → Type 0) (laws : IsStore slots.Key stores Valid)
    (b : OrderBook slots stores) (c : Contents slots) (order : Order) (bound : Price) where
  -- What the other clients offer the order.
  abbrev pub offer : ℕ
  offer =
      offered (λ p. map (λ e. e.1) (c (opposite order.side) p)) order bound
        (stores.levels b.store (opposite order.side))

  -- What a fill-or-kill order that is not killed leaves and reports, whatever rests in the book.
  abbrev pub IsFilled : OrderBook slots stores → MatchingResult → Type 0
  IsFilled b' m =
      Agrees slots stores slot_laws Valid laws b'
      × (m.outcome ≡ filled)
      × All (λ (t : Trade). within order.side t.price (some bound) ≡ true) m.trades
      × NoSelfTrade m.trades
      × (traded m.trades ≤ order.remaining_quantity)

  -- On a book whose parts agree, with a matcher that never gives out more than there is and whose
  -- fills point into the level, for an order of a u64 quantity and offers that fit u64: a
  -- fill-or-kill order that the other clients cannot fill is killed, with no trade and the book as
  -- it was. For an order that they can fill the sweep returns, without a panic, and what it has made
  -- of the book and its trades are the result, reported as filled: the trades are with other clients,
  -- within the order's limit and of no more than it asks for, and the parts of the book go on to
  -- agree.
  pub process_fok_limit_order-offer :
      IsBook slots stores Valid laws b c
      → offer < u64_mod
      → IsFrugal b.matcher
      → IsInRange b.matcher
      → order.remaining_quantity < u64_mod
      → ((offer < order.remaining_quantity)
          × (process_fok_limit_order slots stores b order bound
              ≡ ok (b, ok (record { trades = []; cancelled = []; outcome = killed }))))
        ⊎ ((order.remaining_quantity ≤ offer)
            × ((s : Sweep slots stores) × (fill_against slots stores b order (some bound) ≡ ok s)
                × (process_fok_limit_order slots stores b order bound
                    ≡ ok (after_sweep slots stores b s, ok (matched slots stores s filled)))
                × IsFilled (after_sweep slots stores b s) (matched slots stores s filled)))
  unfolding process_fok_limit_order matched after_sweep
  process_fok_limit_order-offer v short frugal range fits =
      let (q, e, _, same) =
        fillable_quantity-offered slots stores Valid laws b c order bound v short in
      elim (Bool-cases (ltb q order.remaining_quantity)) [
        | inl h ↦ inl (
          lacking order.remaining_quantity q offer same h,
          rw (process_fok_limit_order, e, ◌>>=◌, h) refl,
        )
        | inr h ↦
            let (s, swept, (c', built, others, _)) =
              fill_against-IsBook slots slot_laws stores Valid laws b c order (some bound) v
                range in
            let fair : IsFair slots stores order (some bound) s =
              subst (OnOk (IsFair slots stores order (some bound))) swept
                (fill_against-trades slots stores b order (some bound) frugal fits) in
            inr (
              enough order.remaining_quantity q offer same h,
              (
                s,
                swept,
                rw (process_fok_limit_order, e, ◌>>=◌, h, swept) refl,
                ((c', built), refl, fair.0, others, omega (arith, fair.1)),
              ),
            )
      ]
