-- ===== src/Matching/FillOrKill/Whole.antt =====
-- A fill-or-kill limit order of src/matching.rs that the other clients can fill: it is filled whole, as the
-- code's own assertion after the sweep says.
use order_book.Prelude.{
  ℕ, ◌∣◌, ◌<◌, ◌≤◌, ◌≡◌, refl, sym, ◌∙◌, subst, some, true, false, ok, ok_inj, ◌>>=◌, leb, ltb,
  arith, u64_mod, All,
}
use order_book.Side.{opposite}
use order_book.Instrument.{Price}
use order_book.Types.{Order}
use order_book.OrderQueue.{SlotMap, IsSlotMap}
use order_book.Storage.{OrderBookStore}
use order_book.Storage.Ladder.{IsStore}
use order_book.OrderBook.{OrderBook}
use order_book.OrderBook.Contents.{Contents, IsBook}
use order_book.OrderBook.Runs.{Agrees}
use order_book.Matching.{Trade, within, filled}
use order_book.Matching.Sweep.{Sweep}
use order_book.Matching.Engine.{process_fok_limit_order, matched, after_sweep}
use order_book.Matching.Fillable.{fillable_quantity-offered}
use order_book.Matching.FillOrKill.{offer}
use order_book.Matching.Trades.Level.{traded}
use order_book.Matching.Safe.{fill_against-IsBook}
use order_book.Matching.Safe.Fills.{NoSelfTrade}
use order_book.Matching.Safe.Level.{IsInRange}
use order_book.Matching.Full.{fill_against-Got}
use order_book.Matching.Full.Sizes.{KeepsContract, AreSized}

not_short : (needed q o : ℕ) → leb needed q ≡ leb needed o → needed ≤ o → ltb q needed ≡ false
not_short needed q o e h = ground arith

module _ (slots : SlotMap) (slot_laws : IsSlotMap slots) (stores : OrderBookStore slots.Key)
    (Valid : stores.Store → Type 0) (laws : IsStore slots.Key stores Valid)
    (b : OrderBook slots stores) (c : Contents slots) (order : Order) (bound : Price) where
  -- The sweep has filled the whole order, at prices within its limit and by trades with other clients.
  abbrev pub IsWhole : Sweep slots stores → Type 0
  IsWhole s =
      (s.taker.remaining_quantity ≡ 0)
      × (traded s.trades ≡ order.remaining_quantity)
      × All (λ (t : Trade). within order.side t.price (some bound) ≡ true) s.trades
      × NoSelfTrade s.trades

  -- On a book whose parts agree, with a matcher that keeps the contract on levels of whole lots and
  -- whose fills point into the level, for an order of a u64 quantity in whole lots against resting
  -- orders of positive such quantities, and offers that fit u64: a fill-or-kill order that
  -- the other clients can fill returns as filled, without a panic. Its trades are with other
  -- clients, within its limit and of exactly what it asks for, nothing of it is left, and the parts of
  -- the book go on to agree.
  pub process_fok_limit_order-IsWhole :
      (lot : ℕ)
      → IsBook slots stores Valid laws b c
      → offer slots slot_laws stores Valid laws b c order bound < u64_mod
      → IsInRange b.matcher
      → KeepsContract lot b.matcher
      → order.remaining_quantity < u64_mod
      → lot ∣ order.remaining_quantity
      → ((p : Price) → AreSized slots lot (c (opposite order.side) p))
      → order.remaining_quantity ≤ offer slots slot_laws stores Valid laws b c order bound
      → (s : Sweep slots stores) × (process_fok_limit_order slots stores b order bound
          ≡ ok (after_sweep slots stores b s, ok (matched slots stores s filled)))
        × Agrees slots stores slot_laws Valid laws (after_sweep slots stores b s)
        × IsWhole s
  unfolding process_fok_limit_order after_sweep
  process_fok_limit_order-IsWhole lot v short range keeps fits whole sized enough =
      let (q, e, _, same) =
        fillable_quantity-offered slots stores Valid laws b c order bound v short in
      let (s, ran, (c', built, others, _)) =
        fill_against-IsBook slots slot_laws stores Valid laws b c order (some bound) v range in
      let (s', ran', got, fair) =
        fill_against-Got slots slot_laws stores Valid laws b lot bound order c v range keeps fits
          whole sized enough in
      let is : s' ≡ s = ok_inj (sym ran' ∙ ran) in
      let go_on = not_short order.remaining_quantity q _ same enough in
      (
        s,
        rw (process_fok_limit_order, e, ◌>>=◌, go_on, ran) refl,
        (c', built),
        subst
            (λ t.
              (t.taker.remaining_quantity ≡ 0)
              × (traded t.trades ≡ order.remaining_quantity)
              × All (λ (x : Trade). within order.side x.price (some bound) ≡ true) t.trades
              × NoSelfTrade s.trades)
            is (got, omega (arith, got, fair.1), fair.0, others),
      )
