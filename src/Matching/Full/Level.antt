-- ===== src/Matching/Full/Level.antt =====
-- One level of the sweep of src/matching.rs with a matcher that keeps the contract: the taker gets what the
-- level offers, and a level that it takes all of is drained.
use order_book.Prelude.{
  ℕ, ◌+◌, ◌∣◌, ◌≤◌, ◌<◌, min, ◌≡◌, refl, sym, ap, ◌∙◌, subst, List, [], some, ◌>>=◌, arith, map,
  sum, length, u64_mod, OnOk, OnOk-bind, OnOk-map, OnOk-both, Option, true,
}
use order_book.Side.{Side}
use order_book.Allocation.{MatchingAlgorithm, Fill, Maker}
use order_book.Allocation.Contract.Shares.{remaining}
use order_book.Allocation.Contract.Sound.{Clauses, quantities}
use order_book.Allocation.ProRata.{take_whole}
use order_book.Types.{Order}
use order_book.OrderQueue.{SlotMap, IsSlotMap}
use order_book.OrderQueue.Chain.{Entries}
use order_book.OrderQueue.Walk.{of_others}
use order_book.Storage.{BookLevel, OrderBookStore}
use order_book.Storage.Ladder.{IsStore}
use order_book.Storage.Ladder.Place.{found}
use order_book.OrderBook.{OrderBook}
use order_book.OrderBook.Returns.{Runs, Runs-bind}
use order_book.OrderBook.Contents.{Contents, IsBook}
use order_book.Matching.{SweepContext, within}
use order_book.Instrument.{Price}
use order_book.Matching.Trades.Level.{
  Advances, Advances-same, Advances-trans, apply_fills-Advances, unlink_exhausted-Advances,
}
use order_book.Matching.Sweep.{Sweep, apply_fills, unlink_exhausted, sweep_level}
use order_book.Matching.Fillable.{others_left}
use order_book.Matching.Safe.Fills.{NoSelfTrade, keys_of}
use order_book.Matching.Safe.Unlink.{Filling-Unlinking}
use order_book.Matching.Safe.Level.{swept, sweep_level-Opened}
use order_book.Matching.Full.Fills.{fills-eq-take_whole}
use order_book.Matching.Full.Passes.{
  level_makers, apply_fills_left, unlink_exhausted_taker, apply_whole, unlink_whole,
}
use order_book.Matching.Full.Sizes.{
  KeepsContract, AreSized, of_others-AreSized, AreSized-Positive, AreSized-InU64, AreSized-IsLots,
  AreSized-IsU64Level, length-level_makers, remaining-others_left,
}

module _ (slots : SlotMap) (slot_laws : IsSlotMap slots) (stores : OrderBookStore slots.Key)
    (Valid : stores.Store → Type 0) (laws : IsStore slots.Key stores Valid)
    (b : OrderBook slots stores) (c : Contents slots) (side : Side) (s : Sweep slots stores)
    (level : BookLevel slots.Key) (v : IsBook slots stores Valid laws (swept slots stores b s) c)
    (at : found slots.Key stores Valid laws s.store side level.price ≡ some level)
    (clean : NoSelfTrade s.trades) (lot : ℕ) (matcher : MatchingAlgorithm) (context : SweepContext)
    (keeps : KeepsContract lot matcher) (fits : s.taker.remaining_quantity < u64_mod)
    (whole : lot ∣ s.taker.remaining_quantity)
    (sized : AreSized slots lot (c side level.price)) where
  open slots use {Key}

  -- What the level offers the taker.
  abbrev pub here : ℕ
  here = others_left s.taker.client_id (map (λ e. e.1) (c side level.price))

  abbrev strangers : Entries slots
  strangers = of_others slots s.taker.client_id (c side level.price)

  abbrev makers : List Maker
  makers = level_makers slots strangers

  abbrev fills : List Fill
  fills = matcher.allocate s.taker.remaining_quantity makers context.now

  kept : length strangers < u64_mod → Clauses fills s.taker.remaining_quantity makers lot
  kept n =
      let of_others_sized = of_others-AreSized slots lot s.taker.client_id _ sized in
      keeps s.taker.remaining_quantity makers context.now fits
        (AreSized-IsU64Level slots lot strangers of_others_sized n) whole
        (AreSized-IsLots slots lot strangers of_others_sized)

  owed : sum (remaining makers) ≡ here
  owed = remaining-others_left slots lot s.taker.client_id (c side level.price)

  pub sweep_level_left :
      (bound : Option Price)
      → within s.taker.side level.price bound ≡ true
      → OnOk
          (λ r.
            Advances slots stores bound s r.0
            × (r.0.taker.remaining_quantity + min s.taker.remaining_quantity here
                ≡ s.taker.remaining_quantity))
          (sweep_level slots stores matcher context s level)
  sweep_level_left bound inside =
      let (start, q, (filling, same, traded, opened)) =
        sweep_level-Opened slots slot_laws stores Valid laws b c side s level v at clean matcher
          context in
      let left : start.taker.remaining_quantity ≡ s.taker.remaining_quantity =
        ap (λ (o : Order). o.remaining_quantity) same in
      let given = (kept filling.held.queue.fits).total in
      let room : sum (quantities fills) ≤ start.taker.remaining_quantity =
        omega (arith, left, given) in
      let fits' : start.taker.remaining_quantity < u64_mod = omega (arith, left, fits) in
      let keys = keys_of slots strangers in
      let applied =
        OnOk-both _ _ (apply_fills slots stores start level.price keys fills)
          (apply_fills-Advances slots stores bound level.price keys fills start
            (ap (λ (o : Order). within o.side level.price bound) same ∙ inside) room fits')
          (apply_fills_left slots stores level.price keys fills start room fits') in
      let opening = Advances-same slots stores bound s start same traded in
      subst (OnOk _) (sym opened) (
        OnOk-bind _ (apply_fills slots stores start level.price keys fills) _ applied (λ t (a, e).
          OnOk-map (unlink_exhausted slots stores t q keys fills)
            (λ r (u, w). (
              Advances-trans slots stores bound s start r.0 opening
                  (Advances-trans slots stores bound start t r.0 a w),
              omega (arith, ap (λ (o : Order). o.remaining_quantity) u, e, left, given, owed),
            ))
            (OnOk-both _ _ (unlink_exhausted slots stores t q keys fills)
              (unlink_exhausted_taker slots stores keys fills t q)
              (unlink_exhausted-Advances slots stores bound keys fills t q))))

  pub sweep_level_drained :
      here ≤ s.taker.remaining_quantity
      → Runs (λ r. r.1.len ≡ 0) (sweep_level slots stores matcher context s level)
  sweep_level_drained enough =
      let (start, q, (filling, _, _, opened)) =
        sweep_level-Opened slots slot_laws stores Valid laws b c side s level v at clean matcher
          context in
      let clauses = kept filling.held.queue.fits in
      let others_sized = of_others-AreSized slots lot s.taker.client_id _ sized in
      let positive = AreSized-Positive slots lot strangers others_sized in
      let all : fills ≡ take_whole 0 makers =
        fills-eq-take_whole makers lot 0 makers fills (λ j. let z : j + 0 ≡ j = omega arith in rw z)
          clauses.ascending clauses.each positive (omega (arith, clauses.total, owed, enough)) in
      let keys = keys_of slots strangers in
      let book = swept slots stores b s in
      let client = s.taker.client_id in
      subst (Runs _)
        (sym (
          opened
          ∙ ap
              (λ fs. apply_fills slots stores start level.price keys fs >>= λ applied.
                unlink_exhausted slots stores applied q keys fs)
              all))
        (Runs-bind _ (apply_fills slots stores start level.price keys (take_whole 0 makers)) _
          (apply_whole slots slot_laws stores Valid laws book c side level.price client level.price
            keys [] strangers 0 start q refl positive
            (AreSized-InU64 slots lot strangers others_sized) filling)
          (λ t (ws, f, n, spent).
            unlink_whole slots slot_laws stores Valid laws book c side level.price client keys [] ws
              makers 0 t q spent positive
              (omega (arith, length-level_makers slots lot strangers, n)) (sym f.listed) refl
              (Filling-Unlinking slots slot_laws stores Valid laws book c side level.price client t
                q ws keys f)))
